-- ===== src/State/Tests.antt =====
-- The env file on concrete contents, and each theorem at an input.
use cf_vpn.Prelude.{[], ◌∷◌, ◌≡◌, ◌≢◌, refl, arith, ok, err}
use cf_vpn.Text.{Bytes, codes, equal, has_prefix}
use cf_vpn.Text.Order.{less, sort_by}
use cf_vpn.Text.Trim.{trim_space}
use cf_vpn.Text.Split.{split_on, cut}
use cf_vpn.Text.Scan.{scan_lines}
use cf_vpn.Regex.{matches}
use cf_vpn.State.{Env, bad_line, load, save, get, validate_env, index_break}
use cf_vpn.Dict.{put}
use cf_vpn.State.Reload.{load-save}
use cf_vpn.State.Loaded.{IsLoaded, load-IsLoaded, trailing_space_lost}

abbrev two : Env
two = (codes "DOMAIN", codes "a.com") ∷ (codes "MODE", codes "direct") ∷ []

abbrev two_text : Bytes
two_text = codes "DOMAIN=a.com\nMODE=direct\n"

save_golden : save two ≡ ok two_text
unfolding save matches sort_by less equal validate_env get
save_golden = refl

load_golden : load (codes "# x\n\n MODE=direct \nDOMAIN=b\nDOMAIN=a.com") ≡ ok two
unfolding load scan_lines split_on trim_space matches put less equal has_prefix cut
load_golden = refl

load_export : load (codes "A=1\nexport B=2\n") ≡ err (bad_line 2 (codes "export B=2"))
unfolding load scan_lines split_on trim_space matches put less equal has_prefix cut
load_export = refl

load-save_example : load two_text ≡ ok two
unfolding less
load-save_example =
    load-save two two_text (refl, (tt, tt))
      (
        record { clean = refl; short = omega arith },
        (record { clean = refl; short = omega arith }, tt),
      )
      save_golden

load-IsLoaded_example : IsLoaded two
load-IsLoaded_example =
    load-IsLoaded (codes "# x\n\n MODE=direct \nDOMAIN=b\nDOMAIN=a.com") two load_golden

save_spaced : save ((codes "A", codes "v ") ∷ []) ≡ ok (codes "A=v \n")
unfolding save matches sort_by less equal validate_env get
save_spaced = refl

trailing_space_lost_example :
    (b : Bytes) × (save ((codes "A", codes "v ") ∷ []) ≡ ok b)
    × (load b ≢ ok ((codes "A", codes "v ") ∷ []))
unfolding matches index_break
trailing_space_lost_example = trailing_space_lost (codes "A") (codes "v ") refl refl refl
