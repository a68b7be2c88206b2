-- ===== src/Users/Tests.antt =====
-- A node with two users, and each theorem at it.
use cf_vpn.Prelude.{
  arith, ℕ, zero, suc, true, false, List, [], ◌∷◌, Option, none, some, ◌≡◌, refl, err, all, length,
  ◌/◌, ◌+◌, ◌*◌,
}
use cf_vpn.Text.{Bytes, codes, equal}
use cf_vpn.Text.Order.{less}
use cf_vpn.Text.Trim.{trim_space}
use cf_vpn.Regex.{matches}
use cf_vpn.Dict.{lookup, put, put_all, delete}
use cf_vpn.Json.{Json, as_slice, read_all}
use cf_vpn.Xray.{unmarshal_config, unmarshal_settings}
use cf_vpn.Xray.Accounts.{
  validate_user_name, list_user_names, normalize_email, strip_suffixes, find_in, is_name_byte,
}
use cf_vpn.Node.{Slot, xray_config, World}
use cf_vpn.Node.Apply
use cf_vpn.Templates.Xray.{XrayUser, config_json, cloudflare_inbounds}
use cf_vpn.Users.{Library, Answers, Host, user_limit, run_add_user}
use cf_vpn.Users.Secrets.{
  IsUuid4, generate_uuid_v4, generate_password, generate_uuid_v4-IsUuid4, generate_password_safe,
}
use cf_vpn.Users.Added
use cf_vpn.Users.Removed
use cf_vpn.Users.Revoke.{run_remove_user}

abbrev user : Bytes → XrayUser
user name = record { name = name; uuid = codes "u1" }

abbrev document : List XrayUser → Json
document us = config_json [] (
    cloudflare_inbounds us (codes "a.b")
      (record { xhttp = false; direct_host = []; direct_path = [] }))

-- Every file parses as the document of these users.
abbrev library : List XrayUser → Library
library us = record {
  parse = λ b. some (document us);
  print = λ j. codes "new";
  subscription = λ ls. codes "sub";
  texts = record { to_upper = λ s. s; is_plain_ipv6 = λ s. false };
}

abbrev world : World
world = record {
  unreadable = λ log f. false;
  write_error = λ log f b. none;
  works = λ log c. true;
  issued = λ log host. (none, none);
}

abbrev zeros : ℕ → Bytes
zeros zero = []
zeros (suc n) = 0 ∷ zeros n

abbrev answers : Answers
answers = record {
  world = world;
  locks = λ log. true;
  random = λ log n. some (zeros n);
  write_error = λ log name content. none;
  removes = λ log name. true;
}

abbrev files : Slot → Option Bytes
files xray_config = some (codes "old")
files _ = none

abbrev host : Host
host = record { node = record { files = files; calls = [] }; subscriptions = [] }

abbrev two : List XrayUser
two = user (codes "alice") ∷ user (codes "bob") ∷ []

abbrev five : List XrayUser
five =
    user (codes "a")
    ∷ user (codes "b")
    ∷ user (codes "c")
    ∷ user (codes "d")
    ∷ user (codes "e")
    ∷ []

limit_reached :
    run_add_user answers (library five) (codes "eve") (codes "a.b") host ≡ (err user_limit, host)
unfolding run_add_user validate_user_name matches config_json unmarshal_config as_slice read_all
    put_all put less equal lookup delete list_user_names find_in unmarshal_settings normalize_email
    strip_suffixes trim_space
limit_reached = refl

stable : Added.IsStable world host.node
stable = record { readable = λ log. refl; restores = λ log b e. refl }

run_add_user-Ended_example :
    Added.Ended answers
      (library two)
      (codes "eve")
      (codes "a.b")
      host
      (run_add_user answers (library two) (codes "eve") (codes "a.b") host)
run_add_user-Ended_example =
    Added.run_add_user-Ended answers (library two) (codes "eve") (codes "a.b") host stable

run_remove_user-Ended_example :
    Removed.Ended answers
      (library two)
      (codes "bob")
      host
      (run_remove_user answers (library two) (codes "bob") host)
run_remove_user-Ended_example =
    Removed.run_remove_user-Ended answers (library two) (codes "bob") host stable

abbrev delivered : Bytes
delivered = 255 ∷ 7 ∷ []

generate_uuid_v4-IsUuid4_example : IsUuid4 (generate_uuid_v4 delivered)
generate_uuid_v4-IsUuid4_example =
    generate_uuid_v4-IsUuid4 delivered (omega arith, (omega arith, tt))

generate_password_safe_example :
    (all is_name_byte (generate_password delivered) ≡ true)
    × (length (generate_password delivered) ≡ (8 * length delivered + 5) / 6)
generate_password_safe_example = generate_password_safe delivered

golden_uuid : generate_uuid_v4 (zeros 16) ≡ codes "00000000-0000-4000-8000-000000000000"
unfolding generate_uuid_v4
golden_uuid = refl

golden_password : generate_password (codes "Man") ≡ codes "TWFu"
unfolding generate_password
golden_password = refl

apply_xray_config-Restores_example :
    Apply.Outcome host.node
      (codes "new")
      (Apply.Leaves host.node)
      (Apply.apply_xray_config world (codes "new") host.node)
apply_xray_config-Restores_example =
    Apply.apply_xray_config-Restores world (codes "new") host.node (codes "old")
      (record { there = refl; readable = refl; restores = λ log. refl })

apply_xray_config-Outcome_example :
    Apply.Outcome host.node
      (codes "new")
      (Apply.Either host.node (codes "new"))
      (Apply.apply_xray_config world (codes "new") host.node)
apply_xray_config-Outcome_example = Apply.apply_xray_config-Outcome world (codes "new") host.node
