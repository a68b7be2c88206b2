-- ===== src/Zones/Tests.antt =====
-- A generated host and a picked zone.
use cf_vpn.Prelude.{[], ◌∷◌, List, ◌≡◌, refl, ok, err, false}
use cf_vpn.Text.{codes, equal}
use cf_vpn.Zones.{Zone, generate_host, generate_host_with, pick_zone, short_read}
use cf_vpn.Zones.Pick.{IsIn, pick_zone-IsIn}

generate_golden :
    generate_host (7 ∷ 0 ∷ 255 ∷ 26 ∷ 161 ∷ []) (codes "rwl.one")
    ≡ ok (codes "assets-00ff1aa1.rwl.one")
unfolding generate_host_with
generate_golden = refl

generate_short : generate_host (7 ∷ 0 ∷ []) (codes "rwl.one") ≡ err short_read
unfolding generate_host_with
generate_short = refl

abbrev pool : List Zone
pool =
    (record { name = codes "a.dev"; cf_zone_id = codes "1" })
    ∷ (record { name = codes "b.dev"; cf_zone_id = codes "2" })
    ∷ []

pick_golden :
    pick_zone (5 ∷ []) pool (codes "a.dev")
    ≡ ok (record { name = codes "b.dev"; cf_zone_id = codes "2" })
unfolding pick_zone equal
pick_golden = refl

pick_zone-IsIn_example :
    (z : Zone) × (pick_zone (5 ∷ []) pool (codes "a.dev") ≡ ok z)
    × IsIn z pool
    × (equal z.name (codes "a.dev") ≡ false)
unfolding equal
pick_zone-IsIn_example = pick_zone-IsIn 5 [] pool (codes "a.dev") refl
