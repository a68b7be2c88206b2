-- ===== src/Xray/Document.antt =====
-- internal/xray/config.go: the codec of the whole config.
use cf_vpn.Prelude.{
  true, false, List, [], ◌∷◌, Option, none, some, ◌≡◌, refl, ap, ◌∙◌, arith, any, All, All-map, ok,
}
use cf_vpn.Text.{Bytes, codes, equal}
use cf_vpn.Dict.{Dict, put_all}
use cf_vpn.Dict.Equality.{last, lookup-put_all, put_all-IsAscending, delete_all-put_all}
use cf_vpn.Json.{Json, elements, text, of_slice, as_slice-of_slice}
use cf_vpn.Json.Encoded.{is_utf8_json, encoded-eq}
use cf_vpn.Xray.{
  Inbound, inbound_order, marshal_inbound, unmarshal_inbound, inbound_fields, Config,
  top_level_order, config_document, marshal_config, unmarshal_config, config_fields,
}
use cf_vpn.Xray.Codec.{IsExtras}
use cf_vpn.Xray.Stable.{stable_object->>=}

abbrev pub inbound_known : List Bytes
inbound_known = codes "protocol" ∷ codes "settings" ∷ []

abbrev pub IsInbound : Inbound → Type 0
IsInbound i = IsExtras inbound_known i.extras

abbrev inbound_entries_of : Bytes → Option Json → List (Bytes × Json)
inbound_entries_of p none = (codes "protocol", text p) ∷ []
inbound_entries_of p (some j) = (codes "protocol", text p) ∷ (codes "settings", j) ∷ []

only_inbound :
    (p : Bytes) (o : Option Json) (j : Bytes)
    → any (λ k. equal k j) inbound_known ≡ false
    → last j (inbound_entries_of p o) ≡ none
unfolding last
only_inbound p none j h = ground arith
only_inbound p (some v) j h = ground arith

inbound-codec :
    (p : Bytes) (o : Option Json) (x : Dict Json)
    → IsExtras inbound_known x
    → unmarshal_inbound (marshal_inbound (record { protocol = p; settings = o; extras = x }))
      ≡ ok (record { protocol = p; settings = o; extras = x })
unfolding put_all last equal
inbound-codec p none x h =
    stable_object->>= (put_all x (inbound_entries_of p none)) inbound_order inbound_fields
      (put_all-IsAscending x (inbound_entries_of p none) h.ascending)
    ∙ rw (lookup-put_all (codes "protocol") x (inbound_entries_of p none) h.ascending) (
        rw
          (
            lookup-put_all (codes "settings") x (inbound_entries_of p none) h.ascending,
            h.absent.1.0,
          )
          (rw
            (delete_all-put_all inbound_known (inbound_entries_of p none) x h.ascending h.absent
              (only_inbound p none))
            refl))
inbound-codec p (some v) x h =
    stable_object->>= (put_all x (inbound_entries_of p (some v))) inbound_order inbound_fields
      (put_all-IsAscending x (inbound_entries_of p (some v)) h.ascending)
    ∙ rw (lookup-put_all (codes "protocol") x (inbound_entries_of p (some v)) h.ascending) (
        rw (lookup-put_all (codes "settings") x (inbound_entries_of p (some v)) h.ascending) (
          rw
            (delete_all-put_all inbound_known (inbound_entries_of p (some v)) x h.ascending h.absent
              (only_inbound p (some v)))
            refl))

pub record IsConfig (c : Config) : Type 0 where
  pub inbounds : All IsInbound (elements c.inbounds)
  pub extras : IsExtras (codes "inbounds" ∷ []) c.extras

abbrev config_entries_of : Config → List (Bytes × Json)
config_entries_of c = (codes "inbounds", of_slice marshal_inbound c.inbounds) ∷ []

only_config :
    (c : Config) (j : Bytes)
    → any (λ k. equal k j) (codes "inbounds" ∷ []) ≡ false
    → last j (config_entries_of c) ≡ none
unfolding last
only_config c j h = ground arith

document-codec : (c : Config) → IsConfig c → unmarshal_config (config_document c) ≡ ok c
unfolding put_all last equal unmarshal_config
document-codec c h =
    stable_object->>= (put_all c.extras (config_entries_of c)) top_level_order config_fields
      (put_all-IsAscending c.extras (config_entries_of c) h.extras.ascending)
    ∙ rw (lookup-put_all (codes "inbounds") c.extras (config_entries_of c) h.extras.ascending) (
        rw
          (as_slice-of_slice unmarshal_inbound marshal_inbound c.inbounds (
            All-map (λ i v. inbound-codec i.protocol i.settings i.extras v) (elements c.inbounds)
              h.inbounds))
          (rw
            (delete_all-put_all (codes "inbounds" ∷ []) (config_entries_of c) c.extras
              h.extras.ascending h.extras.absent (only_config c))
            refl))

-- A config whose `Extras` maps are in ascending order and hold none of the keys that the program
-- knows at their level, and whose strings and keys are valid UTF-8, is read back from what is
-- written, the unknown keys of every level included.
pub config-codec :
    (c : Config)
    → IsConfig c
    → is_utf8_json (config_document c) ≡ true
    → unmarshal_config (marshal_config c) ≡ ok c
unfolding marshal_config
config-codec c h valid =
    ap unmarshal_config (encoded-eq (config_document c) valid) ∙ document-codec c h
