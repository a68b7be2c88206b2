-- ===== src/Xray/Codec.antt =====
-- internal/xray/config.go: the codec of a client and of the vless settings.
use cf_vpn.Prelude.{false, List, [], ◌∷◌, none, ◌≡◌, refl, ◌∙◌, arith, any, All, All-map, ok}
use cf_vpn.Text.{Bytes, codes, equal}
use cf_vpn.Text.Order.{IsAscending}
use cf_vpn.Dict.{Dict, key_of, lookup, put_all}
use cf_vpn.Dict.Equality.{last, lookup-put_all, put_all-IsAscending, delete_all-put_all}
use cf_vpn.Json.{Json, elements, text, of_slice, as_slice-of_slice}
use cf_vpn.Xray.{
  Client, client_order, client_fields, settings_fields, marshal_client, unmarshal_client, Settings,
  settings_order, marshal_settings, unmarshal_settings,
}
use cf_vpn.Xray.Stable.{stable_object->>=}

-- The fields beside the known ones: a map that holds none of these.
pub record IsExtras (known : List Bytes) (x : Dict Json) : Type 0 where
  pub ascending : IsAscending key_of x
  pub absent : All (λ k. lookup k x ≡ none) known

abbrev pub IsClient : Client → Type 0
IsClient c = IsExtras client_order c.extras

-- The known fields, in the order in which they are merged in.
abbrev client_entries_of : Bytes → Bytes → Bytes → List (Bytes × Json)
client_entries_of i e [] = (codes "id", text i) ∷ (codes "email", text e) ∷ []
client_entries_of i e (c ∷ f) =
    (codes "id", text i) ∷ (codes "email", text e) ∷ (codes "flow", text (c ∷ f)) ∷ []

only_client :
    (i e f : Bytes) (j : Bytes)
    → any (λ k. equal k j) client_order ≡ false
    → last j (client_entries_of i e f) ≡ none
unfolding last
only_client i e [] j h = ground arith
only_client i e (c ∷ f) j h = ground arith

client-codec :
    (i e f : Bytes) (x : Dict Json)
    → IsExtras client_order x
    → unmarshal_client (marshal_client (record { id = i; email = e; flow = f; extras = x }))
      ≡ ok (record { id = i; email = e; flow = f; extras = x })
unfolding put_all last equal
client-codec i e [] x h =
    stable_object->>= (put_all x (client_entries_of i e [])) client_order client_fields
      (put_all-IsAscending x (client_entries_of i e []) h.ascending)
    ∙ rw (lookup-put_all (codes "id") x (client_entries_of i e []) h.ascending) (
        rw (lookup-put_all (codes "email") x (client_entries_of i e []) h.ascending) (
          rw
            (lookup-put_all (codes "flow") x (client_entries_of i e []) h.ascending, h.absent.1.1.0)
            (rw
              (delete_all-put_all client_order (client_entries_of i e []) x h.ascending h.absent
                (only_client i e []))
              refl)))
client-codec i e (f ∷ fs) x h =
    stable_object->>= (put_all x (client_entries_of i e (f ∷ fs))) client_order client_fields
      (put_all-IsAscending x (client_entries_of i e (f ∷ fs)) h.ascending)
    ∙ rw (lookup-put_all (codes "id") x (client_entries_of i e (f ∷ fs)) h.ascending) (
        rw (lookup-put_all (codes "email") x (client_entries_of i e (f ∷ fs)) h.ascending) (
          rw (lookup-put_all (codes "flow") x (client_entries_of i e (f ∷ fs)) h.ascending) (
            rw
              (delete_all-put_all client_order (client_entries_of i e (f ∷ fs)) x h.ascending
                h.absent (only_client i e (f ∷ fs)))
              refl)))

pub record IsSettings (s : Settings) : Type 0 where
  pub clients : All IsClient (elements s.clients)
  pub extras : IsExtras settings_order s.extras

abbrev settings_entries_of : Settings → List (Bytes × Json)
settings_entries_of s =
    (codes "clients", of_slice marshal_client s.clients)
    ∷ (codes "decryption", text s.decryption)
    ∷ []

only_settings :
    (s : Settings) (j : Bytes)
    → any (λ k. equal k j) settings_order ≡ false
    → last j (settings_entries_of s) ≡ none
unfolding last
only_settings s j h = ground arith

-- Loading saved settings gives them back.
pub settings-codec : (s : Settings) → IsSettings s → unmarshal_settings (marshal_settings s) ≡ ok s
unfolding put_all last equal unmarshal_settings marshal_settings
settings-codec s h =
    let up = put_all-IsAscending s.extras (settings_entries_of s) h.extras.ascending in
    stable_object->>= (put_all s.extras (settings_entries_of s)) settings_order settings_fields up
    ∙ rw (lookup-put_all (codes "clients") s.extras (settings_entries_of s) h.extras.ascending) (
        rw
          (as_slice-of_slice unmarshal_client marshal_client s.clients (
            All-map (λ c v. client-codec c.id c.email c.flow c.extras v) (elements s.clients)
              h.clients))
          (rw
            (lookup-put_all (codes "decryption") s.extras (settings_entries_of s)
              h.extras.ascending)
            (rw
              (delete_all-put_all settings_order (settings_entries_of s) s.extras h.extras.ascending
                h.extras.absent (only_settings s))
              refl)))
