-- ===== src/Json/Encoded.antt =====
-- encoding/json's `Marshal` of strings and keys: what is not valid UTF-8 in them is replaced.
use cf_vpn.Prelude.{Bool, true, ◌&&◌, ◌≡◌, refl, ap, &&_parts}
use mathlib.Core.Path.{ap₂}
use cf_vpn.Text.Utf8.{is_utf8, to_utf8, to_utf8_from, to_utf8_from-eq}
use cf_vpn.Json.{
  Json, null, flag, number, text, array, object, Items, no_items, item, Members, no_members, member,
}

-- The document that the bytes written for a value denote.
unfoldable mutual
  unfolding to_utf8_from

  pub encoded : Json → Json
  encoded null = null
  encoded (flag b) = flag b
  encoded (number s) = number s
  encoded (text s) = text (to_utf8 s)
  encoded (array is) = array (encoded_items is)
  encoded (object ms) = object (encoded_members ms)

  pub encoded_items : Items → Items
  encoded_items no_items = no_items
  encoded_items (item j is) = item (encoded j) (encoded_items is)

  pub encoded_members : Members → Members
  encoded_members no_members = no_members
  encoded_members (member k j ms) = member (to_utf8 k) (encoded j) (encoded_members ms)

-- Every string and every key in it is valid UTF-8.
unfoldable mutual
  pub is_utf8_json : Json → Bool
  is_utf8_json null = true
  is_utf8_json (flag b) = true
  is_utf8_json (number s) = true
  is_utf8_json (text s) = is_utf8 s
  is_utf8_json (array is) = is_utf8_items is
  is_utf8_json (object ms) = is_utf8_members ms

  pub is_utf8_items : Items → Bool
  is_utf8_items no_items = true
  is_utf8_items (item j is) = is_utf8_json j && is_utf8_items is

  pub is_utf8_members : Members → Bool
  is_utf8_members no_members = true
  is_utf8_members (member k j ms) = is_utf8 k && (is_utf8_json j && is_utf8_members ms)

mutual
  unfolding encoded encoded_items encoded_members is_utf8_json is_utf8_items is_utf8_members

  -- Such a document is written as it is.
  pub encoded-eq : (j : Json) → is_utf8_json j ≡ true → encoded j ≡ j
  encoded-eq null h = refl
  encoded-eq (flag b) h = refl
  encoded-eq (number s) h = refl
  encoded-eq (text s) h = ap text (to_utf8_from-eq 0 s h)
  encoded-eq (array is) h = ap array (encoded_items-eq is h)
  encoded-eq (object ms) h = ap object (encoded_members-eq ms h)

  encoded_items-eq : (is : Items) → is_utf8_items is ≡ true → encoded_items is ≡ is
  encoded_items-eq no_items h = refl
  encoded_items-eq (item j is) h =
      let (hj, hs) = &&_parts (is_utf8_json j) (is_utf8_items is) h in
      ap₂ item (encoded-eq j hj) (encoded_items-eq is hs)

  encoded_members-eq : (ms : Members) → is_utf8_members ms ≡ true → encoded_members ms ≡ ms
  encoded_members-eq no_members h = refl
  encoded_members-eq (member k j ms) h =
      let (hk, hr) = &&_parts (is_utf8 k) (is_utf8_json j && is_utf8_members ms) h in
      let (hj, hs) = &&_parts (is_utf8_json j) (is_utf8_members ms) hr in
      rw (to_utf8_from-eq 0 k hk) (ap₂ (member k) (encoded-eq j hj) (encoded_members-eq ms hs))
