-- ===== src/Dict.antt =====
-- A Go map with string keys: the list of its entries in ascending order of their keys.
pub mod Laws
pub mod Equality
use cf_vpn.Prelude.{Bool, true, false, List, [], ◌∷◌, Option, none, some, if◌then◌else◌}
use cf_vpn.Text.{Bytes, equal}
use cf_vpn.Text.Order.{less}

abbrev pub Dict : Type 0 → Type 0
Dict A = List (Bytes × A)

module _ {A : Type 0} where
  abbrev pub key_of : Bytes × A → Bytes
  key_of e = e.0

  -- `v, ok := m[k]`
  unfoldable pub lookup : Bytes → Dict A → Option A
  lookup k [] = none
  lookup k ((j, v) ∷ m) = if equal j k then some v else lookup k m

  -- `m[k] = v`
  unfoldable pub put : Bytes → A → Dict A → Dict A
  put k v [] = (k, v) ∷ []
  put k v ((j, w) ∷ m) =
      let rest = put k v m in
      if equal j k then (k, v) ∷ m else if less k j then (k, v) ∷ (j, w) ∷ m else (j, w) ∷ rest

  -- `delete(m, k)`
  unfoldable pub delete : Bytes → Dict A → Dict A
  delete k [] = []
  delete k ((j, w) ∷ m) = if equal j k then m else (j, w) ∷ delete k m

  -- `m[k] = v` for each entry of a list, from the front.
  unfoldable pub put_all : Dict A → List (Bytes × A) → Dict A
  put_all m [] = m
  put_all m ((k, v) ∷ l) = put_all (put k v m) l

  abbrev pub delete_all : Dict A → List Bytes → Dict A
  delete_all m [] = m
  delete_all m (k ∷ ks) = delete_all (delete k m) ks
