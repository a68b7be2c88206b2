-- ===== src/Json.antt =====
-- encoding/json, as far as internal/xray/config.go relies on it: the values that documents denote,
-- and `Unmarshal` into a string, a slice and a map. The byte form of a value is the package's own.
pub mod Encoded
pub mod Reread
use cf_vpn.Prelude.{
  Bool, List, [], ◌∷◌, Option, none, some, ◌≡◌, refl, ap, Result, ok, err, ◌>>=◌, All,
}
use cf_vpn.Text.{Bytes}
use cf_vpn.Dict.{Dict, put_all}

mutual
  pub data Json : Type 0 where
    null : Json
    flag : Bool → Json
    number : Bytes → Json
    text : Bytes → Json
    array : Items → Json
    object : Members → Json

  pub data Items : Type 0 where
    no_items : Items
    item : Json → Items → Items

  pub data Members : Type 0 where
    no_members : Members
    member : Bytes → Json → Members → Members

abbrev pub items : Items → List Json
items no_items = []
items (item j js) = j ∷ items js

abbrev pub array_of : List Json → Items
array_of [] = no_items
array_of (j ∷ js) = item j (array_of js)

abbrev pub members : Members → List (Bytes × Json)
members no_members = []
members (member k j ms) = (k, j) ∷ members ms

abbrev pub object_of : List (Bytes × Json) → Members
object_of [] = no_members
object_of ((k, j) ∷ ms) = member k j (object_of ms)

pub items-array_of : (js : List Json) → items (array_of js) ≡ js
items-array_of [] = refl
items-array_of (j ∷ js) = ap (◌∷◌ j) (items-array_of js)

pub members-object_of : (ms : List (Bytes × Json)) → members (object_of ms) ≡ ms
members-object_of [] = refl
members-object_of ((k, j) ∷ ms) = ap (◌∷◌ (k, j)) (members-object_of ms)

-- A Go slice: `none` is nil.
abbrev pub Slice : Type 0 → Type 0
Slice A = Option (List A)

module _ {A : Type 0} where
  abbrev pub elements : Slice A → List A
  elements none = []
  elements (some xs) = xs

-- `*json.UnmarshalTypeError`
pub data JsonError : Type 0 where
  wrong_type : JsonError

abbrev pub Read : Type 0 → Type 0
Read A = Result JsonError A

-- Into a variable that holds the zero value: null leaves it alone.
abbrev pub as_text : Json → Read Bytes
as_text null = ok []
as_text (text s) = ok s
as_text _ = err wrong_type

-- Into a `map[string]json.RawMessage`: the last entry with a key counts.
abbrev pub as_dict : Json → Read (Dict Json)
as_dict null = ok []
as_dict (object ms) = ok (put_all [] (members ms))
as_dict _ = err wrong_type

module _ {A : Type 0} (read : Json → Read A) where
  unfoldable pub read_all : List Json → Read (List A)
  read_all [] = ok []
  read_all (j ∷ js) = read j >>= λ a. read_all js >>= λ rest. ok (a ∷ rest)

  unfoldable pub as_slice : Json → Read (Slice A)
  unfolding read_all
  as_slice null = ok none
  as_slice (array js) = read_all (items js) >>= λ xs. ok (some xs)
  as_slice _ = err wrong_type

module _ {A : Type 0} (write : A → Json) where
  -- `json.Marshal` of a slice.
  abbrev pub written : List A → List Json
  written [] = []
  written (a ∷ xs) = write a ∷ written xs

  abbrev pub of_slice : Slice A → Json
  of_slice none = null
  of_slice (some xs) = array (array_of (written xs))

module _ {A : Type 0} (read : Json → Read A) (write : A → Json) where
  read_all-written :
      (xs : List A) → All (λ a. read (write a) ≡ ok a) xs → read_all read (written write xs) ≡ ok xs
  unfolding read_all
  read_all-written [] h = refl
  read_all-written (a ∷ xs) h = rw h.0 (rw (read_all-written xs h.1) refl)

  -- A slice is read back, nil as nil.
  pub as_slice-of_slice :
      (xs : Slice A)
      → All (λ a. read (write a) ≡ ok a) (elements xs)
      → as_slice read (of_slice write xs) ≡ ok xs
  unfolding as_slice
  as_slice-of_slice none h = refl
  as_slice-of_slice (some xs) h =
      rw (items-array_of (written write xs)) (rw (read_all-written xs h) refl)
