-- ===== src/Zones/Pick.antt =====
-- Which zones `PickZone` returns.
use cf_vpn.Prelude.{
  ℕ, zero, suc, ◌%◌, ◌<◌, Bool, true, false, not, List, [], ◌∷◌, ◌++◌, ◌≡◌, refl, subst, inl, inr,
  arith, Bool-cases, filter, any, append_assoc, ok, All, not-true, length,
}
use cf_vpn.Text.{Bytes, equal}
use cf_vpn.Zones.{Zone, element, pick_zone}

-- An index below the length is in range.
All-element :
    (P : Zone → Type 0) (l : List Zone) (i : ℕ)
    → All P l
    → i < length l
    → (z : Zone) × (element l i ≡ ok z) × P z
All-element P [] i h low = absurd (omega (arith, low))
All-element P (z ∷ zs) zero h low = (z, refl, h.0)
All-element P (z ∷ zs) (suc i) h low = All-element P zs i h.1 (omega (arith, low))

mod_lt : (b n : ℕ) → b % suc n < suc n
mod_lt b n = omega arith

-- The zone stands in the list.
abbrev pub IsIn : Zone → List Zone → Type 0
IsIn z l = (front : List Zone) × (back : List Zone) × (l ≡ front ++ z ∷ back)

All-IsIn : (front l : List Zone) → All (λ z. IsIn z (front ++ l)) l
All-IsIn front [] = tt
All-IsIn front (z ∷ l) = (
  (front, l, refl),
  subst (λ u. All (λ y. IsIn y u) l) (append_assoc front (z ∷ []) l) (All-IsIn (front ++ z ∷ []) l),
)

All-filter :
    (P : Zone → Type 0) (p : Zone → Bool) (l : List Zone)
    → All P l
    → All (λ z. P z × (p z ≡ true)) (filter p l)
All-filter P p [] h = tt
All-filter P p (z ∷ l) h = elim (Bool-cases (p z)) [
  | inl keep ↦ rw keep ((h.0, keep), All-filter P p l h.1)
  | inr skip ↦ rw skip (All-filter P p l h.1)
]

any-filter :
    (p : Zone → Bool) (l : List Zone)
    → any p l ≡ true
    → (z : Zone) × (zs : List Zone) × (filter p l ≡ z ∷ zs)
any-filter p [] h = absurd (cc h)
any-filter p (z ∷ l) h = elim (Bool-cases (p z)) [
  | inl keep ↦ (z, filter p l, rw keep refl)
  | inr skip ↦ let (y, ys, e) = any-filter p l (ground arith) in (y, ys, rw skip e)
]

-- With a random byte and a candidate of another name than the excluded one, `PickZone` returns a zone,
-- so that its index is in range, and the zone is a candidate and has another name than the
-- excluded one.
pub pick_zone-IsIn :
    (b : ℕ) (rest : Bytes) (candidates : List Zone) (excluded : Bytes)
    → any (λ z. not (equal z.name excluded)) candidates ≡ true
    → (z : Zone) × (pick_zone (b ∷ rest) candidates excluded ≡ ok z)
      × IsIn z candidates
      × (equal z.name excluded ≡ false)
unfolding pick_zone
pick_zone-IsIn b rest candidates excluded h =
    let p : Zone → Bool = λ z. not (equal z.name excluded) in
    let (z, zs, e) = any-filter (λ z. not (equal z.name excluded)) candidates h in
    let good =
      All-filter (λ z. IsIn z candidates) (λ z. not (equal z.name excluded)) candidates
        (All-IsIn [] candidates) in
    let (picked, there, one) =
      All-element (λ z. IsIn z candidates × (not (equal z.name excluded) ≡ true)) (z ∷ zs)
        (b % length (z ∷ zs))
        (subst (All (λ z. IsIn z candidates × (not (equal z.name excluded) ≡ true))) e good)
        (mod_lt b (length zs)) in
    (picked, rw e there, one.0, not-true _ one.1)
