-- ===== src/Agent/Guard.antt =====
-- cmd/cfvpn-agent/main.go: `withAuth` around every route.
use cf_vpn.Prelude.{
  true, ◌==◌, [], ◌∷◌, ◌++◌, ◌≡◌, refl, ap, sym, ◌∙◌, ◌⊎◌, inl, inr, Bool-cases, drop, length,
  ==_iff, &&_parts, if◌then◌else◌,
}
use cf_vpn.Text.{Bytes, codes, equal, equal_iff, has_prefix}
use cf_vpn.Text.Trim.{trim_space}
use cf_vpn.Node.{Node}
use cf_vpn.Agent.{Request, Outside, bearer, trim_prefix, is_authorized, error_reply}
use cf_vpn.Agent.Handlers.{Answer, serve}

has_prefix-drop : (s p : Bytes) → has_prefix s p ≡ true → s ≡ p ++ drop (length p) s
unfolding has_prefix
has_prefix-drop s [] h = refl
has_prefix-drop [] (c ∷ p) h = absurd (cc h)
has_prefix-drop (d ∷ s) (c ∷ p) h =
    let (same, rest) = &&_parts (d == c) (has_prefix s p) h in
    ap (λ n. n ∷ s) ((==_iff d c).0 same) ∙ ap (◌∷◌ c) (has_prefix-drop s p rest)

authorized_lem :
    (secret : Bytes) (r : Request)
    → is_authorized secret r ≡ true
    → r.authorization ≡ bearer ++ trim_space secret
unfolding is_authorized
authorized_lem secret r h =
    let (prefixed, same) =
      &&_parts (has_prefix r.authorization bearer)
        (equal (trim_prefix bearer r.authorization) (trim_space secret)) h in
    has_prefix-drop r.authorization bearer prefixed
    ∙ ap (λ u. bearer ++ u)
        ((equal_iff _ (trim_space secret)).0 (
          ap
            (λ b.
              equal (if b then drop (length bearer) r.authorization else r.authorization)
                (trim_space secret))
            (sym prefixed)
          ∙ same))

-- A request leaves the node as it is and is answered with 401, or its Authorization header is
-- `Bearer ` followed by the secret without the spaces around it.
pub serve-authorized :
    (o : Outside) (secret : Bytes) (other : Request → Node → Answer) (r : Request) (s : Node)
    → (serve o secret other r s ≡ (error_reply 401 (codes "unauthorized"), s))
      ⊎ (r.authorization ≡ bearer ++ trim_space secret)
unfolding serve
serve-authorized o secret other r s = elim (Bool-cases (is_authorized secret r)) [
  | inl ok_ ↦ inr (authorized_lem secret r ok_)
  | inr refused ↦ inl (rw refused refl)
]
