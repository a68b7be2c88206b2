-- ===== src/Validate/Id.antt =====
-- internal/validate/validate.go: the languages of `UUID` and `HexID32`.
use cf_vpn.Prelude.{ℕ, true, [], ◌∷◌, ◌++◌, ◌≡◌, refl, ap, ◌∙◌, ◌↔◌, arith, length, all, ok, ==_iff}
use cf_vpn.Text.{Bytes}
use cf_vpn.Regex.{matches, is_hex}
use cf_vpn.Regex.Language.{Lang, matches→Lang, Lang→matches}
use cf_vpn.Validate.{uuid_re, hex_id32_re, is_lower_hex, uuid, hex_id32, hex_run, dash}

-- `n` hexadecimal digits, in either case.
pub record IsHexRun (n : ℕ) (s : Bytes) : Type 0 where
  pub digits : all is_hex s ≡ true
  pub size : length s ≡ n

-- 8-4-4-4-12 hexadecimal digits.
pub record IsUuid (s : Bytes) : Type 0 where
  pub a : Bytes
  pub b : Bytes
  pub c : Bytes
  pub d : Bytes
  pub e : Bytes
  pub whole : s ≡ a ++ (b'-' ∷ b ++ (b'-' ∷ c ++ (b'-' ∷ d ++ (b'-' ∷ e))))
  pub a_run : IsHexRun 8 a
  pub b_run : IsHexRun 4 b
  pub c_run : IsHexRun 4 c
  pub d_run : IsHexRun 4 d
  pub e_run : IsHexRun 12 e

uuid_iff : (s : Bytes) → (uuid s ≡ ok tt) ↔ (matches uuid_re s ≡ true)
unfolding uuid
uuid_iff s = (λ h. ground arith, λ h. ground arith)

hex_id32_iff : (s : Bytes) → (hex_id32 s ≡ ok tt) ↔ (matches hex_id32_re s ≡ true)
unfolding hex_id32
hex_id32_iff s = (λ h. ground arith, λ h. ground arith)

run→IsHexRun : (n : ℕ) (s : Bytes) → Lang (hex_run n) s → IsHexRun n s
run→IsHexRun n s (h, (l, u)) = record { digits = h; size = omega arith }

IsHexRun→run : (n : ℕ) (s : Bytes) → IsHexRun n s → Lang (hex_run n) s
IsHexRun→run n s h = (h.digits, (omega (arith, h.size), omega (arith, h.size)))

-- A dash in front of the rest.
dash_lem : (x y r : Bytes) → Lang dash x → r ≡ x ++ y → r ≡ b'-' ∷ y
dash_lem x y r (c, hc, e) h = h ∙ ap (λ u. u ++ y) e ∙ ap (λ n. n ∷ y) ((==_iff c b'-').0 hc)

Lang→IsUuid : (s : Bytes) → Lang uuid_re s → IsUuid s
Lang→IsUuid s
      (
        a,
        r1,
        e1,
        ha,
        (
          x1,
          r2,
          e2,
          h1,
          (
            b,
            r3,
            e3,
            hb,
            (
              x2,
              r4,
              e4,
              h2,
              (c, r5, e5, hc, (x3, r6, e6, h3, (d, r7, e7, hd, (x4, e, e8, h4, he)))),
            ),
          ),
        ),
      ) =
    record {
      a = a;
      b = b;
      c = c;
      d = d;
      e = e;
      whole =
          e1
          ∙ ap (◌++◌ a) (
              dash_lem x1 r2 r1 h1 e2
              ∙ ap (λ u. b'-' ∷ u)
                  (e3
                    ∙ ap (◌++◌ b) (
                        dash_lem x2 r4 r3 h2 e4
                        ∙ ap (λ u. b'-' ∷ u)
                            (e5
                              ∙ ap (◌++◌ c) (
                                  dash_lem x3 r6 r5 h3 e6
                                  ∙ ap (λ u. b'-' ∷ u)
                                      (e7 ∙ ap (◌++◌ d) (dash_lem x4 e r7 h4 e8)))))));
      a_run = run→IsHexRun 8 a ha;
      b_run = run→IsHexRun 4 b hb;
      c_run = run→IsHexRun 4 c hc;
      d_run = run→IsHexRun 4 d hd;
      e_run = run→IsHexRun 12 e he;
    }

abbrev dash_text : Lang dash (b'-' ∷ [])
dash_text = (b'-', refl, refl)

IsUuid→Lang : (s : Bytes) → IsUuid s → Lang uuid_re s
IsUuid→Lang s h = (
  h.a,
  _,
  h.whole,
  IsHexRun→run 8 h.a h.a_run,
  (
    b'-' ∷ [],
    _,
    refl,
    dash_text,
    (
      h.b,
      _,
      refl,
      IsHexRun→run 4 h.b h.b_run,
      (
        b'-' ∷ [],
        _,
        refl,
        dash_text,
        (
          h.c,
          _,
          refl,
          IsHexRun→run 4 h.c h.c_run,
          (
            b'-' ∷ [],
            _,
            refl,
            dash_text,
            (
              h.d,
              _,
              refl,
              IsHexRun→run 4 h.d h.d_run,
              (b'-' ∷ [], h.e, refl, dash_text, IsHexRun→run 12 h.e h.e_run),
            ),
          ),
        ),
      ),
    ),
  ),
)

-- `UUID` returns no error exactly for 8-4-4-4-12 hexadecimal digits, and `HexID32` exactly for 32
-- digits of lower case.
pub ids-ok_iff :
    (s : Bytes)
    → ((uuid s ≡ ok tt) ↔ IsUuid s)
      × ((hex_id32 s ≡ ok tt) ↔ ((all is_lower_hex s ≡ true) × (length s ≡ 32)))
ids-ok_iff s = (
  (
    λ h. Lang→IsUuid s (matches→Lang uuid_re s ((uuid_iff s).0 h)),
    λ h. (uuid_iff s).1 (Lang→matches uuid_re s (IsUuid→Lang s h)),
  ),
  (
    λ h. let (al, (l, u)) = matches→Lang hex_id32_re s ((hex_id32_iff s).0 h) in (al, omega arith),
    λ (al, n). (hex_id32_iff s).1 (Lang→matches hex_id32_re s (al, (omega arith, omega arith))),
  ),
)
