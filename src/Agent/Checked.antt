-- ===== src/Agent/Checked.antt =====
-- cmd/cfvpn-agent/main.go: what `validateRotateRequest` lets through.
use cf_vpn.Prelude.{
  true, [], ◌∷◌, List, length, all, All, ◌≡◌, refl, subst, ◌⊎◌, inl, inr, ok, >>=-eq-ok,
  ok-injective,
}
use cf_vpn.Text.{Bytes}
use cf_vpn.Text.Trim.{trim_space}
use cf_vpn.Validate.{Check, is_lower_hex, hostname, hex_id32}
use cf_vpn.Validate.Host.{IsHostname, hostname-ok_iff}
use cf_vpn.Validate.Id.{ids-ok_iff}
use cf_vpn.Agent.{
  RotateRequest, check_present, check_all_present, trimmed_request, validate_rotate_request,
}

abbrev pub IsZoneId : Bytes → Type 0
IsZoneId s = (all is_lower_hex s ≡ true) × (length s ≡ 32)

-- Every host is a hostname, every zone id is 32 hexadecimal digits between spaces; all but the new
-- host may be empty.
pub record IsChecked (r : RotateRequest) : Type 0 where
  pub new_host : IsHostname r.new_host
  pub hosts : All (λ h. (h ≡ []) ⊎ IsHostname h) (r.old_host ∷ r.new_hy2_host ∷ r.old_hy2_host ∷ [])
  pub ids :
      All
        (λ i. (trim_space i ≡ []) ⊎ IsZoneId (trim_space i))
        (r.new_zone_id ∷ r.old_zone_id ∷ r.new_hy2_zone_id ∷ r.old_hy2_zone_id ∷ [])

present_cases :
    (check : Bytes → Check) (v : Bytes)
    → check_present check v ≡ ok tt
    → (v ≡ []) ⊎ (check v ≡ ok tt)
present_cases check [] h = inl refl
present_cases check (c ∷ v) h = inr h

check_all_present-All :
    (check : Bytes → Check) (vs : List Bytes)
    → check_all_present check vs ≡ ok tt
    → All (λ v. (v ≡ []) ⊎ (check v ≡ ok tt)) vs
check_all_present-All check [] h = tt
check_all_present-All check (v ∷ vs) h =
    let (u, first, rest) = >>=-eq-ok (check_present check v) _ h in
    (present_cases check v first, check_all_present-All check vs rest)

host_or_empty : (h : Bytes) → (h ≡ []) ⊎ (hostname h ≡ ok tt) → (h ≡ []) ⊎ IsHostname h
host_or_empty h (inl e) = inl e
host_or_empty h (inr e) = inr ((hostname-ok_iff h).0 e)

id_or_empty : (i : Bytes) → (i ≡ []) ⊎ (hex_id32 i ≡ ok tt) → (i ≡ []) ⊎ IsZoneId i
id_or_empty i (inl e) = inl e
id_or_empty i (inr e) = inr (((ids-ok_iff i).1).0 e)

-- When `validateRotateRequest` returns no error, the new host is a hostname, each other host is empty
-- or a hostname, and each zone id is, between spaces, empty or 32 hexadecimal digits of lower case.
pub validate_rotate_request-IsChecked :
    (req r : RotateRequest) → validate_rotate_request req ≡ ok r → IsChecked r
unfolding validate_rotate_request
validate_rotate_request-IsChecked req r h =
    let t = trimmed_request req in
    let (u1, checks, out) = >>=-eq-ok _ _ h in
    let others = t.old_host ∷ t.new_hy2_host ∷ t.old_hy2_host ∷ [] in
    let zones =
      trim_space t.new_zone_id
      ∷ trim_space t.old_zone_id
      ∷ trim_space t.new_hy2_zone_id
      ∷ trim_space t.old_hy2_zone_id
      ∷ [] in
    let (u2, host, rest) = >>=-eq-ok (hostname t.new_host) _ checks in
    let (u3, hosts, ids) = >>=-eq-ok (check_all_present hostname others) _ rest in
    let (a, (b, (c, x))) = check_all_present-All hostname others hosts in
    let (i, (j, (k, (l, y)))) = check_all_present-All hex_id32 zones ids in
    subst IsChecked (ok-injective out) (record {
      new_host = (hostname-ok_iff t.new_host).0 host;
      hosts = (host_or_empty _ a, (host_or_empty _ b, (host_or_empty _ c, tt)));
      ids = (id_or_empty _ i, (id_or_empty _ j, (id_or_empty _ k, (id_or_empty _ l, tt))));
    })
