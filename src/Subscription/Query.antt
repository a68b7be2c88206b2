-- ===== src/Subscription/Query.antt =====
-- A reader of the URIs that internal/subscription/subscription.go builds: scheme, query,
-- fragment.
use cf_vpn.Prelude.{
  Bool, true, not, ◌&&◌, List, [], ◌∷◌, ◌++◌, Option, none, some, map, ◌≡◌, refl, ap, ◌∙◌, arith,
  ◌==◌, all-append, All,
}
use cf_vpn.Text.{Bytes}
use cf_vpn.Text.Split.{
  split_on, join_with, join_with-cons, split_on-join_with, cut, cut-append, free_of,
}
use cf_vpn.Subscription.{is_unreserved, encode}
use cf_vpn.Subscription.Encode.{
  IsBytes, decode, decode-encode, decode-encode_append, decode-free, free_of-encode,
}

abbrev pub Field : Type 0
Field = Bytes × Bytes

-- The four parts of a URI behind its scheme.
pub record Uri : Type 0 where
  pub user : Bytes
  pub authority : Bytes
  pub query : List Field
  pub fragment : Bytes

abbrev pub read_field : Option Field → Field
read_field none = ([], [])
read_field (some (k, v)) = (k, decode v)

abbrev read_query : Bytes → Bytes → Option (Bytes × Bytes) → Option Uri
read_query user authority none = none
read_query user authority (some (query, fragment)) = some (record {
  user = user;
  authority = authority;
  query = map (λ f. read_field (cut b'=' f)) (split_on b'&' query);
  fragment = decode fragment;
})

abbrev read_authority : Bytes → Option (Bytes × Bytes) → Option Uri
read_authority user none = none
read_authority user (some (authority, r)) = read_query user authority (cut b'#' r)

abbrev read_user : Option (Bytes × Bytes) → Option Uri
read_user none = none
read_user (some (user, r)) = read_authority user (cut b'?' r)

-- The user before `@`, the authority before `?`, the parameters between `&`, the fragment behind
-- `#`.
unfoldable pub read_uri : Bytes → Option Uri
read_uri s = read_user (cut b'@' s)

abbrev pub write_field : Field → Bytes
write_field f = f.0 ++ (b'=' ∷ encode f.1)

abbrev pub write_uri : Bytes → Bytes → List Field → Bytes → Bytes
write_uri user authority fields fragment =
    user
    ++ (b'@' ∷ authority
        ++ (b'?' ∷ join_with (b'&' ∷ []) (map write_field fields) ++ (b'#' ∷ fragment)))

-- A parameter's name holds no separator; its value is any text of bytes.
pub record IsField (f : Field) : Type 0 where
  pub plain : (free_of b'=' f.0 && free_of b'&' f.0 && free_of b'#' f.0) ≡ true
  pub bytes : IsBytes f.1

and_three : (a b c : Bool) → (a && b && c) ≡ true → (a ≡ true) × (b ≡ true) × (c ≡ true)
and_three a b c h = (ground arith, ground arith, ground arith)

module _ (f : Field) (h : IsField f) where
  read-write_field : read_field (cut b'=' (write_field f)) ≡ f
  read-write_field =
      let (eq, _, _) = and_three (free_of b'=' f.0) (free_of b'&' f.0) (free_of b'#' f.0) h.plain in
      rw (cut-append b'=' f.0 (encode f.1) eq) (rw (decode-encode f.1 h.bytes))

  free_of-write_field :
      (free_of b'&' (write_field f) ≡ true) × (free_of b'#' (write_field f) ≡ true)
  free_of-write_field =
      let (_, amp, hash) =
        and_three (free_of b'=' f.0) (free_of b'&' f.0) (free_of b'#' f.0) h.plain in
      (
        all-append (λ b. not (b == b'&')) f.0 (b'=' ∷ encode f.1)
            ∙ rw amp (free_of-encode b'&' f.1 (unfold is_unreserved in refl) h.bytes),
        all-append (λ b. not (b == b'#')) f.0 (b'=' ∷ encode f.1)
            ∙ rw hash (free_of-encode b'#' f.1 (unfold is_unreserved in refl) h.bytes),
      )

free_of-join :
    (f : Field) (fs : List Field)
    → All IsField (f ∷ fs)
    → free_of b'#' (join_with (b'&' ∷ []) (map write_field (f ∷ fs))) ≡ true
free_of-join f [] h = unfold join_with in (free_of-write_field f h.0).1
free_of-join f (g ∷ fs) h =
    rw (join_with-cons (b'&' ∷ []) (write_field f) (write_field g) (map write_field fs)) (
      rw
        (all-append (λ b. not (b == b'#')) (write_field f)
          (b'&' ∷ join_with (b'&' ∷ []) (map write_field (g ∷ fs))))
        (rw ((free_of-write_field f h.0).1) (free_of-join g fs h.1)))

All-free_of :
    (fs : List Field) → All IsField fs → All (λ v. free_of b'&' v ≡ true) (map write_field fs)
All-free_of [] h = tt
All-free_of (f ∷ fs) h = ((free_of-write_field f h.0).0, All-free_of fs h.1)

read_fields :
    (fs : List Field)
    → All IsField fs
    → map (λ g. read_field (cut b'=' g)) (map write_field fs) ≡ fs
read_fields [] h = refl
read_fields (f ∷ fs) h = rw (read-write_field f h.0) (ap (◌∷◌ f) (read_fields fs h.1))

-- A client reads back what was written: the user, the authority, each parameter at its own name,
-- and the two parts of the fragment.
pub read-write_uri :
    (user authority : Bytes) (f : Field) (fs : List Field) (name route : Bytes)
    → free_of b'@' user ≡ true
    → free_of b'?' authority ≡ true
    → All IsField (f ∷ fs)
    → IsBytes name
    → free_of b'%' route ≡ true
    → read_uri (write_uri user authority (f ∷ fs) (encode name ++ route))
      ≡ some
          (record { user = user; authority = authority; query = f ∷ fs; fragment = name ++ route })
unfolding read_uri
read-write_uri user authority f fs name route hu ha hf hn hr =
    let query = join_with (b'&' ∷ []) (map write_field (f ∷ fs)) in
    let fragment = encode name ++ route in
    rw (cut-append b'@' user (authority ++ (b'?' ∷ query ++ (b'#' ∷ fragment))) hu) (
      rw (cut-append b'?' authority (query ++ (b'#' ∷ fragment)) ha) (
        rw (cut-append b'#' query fragment (free_of-join f fs hf)) (
          rw
            (split_on-join_with b'&' (write_field f) (map write_field fs) (All-free_of (f ∷ fs) hf))
            (rw (read_fields (f ∷ fs) hf)
              (rw (decode-encode_append name route hn) (rw (decode-free route hr)))))))
