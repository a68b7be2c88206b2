-- ===== src/Xray/Users.antt =====
-- internal/xray/config.go: `findInbound`, `saveVLESS` and the look-ups of users.
use cf_vpn.Prelude.{
  false, List, [], ◌∷◌, ◌++◌, map, some, ◌≡◌, refl, ap, ◌∙◌, subst, inl, inr, arith, Bool-cases,
  Option-cases, any,
}
use mathlib.Core.Option.{some-injective}
use cf_vpn.Text.{Bytes, codes, equal, equal_self}
use cf_vpn.Dict.{lookup}
use cf_vpn.Json.{elements}
use cf_vpn.Xray.{Client, Settings, Inbound, Config, marshal_settings}
use cf_vpn.Xray.Codec.{IsClient, IsSettings, settings-codec}
use cf_vpn.Xray.Accounts.{
  Place, step_over, find_in, find_inbound, save_vless, settings_clients, place_clients, clients_of,
  user_of, list_user_names, find_client, get_vless_client, email_of, is_user,
}
use cf_vpn.Xray.Names.{IsName, normalize_email-IsName, normalize_email-email_of}

-- The inbound that was found can be exchanged for one with its protocol.
record IsPlace (protocol : Bytes) (l : List Inbound) (p : Place) : Type 0 where
  pub whole : l ≡ p.before ++ p.found ∷ p.behind
  pub again :
      (i : Inbound)
      → i.protocol ≡ p.found.protocol
      → find_in protocol (p.before ++ i ∷ p.behind)
        ≡ some (record { before = p.before; found = i; behind = p.behind })

find_in-IsPlace :
    (protocol : Bytes) (l : List Inbound) (p : Place)
    → find_in protocol l ≡ some p
    → IsPlace protocol l p
unfolding find_in
find_in-IsPlace protocol [] p h = absurd (cc h)
find_in-IsPlace protocol (x ∷ l) p h = elim (Bool-cases (equal x.protocol protocol)) [
  | inl hit ↦
      subst (IsPlace protocol (x ∷ l))
        (some-injective (record { before = []; found = x; behind = l }) p (ground arith))
        (record { whole = refl; again = λ i e. rw e (rw hit refl) })
  | inr miss ↦ elim (Option-cases (find_in protocol l)) [
    | inl nothing ↦ absurd (ground arith)
    | inr (q, e) ↦
        let r = find_in-IsPlace protocol l q e in
        subst (IsPlace protocol (x ∷ l))
          (some-injective (record { before = x ∷ q.before; found = q.found; behind = q.behind }) p
            (ground arith))
          (record {
            whole = ap (◌∷◌ x) r.whole;
            again = λ i k. rw miss (ap (step_over x) (r.again i k));
          })
  ]
]

-- Only the settings of one inbound have changed.
pub record Rewrites (cfg out : Config) : Type 0 where
  pub before : List Inbound
  pub old : Inbound
  pub new : Inbound
  pub behind : List Inbound
  pub inbounds : elements cfg.inbounds ≡ before ++ old ∷ behind
  pub written : out.inbounds ≡ some (before ++ new ∷ behind)
  pub protocol : new.protocol ≡ old.protocol
  pub inbound_extras : new.extras ≡ old.extras
  pub extras : out.extras ≡ cfg.extras

module _ (cfg : Config) (p : Place) (s : Settings) where
  pub save_vless-Rewrites :
      find_inbound cfg (codes "vless") ≡ some p → Rewrites cfg (save_vless cfg p s)
  save_vless-Rewrites h = record {
    before = p.before;
    old = p.found;
    new = record {
      protocol = p.found.protocol;
      settings = some (marshal_settings s);
      extras = p.found.extras;
    };
    behind = p.behind;
    inbounds = (find_in-IsPlace (codes "vless") (elements cfg.inbounds) p h).whole;
    written = refl;
    protocol = refl;
    inbound_extras = refl;
    extras = refl;
  }

  pub clients_of-save_vless :
      find_inbound cfg (codes "vless") ≡ some p
      → IsSettings s
      → clients_of (save_vless cfg p s) ≡ elements s.clients
  clients_of-save_vless h v =
      ap place_clients (
        (find_in-IsPlace (codes "vless") (elements cfg.inbounds) p h).again
          (record {
            protocol = p.found.protocol;
            settings = some (marshal_settings s);
            extras = p.found.extras;
          })
          refl)
      ∙ ap settings_clients (settings-codec s v)

pub find_client-append :
    (t : Bytes) (cs : List Client) (c : Client)
    → any (is_user t) cs ≡ false
    → find_client t (cs ++ c ∷ []) ≡ find_client t (c ∷ [])
unfolding find_client
find_client-append t [] c h = refl
find_client-append t (d ∷ cs) c h = ground (arith, find_client-append t cs c (ground arith))

pub any-map :
    (t : Bytes) (cs : List Client) → any (λ n. equal n t) (map user_of cs) ≡ any (is_user t) cs
any-map t [] = refl
any-map t (c ∷ cs) = rw (any-map t cs) refl

map_append :
    (cs : List Client) (c : Client) → map user_of (cs ++ c ∷ []) ≡ map user_of cs ++ user_of c ∷ []
map_append [] c = refl
map_append (d ∷ cs) c = ap (◌∷◌ (user_of d)) (map_append cs c)

abbrev pub new_client : Bytes → Bytes → Bytes → Client
new_client name uuid flow = record { id = uuid; email = email_of name; flow = flow; extras = [] }

pub new_client-IsClient : (name uuid flow : Bytes) → IsClient (new_client name uuid flow)
new_client-IsClient name uuid flow =
    unfold lookup in record { ascending = tt; absent = (refl, (refl, (refl, tt))) }

-- The user is new and comes last.
pub record Adds (cfg : Config) (name uuid flow : Bytes) (out : Config) : Type 0 where
  pub clients : clients_of out ≡ clients_of cfg ++ new_client name uuid flow ∷ []
  pub names : list_user_names out ≡ list_user_names cfg ++ name ∷ []
  pub found : get_vless_client out name ≡ some uuid
  pub rest : Rewrites cfg out

pub Adds-clients :
    (cfg : Config) (name uuid flow : Bytes) (out : Config)
    → IsName name
    → any (is_user name) (clients_of cfg) ≡ false
    → clients_of out ≡ clients_of cfg ++ new_client name uuid flow ∷ []
    → Rewrites cfg out
    → Adds cfg name uuid flow out
unfolding list_user_names get_vless_client find_client
Adds-clients cfg name uuid flow out valid fresh e rest = record {
  clients = e;
  names =
      ap (map user_of) e
      ∙ map_append (clients_of cfg) (new_client name uuid flow)
      ∙ ap (λ n. map user_of (clients_of cfg) ++ n ∷ []) (normalize_email-email_of name valid);
  found = rw (normalize_email-IsName name valid) (
      rw e (
        find_client-append name (clients_of cfg) (new_client name uuid flow) fresh
        ∙ rw (normalize_email-email_of name valid) (rw (equal_self name) refl)));
  rest = rest;
}
