-- ===== src/Xray/Accounts.antt =====
-- internal/xray/config.go: the users of the vless inbound. An operation on a `*Config` returns the
-- config that it leaves behind; an error leaves it as it was.
use cf_vpn.Prelude.{
  Bool, not, ◌&&◌, ◌||◌, List, [], ◌∷◌, ◌++◌, map, reverse, Option, none, some, ◌==◌, if◌then◌else◌,
  length, any, filter, Result, ok, err, ◌>>=◌, ℕ,
}
use cf_vpn.Text.{Bytes, codes, equal}
use cf_vpn.Text.Trim.{trim_space}
use cf_vpn.Regex.{Regex, repeat, up_to, matches, is_alnum}
use cf_vpn.Json.{Json, elements, Read, JsonError, wrong_type}
use cf_vpn.Xray.{Client, Settings, Inbound, Config, marshal_settings, unmarshal_settings}

-- Trailing `@vpn` tokens, on a reversed text.
unfoldable pub strip_suffixes : Bytes → Bytes
strip_suffixes (n ∷ p ∷ v ∷ a ∷ s) =
    let rest = strip_suffixes s in
    if n == b'n' && p == b'p' && v == b'v' && a == b'@' then rest else n ∷ p ∷ v ∷ a ∷ s
strip_suffixes s = s

unfoldable pub normalize_email : Bytes → Bytes
normalize_email email = reverse (strip_suffixes (reverse (trim_space email)))

-- `^[A-Za-z0-9_-]{1,32}$`
abbrev pub is_name_byte : ℕ → Bool
is_name_byte c = is_alnum c || c == b'_' || c == b'-'

abbrev pub user_name_re : Regex
user_name_re = repeat is_name_byte 1 (up_to 31)

pub data UserError : Type 0 where
  invalid_name already_exists no_vless_inbound not_found : UserError
  unreadable : JsonError → UserError

unfoldable pub validate_user_name : Bytes → Result UserError (Unit {0})
validate_user_name name = if not (matches user_name_re name) then err invalid_name else ok tt

-- The pointer that `findInbound` returns: the inbounds in front of it, it, and those behind.
pub record Place : Type 0 where
  pub before : List Inbound
  pub found : Inbound
  pub behind : List Inbound

abbrev pub step_over : Inbound → Option Place → Option Place
step_over i none = none
step_over i (some p) = some (record { before = i ∷ p.before; found = p.found; behind = p.behind })

unfoldable pub find_in : Bytes → List Inbound → Option Place
find_in protocol [] = none
find_in protocol (i ∷ l) =
    let rest = find_in protocol l in
    if equal i.protocol protocol
    then some (record { before = []; found = i; behind = l })
    else step_over i rest

abbrev pub find_inbound : Config → Bytes → Option Place
find_inbound cfg protocol = find_in protocol (elements cfg.inbounds)

-- An empty message is no JSON.
abbrev pub read_settings : Option Json → Read Settings
read_settings none = err wrong_type
read_settings (some j) = unmarshal_settings j

abbrev pub load_vless : Inbound → Read Settings
load_vless i = read_settings i.settings

-- The config after `in.Settings = raw` through the pointer.
abbrev pub save_vless : Config → Place → Settings → Config
save_vless cfg p s = record {
  inbounds = some (
      p.before
      ++ (record {
        protocol = p.found.protocol;
        settings = some (marshal_settings s);
        extras = p.found.extras;
      })
        ∷ p.behind);
  extras = cfg.extras;
}

-- The clients of the vless inbound, none when there is none or it does not load.
abbrev pub settings_clients : Read Settings → List Client
settings_clients (ok s) = elements s.clients
settings_clients (err e) = []

abbrev pub place_clients : Option Place → List Client
place_clients none = []
place_clients (some p) = settings_clients (load_vless p.found)

abbrev pub clients_of : Config → List Client
clients_of cfg = place_clients (find_inbound cfg (codes "vless"))

abbrev pub user_of : Client → Bytes
user_of c = normalize_email c.email

unfoldable pub list_user_names : Config → List Bytes
list_user_names cfg = map user_of (clients_of cfg)

abbrev pub count_users : Config → ℕ
count_users cfg = length (list_user_names cfg)

unfoldable pub find_client : Bytes → List Client → Option Bytes
find_client target [] = none
find_client target (c ∷ cs) = if equal (user_of c) target then some c.id else find_client target cs

unfoldable pub get_vless_client : Config → Bytes → Option Bytes
get_vless_client cfg name = find_client (normalize_email name) (clients_of cfg)

-- `AddUser` after the look-ups.
abbrev pub append_client : Config → Place → Client → Read Settings → Result UserError Config
append_client cfg p c (err e) = err (unreadable e)
append_client cfg p c (ok s) = ok (
    save_vless cfg p (record {
      clients = some (elements s.clients ++ c ∷ []);
      decryption = s.decryption;
      extras = s.extras;
    }))

abbrev pub add_at : Config → Client → Option Place → Result UserError Config
add_at cfg c none = err no_vless_inbound
add_at cfg c (some p) = append_client cfg p c (load_vless p.found)

abbrev pub email_of : Bytes → Bytes
email_of name = name ++ codes "@vpn"

unfoldable pub add_user : Config → Bytes → Bytes → Bytes → Result UserError Config
unfolding validate_user_name
add_user cfg name uuid flow = validate_user_name name >>= λ _.
    if any (λ existing. equal existing name) (list_user_names cfg)
    then err already_exists
    else add_at cfg (record { id = uuid; email = email_of name; flow = flow; extras = [] })
        (find_inbound cfg (codes "vless"))

abbrev pub is_user : Bytes → Client → Bool
is_user target c = equal (user_of c) target

-- `RemoveUser` after the look-ups.
abbrev pub drop_clients : Config → Place → Bytes → Read Settings → Result UserError Config
drop_clients cfg p target (err e) = err (unreadable e)
drop_clients cfg p target (ok s) =
    if not (any (is_user target) (elements s.clients))
    then err not_found
    else ok (
        save_vless cfg p (record {
          clients = some (filter (λ c. not (is_user target c)) (elements s.clients));
          decryption = s.decryption;
          extras = s.extras;
        }))

abbrev pub remove_at : Config → Bytes → Option Place → Result UserError Config
remove_at cfg target none = err no_vless_inbound
remove_at cfg target (some p) = drop_clients cfg p target (load_vless p.found)

unfoldable pub remove_user : Config → Bytes → Result UserError Config
remove_user cfg name = remove_at cfg (normalize_email name) (find_inbound cfg (codes "vless"))
