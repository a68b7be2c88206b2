-- ===== src/Agent/Tests.antt =====
-- A node behind its agent, and each theorem at it.
use cf_vpn.Prelude.{
  true, false, List, [], ◌∷◌, ◌++◌, Option, none, some, ◌≡◌, refl, sym, ◌∙◌, ◌⊎◌, ok, err,
}
use mathlib.Core.Option.{some-injective}
use cf_vpn.Text.{Bytes, codes, equal, has_prefix}
use cf_vpn.Json.Encoded.{encoded}
use cf_vpn.Text.Trim.{trim_space}
use cf_vpn.Text.Decimal.{atoi, digits_value}
use cf_vpn.Regex.{matches}
use cf_vpn.Validate.{hostname, check_labels, hex_id32, not_hex_id}
use cf_vpn.Text.Split.{split_on}
use cf_vpn.Node.{Slot, env_file, World, Node}
use cf_vpn.Agent.{
  SyncUser, Request, Outside, error_reply, empty_sync_refusal, is_authorized, RotateRequest,
  validate_rotate_request, parse_port_or_warn, bearer,
}
use cf_vpn.Agent.Apply.{apply_users}
use cf_vpn.Agent.Handlers.{Answer, handle_sync, handle_users, serve}
use cf_vpn.Agent.Guard.{serve-authorized}
use cf_vpn.Agent.Synced.{Applied, apply_users-Applied}
use cf_vpn.Agent.Counts.{Limited, IsFaithful}
use cf_vpn.Agent.Limit.{at_start, synced, added, Reaches-Limited}
use cf_vpn.Agent.Checked.{IsChecked, validate_rotate_request-IsChecked}
use cf_vpn.Agent.Wire

abbrev user : Bytes → SyncUser
user name = record { name = name; vless_uuid = codes "u1"; hy2_pw = codes "pw" }

abbrev two : List SyncUser
two = user (codes "alice") ∷ user (codes "bob") ∷ []

abbrev world : World
world = record {
  unreadable = λ log f. false;
  write_error = λ log f b. none;
  works = λ log c. true;
  issued = λ log host. (none, none);
}

abbrev outside : Outside
outside = record {
  world = world;
  locks = λ log. ok tt;
  random = λ log draw. some (codes "0123456789abcdef");
  order = λ us. us;
  decode_sync = λ b. ok (record { users = two; confirm_empty = false });
  decode_add_user = λ b. ok (codes "eve");
  parse = Wire.parse;
  print = λ j. Wire.print (encoded j);
}

abbrev files : Slot → Option Bytes
files env_file = some (codes "MODE=cloudflare")
files _ = none

abbrev node : Node
node = record { files = files; calls = [] }

abbrev post : Bytes → Request
post path = record {
  method = codes "POST";
  path = path;
  authorization = codes "Bearer secret";
  body = codes "{}";
}

abbrev nothing_else : Request → Node → Answer
nothing_else r s = (error_reply 404 [], s)

faithful : IsFaithful outside
faithful = record {
  encodes = λ j k e. some-injective k (encoded j) (sym e ∙ Wire.parse-print (encoded j));
  keeps = λ us. refl;
}

serve-authorized_example :
    (serve outside (codes " secret ") nothing_else (post (codes "/admin/v1/sync")) node
      ≡ (error_reply 401 (codes "unauthorized"), node))
    ⊎ (codes "Bearer secret" ≡ bearer ++ trim_space (codes " secret "))
serve-authorized_example =
    serve-authorized outside (codes " secret ") nothing_else (post (codes "/admin/v1/sync")) node

apply_users-Applied_example : Applied outside two node (apply_users outside two node)
apply_users-Applied_example = apply_users-Applied outside two node

Reaches-Limited_example :
    Limited outside
      (handle_users outside
        (post (codes "/admin/v1/users"))
        (handle_sync outside (post (codes "/admin/v1/sync")) node).1).1
Reaches-Limited_example =
    Reaches-Limited outside node
      (handle_users outside (post (codes "/admin/v1/users"))
        (handle_sync outside (post (codes "/admin/v1/sync")) node).1).1
      faithful tt
      (added (handle_sync outside (post (codes "/admin/v1/sync")) node).1
        (post (codes "/admin/v1/users")) (synced node (post (codes "/admin/v1/sync")) at_start))

empty_list_refused : empty_sync_refusal (record { users = []; confirm_empty = false }) 3 ≡ true
unfolding empty_sync_refusal
empty_list_refused = refl

port_too_large : parse_port_or_warn (codes " 65536 ") ≡ 0
unfolding parse_port_or_warn trim_space atoi digits_value
port_too_large = refl

wrong_secret :
    is_authorized
      (codes "secret")
      (record { method = []; path = []; authorization = codes "Bearer Secret"; body = [] })
    ≡ false
unfolding is_authorized trim_space equal has_prefix
wrong_secret = refl

abbrev rotation : Bytes → Bytes → RotateRequest
rotation host zone_id = record {
  new_host = host;
  new_zone_id = zone_id;
  old_host = [];
  old_zone_id = [];
  new_hy2_host = [];
  new_hy2_zone = [];
  new_hy2_zone_id = [];
  old_hy2_host = [];
  old_hy2_zone_id = [];
}

zone_id_refused : validate_rotate_request (rotation (codes "a.b") (codes "../x")) ≡ err not_hex_id
unfolding validate_rotate_request hostname check_labels hex_id32 matches split_on trim_space equal
zone_id_refused = refl

validate_rotate_request-IsChecked_example : IsChecked (rotation (codes "a.b") (codes " "))
unfolding validate_rotate_request hostname check_labels hex_id32 matches split_on trim_space equal
validate_rotate_request-IsChecked_example =
    validate_rotate_request-IsChecked (rotation (codes " a.b ") (codes " "))
      (rotation (codes "a.b") (codes " ")) refl
