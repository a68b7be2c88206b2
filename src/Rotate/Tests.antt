-- ===== src/Rotate/Tests.antt =====
-- A rotation whose cloudflared does not start, taken back.
use cf_vpn.Prelude.{Bool, true, false, [], Option, none, some, ◌≡◌, refl, err}
use cf_vpn.Text.{Bytes, codes, equal, has_prefix}
use cf_vpn.Text.Order.{less}
use cf_vpn.Text.Trim.{trim_space}
use cf_vpn.Text.Split.{split_on, cut}
use cf_vpn.Text.Scan.{scan_lines}
use cf_vpn.Dict.{lookup, put}
use cf_vpn.Regex.{matches}
use cf_vpn.State.{get, load}
use cf_vpn.Node.{
  Slot, env_file, xray_config, cloudflared_config, hysteria_config, hy2_cert, hy2_key, Call,
  restart_call, cloudflared_service, World, Node, write_atomic, remove_file, issue_cert,
  write_config_checked,
}
use cf_vpn.Rotate.{cloudflared_restart_failed, fail, issue_hy2_cert, delete_created}
use cf_vpn.Rotate.Steps.{Library, rotate_users}
use cf_vpn.Rotate.Cloudflare.{Inputs, run_rotate_cloudflare}
use cf_vpn.Rotate.Undo.{IsReliable}
use cf_vpn.Rotate.Start.{run_rotate_cloudflare-IsIntact}

abbrev starts : Call → Bool
starts (restart_call cloudflared_service) = false
starts _ = true

abbrev world : World
world = record {
  unreadable = λ log f. false;
  write_error = λ log f b. none;
  works = λ log c. starts c;
  issued = λ log host. (some (codes "new cert"), some (codes "new key"));
}

abbrev library : Library
library = record {
  parse = λ b. none;
  render_xray = λ users host env. some (codes "new xray");
  render_cloudflared = λ tunnel host admin env. some (codes "new cloudflared");
  render_hysteria = λ i. none;
}

abbrev inputs : Inputs
inputs = record {
  new_host = codes "b.dev";
  new_zone = codes "z";
  old_host = codes "a.dev";
  old_zone = codes "z";
  token = [];
  existing_users = some [];
  new_hy2_host = codes "h.dev";
  new_hy2_zone = [];
  old_hy2_host = [];
  old_hy2_zone = [];
}

abbrev files_of_node : Slot → Option Bytes
files_of_node env_file = some (codes "ADMIN_TUNNEL_UUID=t\nADMIN_HOST=a\n")
files_of_node xray_config = some (codes "old xray")
files_of_node cloudflared_config = some (codes "old cloudflared")
files_of_node hysteria_config = none
files_of_node hy2_cert = some (codes "old cert")
files_of_node hy2_key = some (codes "old key")

abbrev node : Node
node = record { files = files_of_node; calls = [] }

world-IsReliable : IsReliable world node
world-IsReliable = record {
  readable = λ log f. refl;
  restores = λ log f b h. refl;
  removes = λ log f. refl;
  strict = λ log b h. cc h;
}

golden_not_started :
    (run_rotate_cloudflare world library inputs node).0 ≡ err cloudflared_restart_failed
unfolding run_rotate_cloudflare trim_space load scan_lines split_on cut has_prefix matches put get
    lookup equal less issue_hy2_cert issue_cert rotate_users write_config_checked write_atomic
    remove_file fail delete_created
golden_not_started = refl

run_rotate_cloudflare-IsIntact_example :
    (run_rotate_cloudflare world library inputs node).1.files cloudflared_config
    ≡ some (codes "old cloudflared")
run_rotate_cloudflare-IsIntact_example =
    run_rotate_cloudflare-IsIntact world library inputs node world-IsReliable (codes "old cert")
      (codes "old key") refl refl cloudflared_restart_failed golden_not_started refl
      cloudflared_config
