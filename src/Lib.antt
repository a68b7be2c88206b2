-- ===== src/Lib.antt =====
-- Verification library for cf-vpn, the control plane of a VPN node in Go.
--
-- A node has an env file (internal/state), an xray config (internal/xray), a hysteria config
-- (internal/hysteria) and one subscription file for each user (internal/subscription). The commands
-- (internal/commands) and the agent (cmd/cfvpn-agent) change them through one atomic writer
-- (internal/fsutil), check identifiers at the boundary (internal/validate) and restart services.
--
-- Files:
-- - Prelude: names of the libraries, tests on numbers, lists, `Result`.
-- - Text: Go strings as lists of bytes, with the functions of `strings`, `sort` and `bufio` that the
--   program calls: TrimSpace, Split, SplitN, Join, Scanner, Itoa. Dict: Go maps with string keys, as
--   entries in ascending order. Regex: a matcher, and the language that it decides. Json: the values
--   that encoding/json reads and writes; Json/Encoded what its encoder does to a string or a key
--   that is not valid UTF-8 (Text/Utf8), which `marshal_config` applies to the whole document, and
--   Json/Reread what is read of the result.
-- - Validate: internal/validate/validate.go; `hostname`, `uuid`, `hex_id32` are `Hostname`, `UUID`,
--   `HexID32`.
-- - State: internal/state/store.go; `load`, `validate_env`, `save` are `Load`, `ValidateEnv` and the
--   bytes that `SaveAtomic` writes.
-- - Subscription: internal/subscription/subscription.go; one function for each `Build...URI`.
-- - Hysteria: internal/hysteria/hysteria.go; `parse_users`, `replace_userpass`, `yaml_quote`,
--   `yaml_unquote` are `parseUsers`, `replaceUserpass`, `yamlQuote`, `yamlUnquote`; `parse_lines` and
--   `replace_lines` are the parts of the first two between the splitting and the joining of lines.
-- - Xray: internal/xray/config.go; `marshal_*` and `unmarshal_*` are the `MarshalJSON` and
--   `UnmarshalJSON` methods, Xray/Accounts has `AddUser`, `RemoveUser`, `ListUserNames`,
--   `GetVLESSClient`. A pointer to an inbound is the list of the inbounds split around it.
--   Settings that are marshalled between two operations are kept as the encoder is given them.
-- - Atomic: internal/fsutil/atomic.go; `write_file` is `WriteFile`, each system call works or fails.
-- - Node: the files and the calls of a command, with an environment whose answers may depend on all
--   calls made before; `write_config_checked` is internal/commands/validate_config.go.
-- - Rotate: internal/commands/rotate.go; Rotate/Cloudflare is `RunRotateCloudflare`, cut at the calls
--   whose outcome matters; Rotate/Steps has what it shares with `RunRotateDirect`;
--   Rotate/Undo, Publish, Restores and Start follow the run for the way back.
-- - Zones: internal/zones/random.go; `generate_host_with`, `pick_zone` are `GenerateHostWith`,
--   `PickZone` on the bytes that the reader delivers.
-- - Templates: internal/templates/render.go; the cloudflared templates line by line, and in
--   Templates/Xray the configs of `RenderXrayCloudflareOpts` and `RenderXrayDirectReality` as the
--   values that json.Marshal is given. Templates/Served reads them back through Xray.
-- - Links: internal/commands/subscription.go, with the readers of env switches in hy2.go, xhttp.go,
--   xhttp_direct.go, xhttp_h3.go and rotate.go of the same directory; `build_user_uris` is
--   `buildUserURIs`.
-- - Users: internal/commands/users.go; `run_add_user`, `run_remove_user`, `run_gen_sub` are
--   `RunAddUser`, `RunRemoveUser`, `RunGenSub`, cut at their calls. Users/Secrets has the uuid and the
--   password made of random bytes. Node/Apply has `applyXrayConfig`.
-- - Lock: internal/commands/lock.go; the polling loop of `AcquireConfigLock`.
-- - Agent: cmd/cfvpn-agent/main.go; Agent/Handlers has `handleSync`, `handleUsers`, `handleUser` behind
--   `withAuth`, Agent/Apply has `currentSyncUsers` and `applyUsers`.
-- - Units: internal/commands/reconcile.go on a directory of unit files; `reconcile_each` is the loop of
--   `reconcileUnitsTracked`. Units/Texts has internal/systemd/units.go.
-- - Checksum: internal/binary/checksum.go; one function for each reader of a checksum file, and
--   `verify_file_sha256` with SHA-256 as a parameter.
--
-- Bounds: `max_token` is the 64 KiB of `bufio.Scanner`, 253 and 63 are the bounds of `Hostname`.
-- Recursion is on lists and patterns; three run on fuel: `itoa` (Text/Decimal), one more
-- than the number, since every round divides by ten; `poll` (Lock), 202 rounds, since each takes 100 ms
-- and the deadline is 20 s away at most; the reader of Agent/Wire, the size of the value. `max_users`
-- is 5; ports end at 65535; `atoi` has the range of a 64-bit int.
--
-- Parameters: the parser of JSON and the renderers of internal/templates in
-- Rotate/Steps (`Library`), the answers of systemd, Cloudflare, the certificate manager, the xray
-- binary and the file system in Node (`World`), those of the lock, of crypto/rand and of the
-- subscription files in Users (`Answers`), and the request bodies and the order of a Go map in Agent
-- (`Outside`). `strings.ToUpper` and `netip.ParseAddr` are parameters of Links (`GoText`).
--
-- Not modelled: the text of errors and warnings, file modes outside Atomic, concurrency (the commands
-- hold the config lock), the byte form of JSON, `Render` of the hysteria config by yaml.v3,
-- `RunRotateDirect`, installation, the agent's other routes, the command line,
-- the HTTP clients, the panel.
pub mod Prelude
pub mod Text
pub mod Regex
pub mod Validate
pub mod State
pub mod Subscription
pub mod Hysteria
pub mod Json
pub mod Xray
pub mod Atomic
pub mod Node
pub mod Rotate
pub mod Zones
pub mod Templates
pub mod Links
pub mod Users
pub mod Lock
pub mod Agent
pub mod Units
pub mod Checksum
pub mod Dict
