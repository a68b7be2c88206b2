-- ===== src/Xray.antt =====
-- internal/xray/config.go: the xray config as the control plane reads and writes it. A
-- `json.RawMessage` is the value it denotes.
pub mod Stable
pub mod Codec
pub mod Document
pub mod Reread
pub mod Loaded
pub mod Accounts
pub mod Names
pub mod Users
pub mod Mutations
mod Tests
use cf_vpn.Prelude.{
  Bool, true, false, not, ◌&&◌, ◌||◌, List, [], ◌∷◌, ◌++◌, map, reverse, Option, none, some, ◌==◌,
  if◌then◌else◌, length, any, filter, Result, ok, err, ◌>>=◌, ℕ,
}
use cf_vpn.Text.{Bytes, codes, equal, is_empty}
use cf_vpn.Text.Trim.{trim_space}
use cf_vpn.Dict.{Dict, key_of, lookup, put, delete}
use cf_vpn.Json.Encoded.{encoded}
use cf_vpn.Regex.{Regex, repeat, up_to, matches, is_alnum}
use cf_vpn.Json.{
  Json, text, object, array, object_of, Slice, elements, Read, JsonError, wrong_type, as_text,
  as_dict, as_slice, of_slice,
}

pub record Client : Type 0 where
  pub id : Bytes
  pub email : Bytes
  pub flow : Bytes
  pub extras : Dict Json

pub record Settings : Type 0 where
  pub clients : Slice Client
  pub decryption : Bytes
  pub extras : Dict Json

-- `none` is an empty `Settings` message.
pub record Inbound : Type 0 where
  pub protocol : Bytes
  pub settings : Option Json
  pub extras : Dict Json

pub record Config : Type 0 where
  pub inbounds : Slice Inbound
  pub extras : Dict Json

abbrev pub client_order : List Bytes
client_order = codes "id" ∷ codes "email" ∷ codes "flow" ∷ []

abbrev pub settings_order : List Bytes
settings_order = codes "clients" ∷ codes "decryption" ∷ []

abbrev pub top_level_order : List Bytes
top_level_order = codes "log" ∷ codes "inbounds" ∷ codes "outbounds" ∷ codes "routing" ∷ []

abbrev pub inbound_order : List Bytes
inbound_order =
    codes "tag"
    ∷ codes "listen"
    ∷ codes "port"
    ∷ codes "protocol"
    ∷ codes "settings"
    ∷ codes "streamSettings"
    ∷ []

abbrev pub emit : Bytes → Option Json → List (Bytes × Json)
emit k none = []
emit k (some v) = (k, v) ∷ []

-- The preferred keys that are there.
unfoldable pub preferred_entries : Dict Json → List Bytes → List (Bytes × Json)
preferred_entries m [] = []
preferred_entries m (k ∷ ks) = emit k (lookup k m) ++ preferred_entries m ks

-- The keys that were not emitted, ascending.
unfoldable pub leftovers : Dict Json → List Bytes → List (Bytes × Json)
leftovers m preferred = filter (λ e. not (any (equal (key_of e)) preferred)) m

abbrev pub stable_object : Dict Json → List Bytes → Json
stable_object m preferred =
    object (object_of (preferred_entries m preferred ++ leftovers m preferred))

abbrev pub with_flow : Bytes → Dict Json → Dict Json
with_flow flow m = if is_empty flow then m else put (codes "flow") (text flow) m

abbrev pub client_entries : Client → Dict Json
client_entries c =
    with_flow c.flow (put (codes "email") (text c.email) (put (codes "id") (text c.id) c.extras))

-- The value that the encoder is given; what the encoder replaces in its strings, `marshal_config`
-- does for the whole document.
abbrev pub marshal_client : Client → Json
marshal_client c = stable_object (client_entries c) client_order

-- The value of a key that is there, and otherwise the zero value.
module _ {A : Type 0} (zero : A) (read : Json → Read A) where
  abbrev pub read_present : Option Json → Read A
  read_present none = ok zero
  read_present (some v) = read v

abbrev pub text_at : Bytes → Dict Json → Read Bytes
text_at k raw = read_present [] as_text (lookup k raw)

abbrev pub client_fields : Dict Json → Read Client
client_fields raw = text_at (codes "id") raw >>= λ id. text_at (codes "email") raw >>= λ email.
    text_at (codes "flow") raw >>= λ flow. ok (record {
      id = id;
      email = email;
      flow = flow;
      extras = delete (codes "flow") (delete (codes "email") (delete (codes "id") raw));
    })

abbrev pub unmarshal_client : Json → Read Client
unmarshal_client j = as_dict j >>= client_fields

abbrev pub settings_entries : Settings → Dict Json
settings_entries s =
    put (codes "decryption") (text s.decryption)
      (put (codes "clients") (of_slice marshal_client s.clients) s.extras)

unfoldable pub marshal_settings : Settings → Json
marshal_settings s = stable_object (settings_entries s) settings_order

abbrev pub settings_fields : Dict Json → Read Settings
settings_fields raw =
    read_present none (as_slice unmarshal_client) (lookup (codes "clients") raw) >>= λ clients.
    text_at (codes "decryption") raw >>= λ decryption. ok (record {
      clients = clients;
      decryption = decryption;
      extras = delete (codes "decryption") (delete (codes "clients") raw);
    })

unfoldable pub unmarshal_settings : Json → Read Settings
unmarshal_settings j = as_dict j >>= settings_fields

abbrev pub with_settings : Option Json → Dict Json → Dict Json
with_settings none m = m
with_settings (some v) m = put (codes "settings") v m

abbrev pub marshal_inbound : Inbound → Json
marshal_inbound i =
    stable_object (with_settings i.settings (put (codes "protocol") (text i.protocol) i.extras))
      inbound_order

abbrev pub inbound_fields : Dict Json → Read Inbound
inbound_fields raw = text_at (codes "protocol") raw >>= λ protocol. ok (record {
  protocol = protocol;
  settings = lookup (codes "settings") raw;
  extras = delete (codes "settings") (delete (codes "protocol") raw);
})

abbrev pub unmarshal_inbound : Json → Read Inbound
unmarshal_inbound j = as_dict j >>= inbound_fields

abbrev pub config_document : Config → Json
config_document c =
    stable_object (put (codes "inbounds") (of_slice marshal_inbound c.inbounds) c.extras)
      top_level_order

-- Every config is written through this method: here the encoder's treatment of the strings and keys
-- of all levels is applied, those of clients, settings and inbounds included.
unfoldable pub marshal_config : Config → Json
unfolding encoded
marshal_config c = encoded (config_document c)

abbrev pub config_fields : Dict Json → Read Config
config_fields raw =
    read_present none (as_slice unmarshal_inbound) (lookup (codes "inbounds") raw) >>= λ inbounds.
    ok (record { inbounds = inbounds; extras = delete (codes "inbounds") raw })

unfoldable pub unmarshal_config : Json → Read Config
unmarshal_config j = as_dict j >>= config_fields
