-- ===== src/Xray/Tests.antt =====
-- A config with one user, and each theorem at it.
use cf_vpn.Prelude.{[], ◌∷◌, some, ◌≡◌, refl, ok, err}
use cf_vpn.Text.{codes, equal}
use cf_vpn.Text.Order.{less}
use cf_vpn.Text.Trim.{trim_space}
use cf_vpn.Regex.{matches}
use cf_vpn.Dict.{lookup, put, delete, put_all}
use cf_vpn.Json.{number, object, no_members, as_slice, read_all}
use cf_vpn.Xray.{
  Client, Config, marshal_settings, unmarshal_settings, marshal_config, unmarshal_config,
  preferred_entries, leftovers,
}
use cf_vpn.Text.Utf8.{rune_width, utf8_from}
use cf_vpn.Json.Encoded.{is_utf8_json}
use cf_vpn.Xray.Document.{config-codec}
use cf_vpn.Xray.Accounts.{
  normalize_email, strip_suffixes, validate_user_name, find_in, list_user_names, add_user,
  remove_user, already_exists,
}
use cf_vpn.Xray.Mutations.{Removes, add_user-Adds, remove_user-Removes}
use cf_vpn.Xray.Users.{Adds}

abbrev alice : Client
alice = record {
  id = codes "u1";
  email = codes "alice@vpn";
  flow = [];
  extras = (codes "level", number (codes "0")) ∷ [];
}

abbrev node : Config
node = record {
  inbounds = some (
      (record {
        protocol = codes "vless";
        settings = some (
            marshal_settings
              (record { clients = some (alice ∷ []); decryption = codes "none"; extras = [] }));
        extras = (codes "port", number (codes "443")) ∷ [];
      })
      ∷ []);
  extras = (codes "log", object no_members) ∷ [];
}

names_of_node : list_user_names node ≡ codes "alice" ∷ []
unfolding list_user_names normalize_email strip_suffixes trim_space find_in unmarshal_settings
    marshal_settings preferred_entries leftovers lookup put delete put_all as_slice read_all less
    equal
names_of_node = refl

add_twice : add_user node (codes "alice") (codes "u2") [] ≡ err already_exists
unfolding add_user validate_user_name matches list_user_names normalize_email strip_suffixes
    trim_space find_in unmarshal_settings marshal_settings preferred_entries leftovers lookup put
    delete put_all as_slice read_all less equal
add_twice = refl

config-codec_example : unmarshal_config (marshal_config node) ≡ ok node
unfolding lookup equal is_utf8_json utf8_from rune_width marshal_settings preferred_entries
    leftovers put less
config-codec_example =
    config-codec node
      (record {
        inbounds = (record { ascending = (tt, tt); absent = (refl, (refl, tt)) }, tt);
        extras = record { ascending = (tt, tt); absent = (refl, tt) };
      })
      refl

abbrev with_bob : Config
with_bob = record {
  inbounds = some (
      (record {
        protocol = codes "vless";
        settings = some (
            marshal_settings (record {
              clients = some (
                  alice
                  ∷ (record {
                    id = codes "u2";
                    email = codes "bob@vpn";
                    flow = codes "f";
                    extras = [];
                  })
                  ∷ []);
              decryption = codes "none";
              extras = [];
            }));
        extras = (codes "port", number (codes "443")) ∷ [];
      })
      ∷ []);
  extras = (codes "log", object no_members) ∷ [];
}

add_user-Adds_example : Adds node (codes "bob") (codes "u2") (codes "f") with_bob
unfolding add_user validate_user_name matches list_user_names normalize_email strip_suffixes
    trim_space find_in unmarshal_settings marshal_settings preferred_entries leftovers lookup put
    delete put_all as_slice read_all less equal
add_user-Adds_example = add_user-Adds node (codes "bob") (codes "u2") (codes "f") with_bob refl

remove_user-Removes_example : Removes with_bob (codes "bob") node
unfolding remove_user normalize_email strip_suffixes trim_space find_in unmarshal_settings
    marshal_settings preferred_entries leftovers lookup put delete put_all as_slice read_all less
    equal
remove_user-Removes_example = remove_user-Removes with_bob (codes "bob") node refl
