-- ===== src/Listener/Parse.antt =====
-- `ParseNodeListenerConfig` of pkg/contracts/node_listener_config.go. Every failure of the decoder
-- is the same error, so a text that is not one JSON document is rejected whichever part of it the
-- loop had read.
pub mod RoundTrip
use Prim.Native.String
use autostream_contracts.Common.{
  ℕ, String, Bool, true, false, not, ◌&&◌, ◌||◌, Option, none, some, List, [], ◌∷◌, length, leb,
  ◌==◌, ℕ_eq, String_eq, if◌then◌else◌, ℤ, pos, negsuc, leb_ℤ, int64_max, contains, Result, ok, err,
  require, ◌>>◌, node_listener_config_invalid,
}
use autostream_contracts.Text.{byte_length}
use autostream_contracts.Json.{Json, null, number, text, object, Members, no_members, member}
use autostream_contracts.Json.Canonical.{◌>>=◌}
use autostream_contracts.Listener.{NodeListenerConfig, ListenerPlatform, validate_listener}

abbrev pub in_int64 : ℤ → Bool
in_int64 n = leb_ℤ (negsuc int64_max) n && leb_ℤ n (pos int64_max)

-- `decoder.Decode` into an int or an int64: null leaves the value as it is.
abbrev pub decode_integer : ℤ → Json → Option ℤ
decode_integer old null = some old
decode_integer old (number n) = if in_int64 n then some n else none
decode_integer old _ = none

-- `decoder.Decode` into a string.
abbrev pub decode_text : String → Json → Option String
decode_text old null = some old
decode_text old (text s) = some s
decode_text old _ = none

-- The switch on the field.
unfoldable pub set_field : NodeListenerConfig → String → Json → Option NodeListenerConfig
set_field config field value =
    if field == "schema_version"
    then (do
      v ← decode_integer config.schema_version value
      some (record config { schema_version = v }))
    else if field == "service_type"
    then (do v ← decode_text config.service_type value; some (record config { service_type = v }))
    else if field == "bind_address"
    then (do v ← decode_text config.bind_address value; some (record config { bind_address = v }))
    else if field == "config_revision"
    then (do
      v ← decode_integer config.config_revision value
      some (record config { config_revision = v }))
    else none

-- The loop over the members, with the fields that were seen.
unfoldable pub set_fields :
    NodeListenerConfig → List String → Members → Option (NodeListenerConfig × List String)
unfolding set_field
set_fields config seen no_members = some (config, seen)
set_fields config seen (member field value ms) = elim (contains seen field) [
  | true ↦ none
  | false ↦ elim (set_field config field value) [
    | none ↦ none
    | some next ↦ set_fields next (field ∷ seen) ms
  ]
]

abbrev pub no_config : NodeListenerConfig
no_config = record {
  schema_version = pos 0;
  service_type = "";
  bind_address = "";
  config_revision = pos 0;
}

abbrev pub document_fields : Option Json → Option (NodeListenerConfig × List String)
document_fields (some (object ms)) = set_fields no_config [] ms
document_fields _ = none

module _ (platform : ListenerPlatform) where
  abbrev pub finish_parse : Option (NodeListenerConfig × List String) → Result NodeListenerConfig
  finish_parse none = err node_listener_config_invalid
  finish_parse (some (config, seen)) = do
    require (length seen == 4) node_listener_config_invalid
    validate_listener platform config
    ok config

  -- `ParseNodeListenerConfig`
  unfoldable pub parse_listener : String → Result NodeListenerConfig
  parse_listener payload = do
    require (leb (byte_length payload) 4096) node_listener_config_invalid
    finish_parse (document_fields (platform.read_json payload))
