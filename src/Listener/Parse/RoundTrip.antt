-- ===== src/Listener/Parse/RoundTrip.antt =====
-- What is marshalled parses back.
use Prim.Native.String
use autostream_contracts.Common.{
  ◌≡◌, String, true, false, Option, some, [], ◌∷◌, ℤ, pos, ◌≤◌, arith, ok, pass, contains, ap, ◌∙◌,
  List, le→leb, String_eq, refl, then_ok,
}
use autostream_contracts.Text.{byte_length}
use autostream_contracts.Json.{Json, number, text, Members, no_members, member}
use autostream_contracts.Json.Canonical.{◌>>=◌}
use autostream_contracts.Listener.{
  NodeListenerConfig, ListenerPlatform, listener_json, validate_listener, marshal_listener,
}
use autostream_contracts.Listener.Parse.{
  set_field, set_fields, no_config, document_fields, parse_listener, decode_integer, in_int64,
}

set_integer : (old v : ℤ) → in_int64 v ≡ true → decode_integer old (number v) ≡ some v
set_integer old v h = rw h refl

set_schema_version :
    (config : NodeListenerConfig) (v : ℤ)
    → in_int64 v ≡ true
    → set_field config "schema_version" (number v) ≡ some (record config { schema_version = v })
unfolding set_field
set_schema_version config v h =
    ap (λ (o : Option ℤ). o >>= λ v. some (record config { schema_version = v }))
      (set_integer config.schema_version v h)

set_config_revision :
    (config : NodeListenerConfig) (v : ℤ)
    → in_int64 v ≡ true
    → set_field config "config_revision" (number v) ≡ some (record config { config_revision = v })
unfolding set_field
set_config_revision config v h =
    ap (λ (o : Option ℤ). o >>= λ v. some (record config { config_revision = v }))
      (set_integer config.config_revision v h)

set_next :
    (config next : NodeListenerConfig) (seen : List String) (field : String) (value : Json)
    (ms : Members)
    → contains seen field ≡ false
    → set_field config field value ≡ some next
    → set_fields config seen (member field value ms) ≡ set_fields next (field ∷ seen) ms
unfolding set_fields
set_next config next seen field value ms h e = ground (arith, h, e)

four_fields :
    (config : NodeListenerConfig)
    → in_int64 config.schema_version ≡ true
    → in_int64 config.config_revision ≡ true
    → document_fields (some (listener_json config))
      ≡ some (config, "config_revision" ∷ "bind_address" ∷ "service_type" ∷ "schema_version" ∷ [])
unfolding listener_json set_fields set_field contains
four_fields config a b =
    let first = record no_config { schema_version = config.schema_version } in
    let third = record config { config_revision = pos 0 } in
    let last = member "config_revision" (number config.config_revision) no_members in
    set_next no_config first [] "schema_version" (number config.schema_version)
      (member "service_type" (text config.service_type)
        (member "bind_address" (text config.bind_address) last))
      refl (set_schema_version no_config config.schema_version a)
    ∙ set_next third config ("bind_address" ∷ "service_type" ∷ "schema_version" ∷ [])
        "config_revision" (number config.config_revision) no_members refl
        (set_config_revision third config.config_revision b)

module _ (platform : ListenerPlatform) (config : NodeListenerConfig) (payload : String) where
  marshal_parts :
      marshal_listener platform config ≡ ok payload
      → (validate_listener platform config ≡ pass)
        × (String.◌++◌ (platform.json_text (listener_json config)) "\n" ≡ payload)
  unfolding marshal_listener
  marshal_parts h = then_ok (validate_listener platform config) _ payload h

  -- A configuration that was marshalled parses back to itself, where its integers are int64 values,
  -- the text is one that encoding/json reads back, and it has 4096 bytes at most.
  pub parse_listener-marshal_listener :
      in_int64 config.schema_version ≡ true
      → in_int64 config.config_revision ≡ true
      → platform.read_json payload ≡ some (listener_json config)
      → byte_length payload ≤ 4096
      → marshal_listener platform config ≡ ok payload
      → parse_listener platform payload ≡ ok config
  unfolding parse_listener
  parse_listener-marshal_listener a b reads short h =
      let (valid, made) = marshal_parts h in
      rw (le→leb (byte_length payload) 4096 short)
        (rw reads (rw (four_fields config a b) (rw valid refl)))
