-- ===== src/Listener.antt =====
-- The listener configuration of a Node, pkg/contracts/node_listener_config.go, and
-- `SystemUpdatePortListenerConfig` of system_update_port_v2.go.
pub mod Parse
pub mod Samples
pub mod Tests
use Prim.Native.String
use autostream_contracts.Common.{
  ℕ, String, Bool, false, not, ◌&&◌, ◌||◌, Option, none, some, [], ◌∷◌, ℤ, pos, leb, leb_ℤ, ◌==◌,
  ℕ_eq, ℤ_eq, String_eq, if◌then◌else◌, Check, Result, ok, require, ◌>>◌,
  node_listener_config_invalid, system_update_port_contract,
}
use autostream_contracts.Json.{Json, number, text, object, members, keep}
use autostream_contracts.Json.Decimal.{decimal_ℤ}
use autostream_contracts.Port.ServiceType
use autostream_contracts.Port.Deployment
use autostream_contracts.Port.Snapshot.{
  valid_revision, valid_port, valid_application_service_type, valid_deployment_mode,
}

-- What `netip.ParseAddrPort` found: the port, the zone, and the canonical spelling.
pub record AddrPort : Type 0 where
  pub port : ℕ
  pub zone : String
  pub spelling : String

-- What the configuration calls outside the package: `netip.ParseAddrPort`, `json.Marshal` on a
-- structure that cannot fail, and the reading of one JSON document to its end, which keeps the
-- members of an object in order and with repetitions.
pub record ListenerPlatform : Type 0 where
  pub parse_addr_port : String → Option AddrPort
  pub json_text : Json → String
  pub read_json : String → Option Json

pub record NodeListenerConfig : Type 0 where
  pub schema_version : ℤ
  pub service_type : String
  pub bind_address : String
  pub config_revision : ℤ

abbrev address_valid : Option AddrPort → String → Bool
address_valid none bind_address = false
address_valid (some address) bind_address =
    leb 1024 address.port && address.zone == "" && address.spelling == bind_address

unfoldable pub listener_json : NodeListenerConfig → Json
listener_json config = object (
    members (
      keep "schema_version" (number config.schema_version)
      ∷ keep "service_type" (text config.service_type)
      ∷ keep "bind_address" (text config.bind_address)
      ∷ keep "config_revision" (number config.config_revision)
      ∷ []))

module _ (platform : ListenerPlatform) where
  -- `NodeListenerConfig.Validate`
  unfoldable pub validate_listener : NodeListenerConfig → Check
  validate_listener config = do
    require (config.schema_version == pos 2 && leb_ℤ (pos 1) config.config_revision)
        node_listener_config_invalid
    require
        (config.service_type == "worker"
          || config.service_type == "encoder_recorder"
          || config.service_type == "discord_bot"
          || config.service_type == "observability")
        node_listener_config_invalid
    require (address_valid (platform.parse_addr_port config.bind_address) config.bind_address)
        node_listener_config_invalid

  -- `MarshalNodeListenerConfig`
  unfoldable pub marshal_listener : NodeListenerConfig → Result String
  marshal_listener config = do
    validate_listener config
    ok (String.◌++◌ (platform.json_text (listener_json config)) "\n")

  -- `SystemUpdatePortListenerConfig`
  unfoldable pub listener_config : String → String → ℤ → ℤ → Result String
  listener_config service_type deployment port revision = do
    require
        (not (service_type == ServiceType.control_panel)
          && valid_application_service_type service_type
          && valid_port port (pos 1024)
          && valid_revision revision
          && valid_deployment_mode deployment)
        system_update_port_contract
    marshal_listener (record {
      schema_version = pos 2;
      service_type = service_type;
      bind_address =
          String.◌++◌ (if deployment == Deployment.docker then "0.0.0.0" else "127.0.0.1")
            (String.◌++◌ ":" (decimal_ℤ port));
      config_revision = revision;
    })
