-- ===== src/Port/Create.antt =====
-- `ValidateSystemUpdatePortCreate` of pkg/contracts/system_update_port_validation.go.
pub mod Inputs
use autostream_contracts.Common.{
  String, Bool, true, false, ◌&&◌, Option, none, some, ℤ, pos, ◌==◌, ℤ_eq, String_eq, is_nil,
  if◌then◌else◌, Check, require, ◌>>◌, system_update_port_contract,
}
use autostream_contracts.Text.{
  valid_updater_identifier, valid_updater_idempotency_key, matches_raw_sha256, has_prefix,
  trim_prefix,
}
use autostream_contracts.Port.Mode
use autostream_contracts.Port.Snapshot.{valid_revision, valid_port}

pub record SystemUpdatePortCreateRequestV2 : Type 0 where
  pub protocol_version : ℤ
  pub operation : String
  pub port_contract_version : ℤ
  pub mode : String
  pub target_id : String
  pub expected_snapshot_id : String
  pub expected_endpoint_revision : ℤ
  pub desired_revision : ℤ
  pub fence : ℤ
  pub required_capability : String
  pub idempotency_key : String
  pub new_local_listen_port : Option ℤ
  pub new_advertised_port : Option ℤ
  pub new_published_port : Option ℤ
  pub new_container_port : Option ℤ

-- The first test.
unfoldable pub create_fields : SystemUpdatePortCreateRequestV2 → Bool
create_fields request =
    request.protocol_version == pos 2
    && request.port_contract_version == pos 2
    && request.operation == "port_reconfigure"
    && valid_updater_identifier request.target_id
    && has_prefix request.expected_snapshot_id "ps1:"
    && matches_raw_sha256 (trim_prefix request.expected_snapshot_id "ps1:")
    && valid_revision request.expected_endpoint_revision
    && valid_revision request.desired_revision
    && valid_revision request.fence
    && request.required_capability == "host.port"
    && valid_updater_idempotency_key request.idempotency_key

-- A port that is given, and not below the lowest.
abbrev pub given_port : Option ℤ → ℤ → Bool
given_port none lowest = false
given_port (some port) lowest = valid_port port lowest

-- The test of the ports to listen on.
unfoldable pub local_inputs : SystemUpdatePortCreateRequestV2 → Bool
local_inputs request =
    if is_nil request.new_local_listen_port
    then given_port request.new_published_port (pos 1024)
      && given_port request.new_container_port (pos 1024)
    else given_port request.new_local_listen_port (pos 1024)
      && is_nil request.new_published_port
      && is_nil request.new_container_port

-- The switch on the mode.
unfoldable pub advertised_inputs : SystemUpdatePortCreateRequestV2 → Bool
advertised_inputs request =
    if request.mode == Mode.local_only
    then is_nil request.new_advertised_port
    else if request.mode == Mode.local_and_advertised
    then given_port request.new_advertised_port (pos 1)
    else false

-- `ValidateSystemUpdatePortCreate`
unfoldable pub validate_create : SystemUpdatePortCreateRequestV2 → Check
validate_create request = do
  require (create_fields request) system_update_port_contract
  require (local_inputs request) system_update_port_contract
  require (advertised_inputs request) system_update_port_contract
