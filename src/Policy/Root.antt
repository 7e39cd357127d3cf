-- ===== src/Policy/Root.antt =====
-- The root policy of the Local Executor and `decodeSystemUpdatePortRootPolicy`, of
-- pkg/contracts/system_update_port_policy.go. A deployment profile of systemd is an opaque text, ""
-- where there is none.
use Prim.Native.Char.{code}
use autostream_contracts.Common.{
  ℕ, String, Bool, true, false, not, ◌&&◌, ◌||◌, Option, none, some, List, [], ℤ, pos, leb, length,
  ◌+◌, ◌==◌, ℕ_eq, ℤ_eq, String_eq, Bool_eq, is_nil, if◌then◌else◌, loop_distinct,
}
use autostream_contracts.Text.{byte_length, valid_updater_identifier, matches_digest, is_upper}
use autostream_contracts.Text.Bytes.{no_edge_space}
use autostream_contracts.Text.Digest.{Sha256}
use autostream_contracts.Json.{Json}
use autostream_contracts.Json.Strict.{decode_strict}
use autostream_contracts.Listener.{ListenerPlatform}
use autostream_contracts.Port.Snapshot.{valid_revision, valid_port, valid_application_service_type}

pub record PortRootMutation : Type 0 where
  pub panel_url : String

pub record PortRootEndpoint : Type 0 where
  pub host : String
  pub port : ℤ

pub record PortRootDocker : Type 0 where
  pub docker_path : String
  pub compose_project : String
  pub project_dir : String
  pub compose_files : List String
  pub service : String
  pub image_repo : String
  pub image_variable : String
  pub base_env_file : String
  pub version_env_file : String
  pub port_env_file : String
  pub compose_config_sha256 : String
  pub port_compose_policy_sha256 : String
  pub port_compose_revision : ℤ
  pub current_version : String
  pub channel : String

pub record PortRootTarget : Type 0 where
  pub service_id : String
  pub service_type : String
  pub deployment_mode : String
  pub database_name : String
  pub endpoint_revision : ℤ
  pub config_revision : ℤ
  pub config_sha256 : String
  pub local_listen_endpoint : PortRootEndpoint
  pub systemd : String
  pub docker : Option PortRootDocker

pub record PortRootPolicy : Type 0 where
  pub schema_version : ℤ
  pub protocol_version : ℤ
  pub host_id : String
  pub agent_uid : ℕ
  pub agent_gid : ℕ
  pub socket_path : String
  pub source_policy_revision : ℤ
  pub projection_revision : ℤ
  pub policy_revision : ℤ
  pub mutation : Option PortRootMutation
  pub targets : List PortRootTarget

-- `url.URL`, what the validator reads of it.
pub record Url : Type 0 where
  pub scheme : String
  pub host : String
  pub hostname : String
  pub has_user : Bool
  pub raw_query : String
  pub fragment : String

-- What the policies call outside the package: SHA-256, the calls of a listener configuration,
-- encoding/json for the reading of a document, its decoding into a root policy and the encoding of
-- one, `url.Parse`, and `net.ParseIP` with what `IsLoopback` says of the address.
pub record PolicyPlatform : Type 0 where
  pub sha : Sha256
  pub listener : ListenerPlatform
  pub read_json : String → Option Json
  pub decode_root : Json → Option PortRootPolicy
  pub marshal_root : PortRootPolicy → Option String
  pub parse_url : String → Option Url
  pub loopback_address : String → Option Bool

abbrev pub max_bytes : ℕ
max_bytes = 1048576

-- `strings.EqualFold` with "localhost": its letters fold to themselves, to the capitals, and s to a
-- long s.
abbrev pub fold_localhost : ℕ → ℕ
fold_localhost c = if is_upper c then c + 32 else if c == 0x17f then b's' else c

unfoldable pub folds_to : String → String → Bool
folds_to String.[] String.[] = true
folds_to String.[] (String.◌∷◌ d t) = false
folds_to (String.◌∷◌ c s) String.[] = false
folds_to (String.◌∷◌ c s) (String.◌∷◌ d t) = fold_localhost (code c) == code d && folds_to s t

abbrev is_loopback : Option Bool → String → Bool
is_loopback (some loopback) hostname = loopback
is_loopback none hostname = folds_to hostname "localhost"

abbrev pub url_accepted : (String → Option Bool) → Option Url → Bool
url_accepted loopback_address none = false
url_accepted loopback_address (some origin) =
    not (origin.host == "")
    && not origin.has_user
    && origin.raw_query == ""
    && origin.fragment == ""
    && (origin.scheme == "https"
        || origin.scheme == "http"
          && is_loopback (loopback_address origin.hostname) origin.hostname)

-- The loop's test, less the one of the services that were seen.
unfoldable pub root_target : PortRootTarget → Bool
root_target target =
    valid_updater_identifier target.service_id
    && valid_application_service_type target.service_type
    && valid_revision target.endpoint_revision
    && valid_revision target.config_revision
    && matches_digest target.config_sha256
    && target.local_listen_endpoint.host == "127.0.0.1"
    && valid_port target.local_listen_endpoint.port (pos 1024)
    && (if target.deployment_mode == "systemd"
        then not (target.systemd == "") && is_nil target.docker
        else if target.deployment_mode == "docker"
        then target.systemd == "" && not (is_nil target.docker)
        else false)

abbrev pub root_service : PortRootTarget → String
root_service target = target.service_id

-- The first test, less the one of the encoding.
unfoldable pub root_fields : PortRootPolicy → Bool
root_fields policy =
    policy.schema_version == pos 2
    && policy.protocol_version == pos 2
    && valid_updater_identifier policy.host_id
    && not (policy.agent_uid == 0)
    && not (policy.agent_gid == 0)
    && policy.socket_path == "/run/autostream-local-executor/executor.sock"
    && not (is_nil policy.mutation)
    && valid_revision policy.source_policy_revision
    && valid_revision policy.projection_revision
    && valid_revision policy.policy_revision
    && leb 1 (length policy.targets)
    && leb (length policy.targets) 1024

abbrev pub is_text : Option String → String → Bool
is_text none payload = false
is_text (some canonical) payload = canonical == payload

module _ (platform : PolicyPlatform) where
  abbrev pub origin_valid : Option PortRootMutation → Bool
  origin_valid none = false
  origin_valid (some mutation) =
      url_accepted platform.loopback_address (platform.parse_url mutation.panel_url)
      && no_edge_space mutation.panel_url

  -- What the decoder asks of a policy, apart from its bytes.
  unfoldable pub root_valid : PortRootPolicy → Bool
  root_valid policy =
      root_fields policy
      && origin_valid policy.mutation
      && loop_distinct root_service root_target [] policy.targets

  abbrev pub canonical_root : String → Option (PortRootPolicy × Json) → Option PortRootPolicy
  canonical_root payload none = none
  canonical_root payload (some (policy, document)) =
      if is_text (platform.marshal_root policy) payload && root_valid policy
      then some policy
      else none

  -- `decodeSystemUpdatePortRootPolicy`
  unfoldable pub decode_root_policy : String → Option PortRootPolicy
  decode_root_policy payload =
      if leb 1 (byte_length payload) && leb (byte_length payload) max_bytes
      then canonical_root payload (decode_strict platform.read_json platform.decode_root payload)
      else none
