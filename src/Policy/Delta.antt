-- ===== src/Policy/Delta.antt =====
-- `ApplySystemUpdatePortPolicyDelta` of pkg/contracts/system_update_port_policy.go.
pub mod Change
pub mod Replaces
pub mod Applied
pub mod Valid
use autostream_contracts.Policy.Target.{root_target_matches_ref, changed_docker, changed_target}
use autostream_contracts.Policy.Allowed.{delta_step, delta_allowed}
use autostream_contracts.Common.{
  String, Bool, true, false, not, ◌&&◌, ◌||◌, Option, none, some, List, [], ◌∷◌, ℤ, pos, leb, leb_ℤ,
  add64, sub64, ◌==◌, ℤ_eq, String_eq, Bool_eq, is_nil, if◌then◌else◌, Result, ok, err,
}
use autostream_contracts.Text.{byte_length, valid_updater_identifier, matches_digest, trim_prefix}
use autostream_contracts.Text.Digest.{compute_bytes_sha256}
use autostream_contracts.Port.Types.{
  SystemUpdatePortSnapshotRef, SystemUpdatePortDockerSnapshot, snapshot_ref_eq,
}
use autostream_contracts.Port.ServiceType
use autostream_contracts.Port.Snapshot.{
  valid_revision, valid_port, valid_docker_snapshot, local_equal,
}
use autostream_contracts.Port.DockerConfig.{docker_config}
use autostream_contracts.Listener.{listener_config}
use autostream_contracts.Policy.Root.{
  PortRootEndpoint, PortRootDocker, PortRootTarget, PortRootPolicy, PolicyPlatform, max_bytes,
  decode_root_policy,
}

-- How one round of the loop ends: it returns, with bytes or its error, or it has changed its target.
pub data Round : Type 0 where
  returns : Option String → Round
  changes : PortRootTarget → Round

-- How the loop ends: it has returned, or here are the targets and whether one matched.
pub data LoopEnd : Type 0 where
  returned : Option String → LoopEnd
  finished : List PortRootTarget → Bool → LoopEnd

abbrev pub with_target : PortRootTarget → Bool → LoopEnd → LoopEnd
with_target target here (returned result) = returned result
with_target target here (finished targets matched) = finished (target ∷ targets) (here || matched)

abbrev is_config : (String → String) → Result String → String → Bool
is_config digest (ok config) expected = digest config == expected
is_config digest (err e) expected = false

abbrev pub change_round :
    PortRootTarget → SystemUpdatePortSnapshotRef → Option (Option PortRootDocker) → Round
change_round target after none = returns none
change_round target after (some docker) = changes (changed_target target after docker)

abbrev pub after_round : Round → LoopEnd → LoopEnd
after_round (returns result) rest = returned result
after_round (changes target) rest = with_target target true rest

abbrev pub delta_policy :
    PortRootPolicy → SystemUpdatePortSnapshotRef → List PortRootTarget → PortRootPolicy
delta_policy policy after targets = record policy {
  source_policy_revision = after.source_policy_revision;
  projection_revision = after.projection_revision;
  policy_revision = after.executor_policy_revision;
  targets = targets;
}

module _ (platform : PolicyPlatform) where
  abbrev pub new_config :
      PortRootTarget
      → SystemUpdatePortSnapshotRef
      → Option SystemUpdatePortDockerSnapshot
      → Result String
  new_config target after (some docker) =
      docker_config target.service_type docker.published_port docker.container_port
        after.config_revision
  new_config target after none =
      listener_config platform.listener target.service_type target.deployment_mode
        after.local_listen_port after.config_revision

  -- A round for the target of the service.
  unfoldable pub delta_round :
      String → SystemUpdatePortSnapshotRef → SystemUpdatePortSnapshotRef → PortRootTarget → Round
  delta_round payload before after target =
      let step = delta_step before after in
      if target.service_type == ServiceType.control_panel
        || not (root_target_matches_ref target before)
      then returns none
      else if step == pos 0
      then returns (if before == after then some payload else none)
      else if step == pos 2 && not (local_equal before after)
      then returns none
      else if is_config (compute_bytes_sha256 platform.sha) (new_config target after after.docker)
          after.config_sha256
      then change_round target after
          (changed_docker target.docker before.docker after.docker after.local_listen_port step)
      else returns none

  -- The loop over the targets.
  unfoldable pub delta_targets :
      String
      → String
      → SystemUpdatePortSnapshotRef
      → SystemUpdatePortSnapshotRef
      → List PortRootTarget
      → LoopEnd
  delta_targets payload service_id before after [] = finished [] false
  delta_targets payload service_id before after (target ∷ targets) =
      let rest = delta_targets payload service_id before after targets in
      if target.service_id == service_id
      then after_round (delta_round payload before after target) rest
      else with_target target false rest

  abbrev pub within_limits : Option String → String → Option String
  within_limits none expected = none
  within_limits (some result) expected =
      if leb (byte_length result) max_bytes
        && (expected == "" || compute_bytes_sha256 platform.sha result == expected)
      then some result
      else none

  -- After the loop.
  abbrev pub finish_delta : PortRootPolicy → SystemUpdatePortSnapshotRef → LoopEnd → Option String
  finish_delta policy after (returned result) = result
  finish_delta policy after (finished targets false) = none
  finish_delta policy after (finished targets true) =
      within_limits (platform.marshal_root (delta_policy policy after targets))
        after.executor_policy_sha256

  -- The first test.
  unfoldable pub delta_starts :
      String → String → SystemUpdatePortSnapshotRef → PortRootPolicy → Bool
  delta_starts payload service_id before policy =
      valid_updater_identifier service_id
      && compute_bytes_sha256 platform.sha payload == before.executor_policy_sha256
      && policy.source_policy_revision == before.source_policy_revision
      && policy.projection_revision == before.projection_revision
      && policy.policy_revision == before.executor_policy_revision

  abbrev pub delta_of :
      String
      → String
      → SystemUpdatePortSnapshotRef
      → SystemUpdatePortSnapshotRef
      → Option PortRootPolicy
      → Option String
  delta_of payload service_id before after none = none
  delta_of payload service_id before after (some policy) =
      if delta_starts payload service_id before policy && delta_allowed before after
      then finish_delta policy after (delta_targets payload service_id before after policy.targets)
      else none

  -- `ApplySystemUpdatePortPolicyDelta`, `none` for its error.
  unfoldable pub apply_policy_delta :
      String → String → SystemUpdatePortSnapshotRef → SystemUpdatePortSnapshotRef → Option String
  apply_policy_delta payload service_id before after =
      delta_of payload service_id before after (decode_root_policy platform payload)
