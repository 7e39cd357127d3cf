-- ===== src/Updater/Target.antt =====
-- The tables of operations, capabilities and mutations, and the targets of a command, of
-- pkg/contracts/updater_runtime_validation.go.
use autostream_contracts.Common.{
  String, Bool, false, not, ◌&&◌, ◌||◌, Option, none, some, pos, leb_ℤ, ◌==◌, ℤ_eq, String_eq,
  Bool_eq, is_nil, if◌then◌else◌, succeeds,
}
use autostream_contracts.Text.{valid_updater_identifier, matches_host_id, matches_raw_sha256}
use autostream_contracts.Text.Digest.{Sha256}
use autostream_contracts.Port.Types.{
  SystemUpdatePortReconfiguration, SystemUpdateDockerPortReconfiguration,
}
use autostream_contracts.Port.Snapshot.{valid_application_service_type, valid_deployment_mode}
use autostream_contracts.Port.Plan.{validate_plan}
use autostream_contracts.Port.ServiceType
use autostream_contracts.Port.Deployment
use autostream_contracts.Updater.Types.{UpdaterTargetIdentity}
use autostream_contracts.Updater.Capability
use autostream_contracts.Updater.Desired
use autostream_contracts.Updater.Mutation
use autostream_contracts.Updater.TargetKind

-- `updaterCapabilityForOperation`
unfoldable pub capability_for_operation : String → Option String
capability_for_operation operation =
    if operation == Desired.software_update
    then some Capability.update
    else if operation == Desired.bootstrap
    then some Capability.bootstrap
    else if operation == Desired.port_reconfigure
    then some Capability.port
    else if operation == Desired.host_self_update
    then some Capability.self_update
    else none

-- `validUpdaterMutationForDesired`
unfoldable pub valid_mutation_for_desired : String → String → Bool
valid_mutation_for_desired mutation desired =
    if desired == Desired.software_update
    then mutation == Mutation.apply || mutation == Mutation.reconcile
    else if desired == Desired.port_reconfigure
    then mutation == Mutation.port_reconfigure || mutation == Mutation.port_reconfigure_reconcile
    else if desired == Desired.bootstrap
    then mutation == Mutation.bootstrap || mutation == Mutation.bootstrap_reconcile
    else if desired == Desired.host_self_update
    then mutation == Mutation.host_self_update_stage
      || mutation == Mutation.host_self_update_activate
      || mutation == Mutation.host_self_update_reconcile
    else false

-- What the cases of `update_agent` and of `host_runtime` ask alike.
unfoldable pub valid_host_target : UpdaterTargetIdentity → String → Bool
valid_host_target target host_id =
    target.service_type == ServiceType.update_agent
    && target.deployment_mode == Deployment.systemd
    && target.expected_config_revision == pos 0
    && matches_host_id target.execution_host_id
    && target.execution_host_id == host_id

-- `validUpdaterTargetForOperation`
unfoldable pub valid_target_for_operation : UpdaterTargetIdentity → String → String → Bool
valid_target_for_operation target operation host_id =
    valid_updater_identifier target.service_id
    && valid_deployment_mode target.deployment_mode
    && (if target.target_kind == TargetKind.application
        then (operation == Desired.software_update || operation == Desired.port_reconfigure)
          && valid_application_service_type target.service_type
          && leb_ℤ (pos 1) target.expected_config_revision
          && target.execution_host_id == ""
        else if target.target_kind == TargetKind.update_agent
        then operation == Desired.bootstrap && valid_host_target target host_id
        else if target.target_kind == TargetKind.host_runtime
        then operation == Desired.host_self_update && valid_host_target target host_id
        else false)

abbrev legacy_docker_ports : Option SystemUpdateDockerPortReconfiguration → Bool
legacy_docker_ports none = false
legacy_docker_ports (some docker) =
    docker.old_health_port == docker.old_published_port
    && docker.new_health_port == docker.new_published_port

-- The part of `validUpdaterPortTargetBinding` for a legacy plan.
unfoldable pub legacy_port_target_binding :
    UpdaterTargetIdentity → SystemUpdatePortReconfiguration → Bool
legacy_port_target_binding target plan =
    if target.deployment_mode == Deployment.systemd
    then is_nil plan.docker && leb_ℤ (pos 1024) plan.old_port && leb_ℤ (pos 1024) plan.new_port
    else if target.deployment_mode == Deployment.docker
    then legacy_docker_ports plan.docker
    else false

module _ (sha : Sha256) where
  -- `validUpdaterPortTargetBinding`
  unfoldable pub valid_port_target_binding :
      UpdaterTargetIdentity → Option SystemUpdatePortReconfiguration → Bool
  valid_port_target_binding target none = false
  valid_port_target_binding target (some plan) =
      matches_raw_sha256 plan.port_plan_sha256
      && (if plan.port_contract_version == pos 2
          then not (target.service_type == ServiceType.control_panel)
            && not (target.service_type == ServiceType.update_agent)
            && succeeds (validate_plan sha plan)
            && (target.deployment_mode == Deployment.docker) == not (is_nil plan.docker_baseline)
          else legacy_port_target_binding target plan)
