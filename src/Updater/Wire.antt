-- ===== src/Updater/Wire.antt =====
-- The JSON form of what a command's digest covers: the `json` tags of the structures in
-- pkg/contracts/types_updater_protocol.go and types_host_policy.go. `time.Time.MarshalJSON` is a
-- parameter, which fails on a year of more than four digits.
pub mod Read
pub mod Operation
use autostream_contracts.Json.Canonical.{◌>>=◌}
use autostream_contracts.Common.{Option, none, some, String, [], ◌∷◌}
use autostream_contracts.Json.{
  Json, number, text, object, members, keep, omit_text, omit_number, omit_nil,
}
use autostream_contracts.Port.Types.{Timestamp}
use autostream_contracts.Port.Wire.{plan_json}
use autostream_contracts.Updater.Types.{
  UpdaterSoftwareUpdateDesiredOperation, UpdaterBootstrapDesiredOperation,
  HostSelfUpdateReleaseBinding, HostAgentSelfUpdateDirective, UpdaterDesiredOperation,
  UpdaterTargetIdentity,
}

unfoldable pub target_json : UpdaterTargetIdentity → Json
target_json t = object (
    members (
      keep "target_kind" (text t.target_kind)
      ∷ keep "service_id" (text t.service_id)
      ∷ keep "service_type" (text t.service_type)
      ∷ keep "deployment_mode" (text t.deployment_mode)
      ∷ omit_number "expected_config_revision" t.expected_config_revision
      ∷ omit_text "execution_host_id" t.execution_host_id
      ∷ []))

unfoldable pub software_update_json : UpdaterSoftwareUpdateDesiredOperation → Json
software_update_json d = object (
    members (
      keep "expected_current_version" (text d.expected_current_version)
      ∷ keep "target_version" (text d.target_version)
      ∷ keep "strategy" (text d.strategy)
      ∷ []))

unfoldable pub bootstrap_json : UpdaterBootstrapDesiredOperation → Json
bootstrap_json d = object (
    members (
      keep "expected_state" (text d.expected_state)
      ∷ keep "target_version" (text d.target_version)
      ∷ []))

unfoldable pub release_json : String → HostSelfUpdateReleaseBinding → Json
release_json published_at r = object (
    members (
      keep "tag" (text r.tag)
      ∷ keep "commit" (text r.commit)
      ∷ keep "published_at" (text published_at)
      ∷ keep "manifest_asset_id" (number r.manifest_asset_id)
      ∷ keep "manifest_asset_name" (text r.manifest_asset_name)
      ∷ keep "manifest_sha256" (text r.manifest_sha256)
      ∷ keep "manifest_checksum_asset_id" (number r.manifest_checksum_asset_id)
      ∷ keep "manifest_checksum_sha256" (text r.manifest_checksum_sha256)
      ∷ keep "archive_asset_id" (number r.archive_asset_id)
      ∷ keep "archive_asset_name" (text r.archive_asset_name)
      ∷ keep "archive_size" (number r.archive_size)
      ∷ keep "archive_sha256" (text r.archive_sha256)
      ∷ keep "archive_checksum_asset_id" (number r.archive_checksum_asset_id)
      ∷ keep "archive_checksum_sha256" (text r.archive_checksum_sha256)
      ∷ keep "arch" (text r.arch)
      ∷ keep "agent_protocol_version" (number r.agent_protocol_version)
      ∷ keep "executor_protocol_version" (number r.executor_protocol_version)
      ∷ keep "mutation_protocol_version" (number r.mutation_protocol_version)
      ∷ keep "recovery_protocol_version" (number r.recovery_protocol_version)
      ∷ keep "minimum_panel_version" (text r.minimum_panel_version)
      ∷ []))

module _ (marshal_time : Timestamp → Option String) where
  unfoldable pub self_update_json : HostAgentSelfUpdateDirective → Option Json
  self_update_json d = do
    published_at ← marshal_time d.release.published_at
    staged_at ← marshal_time d.staged_at
    some (
        object (
          members (
            keep "generation" (text d.generation)
            ∷ keep "agent_version" (text d.agent_version)
            ∷ keep "executor_version" (text d.executor_version)
            ∷ keep "commit" (text d.commit)
            ∷ keep "artifact_sha256" (text d.artifact_sha256)
            ∷ keep "agent_protocol_version" (number d.agent_protocol_version)
            ∷ keep "executor_protocol_version" (number d.executor_protocol_version)
            ∷ keep "mutation_protocol_version" (number d.mutation_protocol_version)
            ∷ keep "recovery_protocol_version" (number d.recovery_protocol_version)
            ∷ keep "release" (release_json published_at d.release)
            ∷ keep "staged_at" (text staged_at)
            ∷ [])))

  abbrev pub self_update_member :
      Option HostAgentSelfUpdateDirective → Option (Option (String × Json))
  self_update_member none = some none
  self_update_member (some d) = do
    document ← self_update_json d
    some (keep "host_self_update" document)

  unfoldable pub desired_operation_json : UpdaterDesiredOperation → Option Json
  desired_operation_json d = do
    host_self_update ← self_update_member d.host_self_update
    some (
        object (
          members (
            keep "operation" (text d.operation)
            ∷ omit_nil "software_update" software_update_json d.software_update
            ∷ omit_nil "bootstrap" bootstrap_json d.bootstrap
            ∷ omit_nil "port_reconfigure" plan_json d.port_reconfigure
            ∷ host_self_update
            ∷ [])))
