-- ===== src/Updater/Command.antt =====
-- `ValidateUpdaterCommand` and the digest of a command, of
-- pkg/contracts/updater_runtime_validation.go.
pub mod Preimage
pub mod Digest
use autostream_contracts.Common.{
  String, Bool, true, false, not, ◌&&◌, ◌||◌, Option, none, some, [], ◌∷◌, ℤ, pos, leb_ℤ, ◌==◌,
  ℤ_eq, String_eq, is_nil, if◌then◌else◌, Check, Result, ok, err, pass, require, or_fail, succeeds,
  ◌>>=◌, ◌>>◌, updater_command_invalid, updater_canonical_json_invalid, updater_desired_schema,
}
use autostream_contracts.Text.{
  valid_updater_identifier, matches_host_id, matches_nonce, matches_digest,
  valid_updater_idempotency_key,
}
use autostream_contracts.Text.Digest.{compute_bytes_sha256}
use autostream_contracts.Json.{Json, number, object, members, keep}
use autostream_contracts.Json.Canonical.{canonical}
use autostream_contracts.Port.Types.{SystemUpdatePortReconfiguration, SystemUpdatePortSnapshotRef}
use autostream_contracts.Port.Plan.{validate_plan}
use autostream_contracts.Updater.Types.{
  UpdaterSoftwareUpdateDesiredOperation, UpdaterDesiredOperation, UpdaterTargetIdentity,
  UpdaterMutationAuthorization, UpdaterCommandEnvelope,
}
use autostream_contracts.Updater.Platform.{Platform}
use autostream_contracts.Updater.Wire.{target_json, desired_operation_json}
use autostream_contracts.Updater.Target.{
  capability_for_operation, valid_target_for_operation, valid_port_target_binding,
}
use autostream_contracts.Updater.Desired

-- An option's value, or an error.
abbrev pub or_error {ℓ} : {A : Type ℓ} → Option A → Result A
or_error none = err updater_canonical_json_invalid
or_error (some a) = ok a

-- The first test of `ValidateUpdaterCommand`.
unfoldable pub command_fields : UpdaterCommandEnvelope → Bool
command_fields command =
    command.protocol_version == pos 2
    && valid_updater_identifier command.command_id
    && valid_updater_idempotency_key command.idempotency_key
    && valid_updater_identifier command.audit_correlation_id
    && command.issuer.service_type == "control_panel"
    && command.issuer.authentication == "assignment_bound_rotating_service_identity"
    && command.issuer.permission == "updates.authorize"
    && valid_updater_identifier command.issuer.service_id

-- The second.
unfoldable pub authorization_fields : UpdaterMutationAuthorization → Bool
authorization_fields authorization =
    valid_updater_identifier authorization.authorization_id
    && matches_nonce authorization.nonce_id
    && valid_updater_identifier authorization.job_id
    && valid_updater_identifier authorization.updater_id
    && matches_host_id authorization.host_id
    && leb_ℤ (pos 1) authorization.desired_revision
    && leb_ℤ (pos 1) authorization.fence
    && not (authorization.expires_at == pos 0)
    && authorization.one_time

-- Both capabilities are the one of the operation.
unfoldable pub capability_matches : UpdaterMutationAuthorization → String → Bool
capability_matches authorization operation = elim (capability_for_operation operation) [
  | none ↦ false
  | some expected ↦
      authorization.action_type == expected && authorization.required_capability == expected
]

abbrev versions_differ : Option UpdaterSoftwareUpdateDesiredOperation → Bool
versions_differ none = true
versions_differ (some update) = not (update.expected_current_version == update.target_version)

-- A plan of version 0 has none of the members of version 2.
unfoldable pub legacy_plan : SystemUpdatePortReconfiguration → Bool
legacy_plan plan =
    plan.port_contract_version == pos 0
    && plan.mode == ""
    && is_nil plan.before
    && is_nil plan.target
    && is_nil plan.rollback
    && is_nil plan.docker_baseline
    && plan.result == ""
    && not (plan.old_port == plan.new_port)

-- The revisions of B and T. For a missing one the code would panic: a desired operation that the
-- schema and the plan's validator accepted has both.
abbrev pub plan_revisions :
    Option SystemUpdatePortSnapshotRef
    → Option SystemUpdatePortSnapshotRef
    → UpdaterMutationAuthorization
    → Bool
plan_revisions (some b) (some t) authorization =
    authorization.desired_revision == t.config_revision
    && authorization.target.expected_config_revision == b.config_revision
plan_revisions _ _ _ = false

abbrev pub revisions_match :
    Option SystemUpdatePortReconfiguration → UpdaterMutationAuthorization → Bool
revisions_match none authorization = true
revisions_match (some plan) authorization =
    if plan.port_contract_version == pos 2
    then plan_revisions plan.before plan.target authorization
    else true

module _ (platform : Platform) where
  -- `ComputeUpdaterCommandCanonicalDigest`
  unfoldable pub compute_command_digest :
      UpdaterTargetIdentity → ℤ → ℤ → UpdaterDesiredOperation → Result String
  compute_command_digest target desired_revision fence desired_operation = do
    require (leb_ℤ (pos 1) desired_revision && leb_ℤ (pos 1) fence) updater_canonical_json_invalid
    desired_document ← or_error (desired_operation_json platform.marshal_time desired_operation)
    body ← or_error (
        canonical (
          object (
            members (
              keep "target" (target_json target)
              ∷ keep "desired_revision" (number desired_revision)
              ∷ keep "fence" (number fence)
              ∷ keep "desired_operation" desired_document
              ∷ []))))
    ok (compute_bytes_sha256 platform.sha body)

  -- The last part of `validateUpdaterDesiredOperation`, for a port change.
  abbrev pub validate_desired_plan : Option SystemUpdatePortReconfiguration → Check
  validate_desired_plan none = pass
  validate_desired_plan (some plan) =
      if plan.port_contract_version == pos 2
      then validate_plan platform.sha plan
      else require (legacy_plan plan) updater_command_invalid

  abbrev schema_accepts : Option (Json → Bool) → UpdaterDesiredOperation → Check
  schema_accepts none desired = err updater_desired_schema
  schema_accepts (some accepts) desired =
      elim (desired_operation_json platform.marshal_time desired) [
        | none ↦ err updater_command_invalid
        | some document ↦ require (accepts document) updater_command_invalid
      ]

  -- `validateUpdaterDesiredOperation`
  unfoldable pub validate_desired_operation : UpdaterDesiredOperation → Check
  validate_desired_operation desired = do
    schema_accepts platform.desired_schema desired
    require
        (not (desired.operation == Desired.software_update)
          || versions_differ desired.software_update)
        updater_command_invalid
    if desired.operation == Desired.port_reconfigure
        then validate_desired_plan desired.port_reconfigure
        else pass

  -- The tests of `ValidateUpdaterCommand` between the second and the digest's.
  unfoldable pub command_binding : UpdaterCommandEnvelope → Bool
  command_binding command =
      let authorization = command.mutation_authorization in
      let desired = command.desired_operation in
      capability_matches authorization desired.operation
      && succeeds (validate_desired_operation desired)
      && valid_target_for_operation authorization.target desired.operation authorization.host_id
      && (not (desired.operation == Desired.port_reconfigure)
          || valid_port_target_binding platform.sha authorization.target desired.port_reconfigure)
      && revisions_match desired.port_reconfigure authorization

  -- The digest of the four bound parts of a command.
  abbrev pub command_digest : UpdaterCommandEnvelope → Result String
  command_digest command =
      let authorization = command.mutation_authorization in
      compute_command_digest authorization.target authorization.desired_revision authorization.fence
        command.desired_operation

  -- `ValidateUpdaterCommand`
  unfoldable pub validate_command : UpdaterCommandEnvelope → Check
  validate_command command = do
    require (command_fields command) updater_command_invalid
    require (authorization_fields command.mutation_authorization) updater_command_invalid
    require (command_binding command) updater_command_invalid
    digest ← or_fail (command_digest command) updater_command_invalid
    require
        (matches_digest command.canonical_payload_digest
          && command.canonical_payload_digest
            == command.mutation_authorization.canonical_argument_digest
          && command.canonical_payload_digest == digest)
        updater_command_invalid
