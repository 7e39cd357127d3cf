-- ===== src/Updater/Running.antt =====
-- The definitions that a run of the Updater's validators computes with, for the tests' `unfolding`
-- lines.
use autostream_contracts.Text.{
  valid_updater_identifier, matches_host_id, matches_nonce, valid_updater_idempotency_key,
  byte_length, all_characters, is_printable,
}
use autostream_contracts.Port.Running.{results}
use autostream_contracts.Updater.Wire.{
  target_json, software_update_json, bootstrap_json, release_json, self_update_json,
  desired_operation_json,
}
use autostream_contracts.Updater.Target.{
  capability_for_operation, valid_mutation_for_desired, valid_host_target,
  valid_target_for_operation, legacy_port_target_binding, valid_port_target_binding,
}
use autostream_contracts.Updater.Command.{
  command_fields, authorization_fields, capability_matches, legacy_plan, compute_command_digest,
  validate_desired_operation, command_binding, validate_command,
}
use autostream_contracts.Updater.Lease.{
  valid_progress_phase, progress_matches, valid_grant_issue_response, validate_lease_static,
  validate_lease, validate_progress, validate_grant_binding,
  validate_grant_issue_response_for_lease,
}
use autostream_contracts.Updater.Evidence.{
  valid_evidence_code, valid_evidence_item, valid_evidence, has_evidence, has_evidence_at_revision,
  canonical_safe_error_message, valid_safe_error,
}
use autostream_contracts.Updater.Result.{
  port_outcome_matches, validate_port_result_binding, result_matches, succeeded_outcome,
  outcome_matches, validate_updater_result,
}

unfoldable pub commands : Unit {0}
unfolding results valid_updater_identifier matches_host_id matches_nonce
    valid_updater_idempotency_key target_json software_update_json bootstrap_json release_json
    self_update_json desired_operation_json capability_for_operation valid_host_target
    valid_target_for_operation legacy_port_target_binding valid_port_target_binding command_fields
    authorization_fields capability_matches legacy_plan compute_command_digest
    validate_desired_operation command_binding validate_command
commands = tt

unfoldable pub leases : Unit {0}
unfolding commands byte_length all_characters is_printable valid_mutation_for_desired
    valid_progress_phase progress_matches valid_grant_issue_response validate_lease_static
    validate_lease validate_progress validate_grant_binding validate_grant_issue_response_for_lease
leases = tt

unfoldable pub updater_results : Unit {0}
unfolding leases valid_evidence_code valid_evidence_item valid_evidence has_evidence
    has_evidence_at_revision canonical_safe_error_message valid_safe_error port_outcome_matches
    validate_port_result_binding result_matches succeeded_outcome outcome_matches
    validate_updater_result
updater_results = tt
