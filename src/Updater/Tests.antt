-- ===== src/Updater/Tests.antt =====
-- Runs of the Updater's validators, and their theorems at concrete inputs.
use autostream_contracts.Common.{◌≡◌, refl, ◌⊎◌, some, pos, ◌≤ℤ◌, ◌<ℤ◌, ◌≤◌, pass}
use autostream_contracts.Text.{byte_length}
use autostream_contracts.Port.Samples.{before, target, rollback, local_plan}
use autostream_contracts.Updater.Samples.{
  platform, port_command, port_lease, applied_port_result, execution_error, failed_port_result,
  grant_binding, grant_response,
}
use autostream_contracts.Updater.Running.{commands, leases, updater_results}
use autostream_contracts.Updater.Command.{validate_command}
use autostream_contracts.Updater.Command.Digest.{Digested, validate_command-digest}
use autostream_contracts.Updater.Lease.{
  validate_lease, validate_grant_binding, validate_grant_issue_response_for_lease,
}
use autostream_contracts.Updater.Lease.Expiry.{validate_grant_issue_response_for_lease-nested}
use autostream_contracts.Updater.Lease.Operations.{Permits, validate_grant_binding-operation}
use autostream_contracts.Updater.Evidence.{canonical_safe_error_message}
use autostream_contracts.Updater.Result.{port_plan, validate_updater_result}
use autostream_contracts.Updater.Result.Ending.{
  Ends, validate_updater_result-Ends, validate_updater_result-safe_error,
}
use autostream_contracts.Updater.Result.Applied.{Leaves, validate_updater_result-Leaves}

port_command_accepted : validate_command platform port_command ≡ pass
unfolding commands
port_command_accepted = refl

grant_binding_accepted : validate_grant_binding platform (pos 1000) grant_binding ≡ pass
unfolding leases
grant_binding_accepted = refl

grant_response_accepted :
    validate_grant_issue_response_for_lease platform (pos 1000) port_lease grant_response ≡ pass
unfolding leases
grant_response_accepted = refl

applied_port_result_accepted :
    validate_updater_result platform port_lease applied_port_result ≡ pass
unfolding updater_results
applied_port_result_accepted = refl

failed_port_result_accepted : validate_updater_result platform port_lease failed_port_result ≡ pass
unfolding updater_results
failed_port_result_accepted = refl

port_lease_plan : port_plan port_lease ≡ some local_plan
unfolding commands
port_lease_plan = refl

validate_command-digest_example : Digested platform port_command
validate_command-digest_example =
    validate_command-digest platform port_command port_command_accepted

validate_grant_binding-operation_example :
    (validate_lease platform (pos 1000) grant_binding.lease ≡ pass)
    × Permits grant_binding.operation grant_binding.lease.command.desired_operation.operation
        grant_binding.lease.command.mutation_authorization.required_capability
    × (grant_binding.lease.command.mutation_authorization.action_type
        ≡ grant_binding.lease.command.mutation_authorization.required_capability)
validate_grant_binding-operation_example =
    validate_grant_binding-operation platform (pos 1000) grant_binding grant_binding_accepted

validate_grant_issue_response_for_lease-nested_example :
    (validate_command platform port_lease.command ≡ pass)
    × (pos 1000 <ℤ grant_response.expires_at)
    × (grant_response.expires_at ≤ℤ port_lease.lease_expires_at)
    × (port_lease.lease_expires_at ≤ℤ port_lease.command.mutation_authorization.expires_at)
    × (32 ≤ byte_length grant_response.grant_token)
    × (byte_length grant_response.grant_token ≤ 256)
validate_grant_issue_response_for_lease-nested_example =
    validate_grant_issue_response_for_lease-nested platform (pos 1000) port_lease grant_response
      grant_response_accepted

validate_updater_result-Ends_example : Ends applied_port_result.outcome applied_port_result.status
validate_updater_result-Ends_example =
    validate_updater_result-Ends platform port_lease applied_port_result
      applied_port_result_accepted

validate_updater_result-safe_error_example :
    (canonical_safe_error_message execution_error.code ≡ some execution_error.message)
    × ((execution_error.audit_correlation_id ≡ "")
        ⊎ (execution_error.audit_correlation_id ≡ port_lease.command.audit_correlation_id))
validate_updater_result-safe_error_example =
    validate_updater_result-safe_error platform port_lease failed_port_result execution_error
      failed_port_result_accepted refl

validate_updater_result-Leaves_example : Leaves target rollback applied_port_result
validate_updater_result-Leaves_example =
    validate_updater_result-Leaves platform port_lease applied_port_result local_plan before target
      rollback applied_port_result_accepted port_lease_plan refl refl refl
