-- ===== src/Updater/Entry.antt =====
-- The Updater's raw entry points, in pkg/contracts/updater_runtime_validation.go. The codec is
-- encoding/json: the reading of one document to its end, and its decoding into each structure.
-- A request to issue or to consume a grant has the binding alone.
pub mod Written
mod Tests
use autostream_contracts.Common.{
  String, Bool, Option, none, some, [], ◌∷◌, Check, require, updater_command_invalid,
  updater_lease_invalid, updater_progress_invalid, updater_result_invalid,
  updater_mutation_grant_invalid, updater_mutation_grant_response_invalid,
  update_agent_clear_invalid,
}
use autostream_contracts.Json.{Json, require_updater_fields}
use autostream_contracts.Json.Entry.{is_object, entry}
use autostream_contracts.Port.Types.{Timestamp}
use autostream_contracts.Updater.Types.{
  UpdaterCommandEnvelope, UpdaterLeaseEnvelope, UpdaterProgressEnvelope, UpdaterResultEnvelope,
  UpdaterMutationGrantBinding, UpdateAgentMutationGrantIssueResponse,
}
use autostream_contracts.Updater.Platform.{Platform}
use autostream_contracts.Updater.Command.{validate_command}
use autostream_contracts.Updater.Lease.{
  validate_lease, validate_progress, validate_grant_binding, valid_grant_issue_response,
}
use autostream_contracts.Updater.Result.{validate_updater_result}
use autostream_contracts.Updater.Document.{
  command_document, leased_command_document, progress_document, updater_result_document,
  grant_document,
}

pub record UpdateAgentClearActiveJobResponse : Type 0 where
  pub clear_active_job_id : Bool

-- `UpdaterMutationGrantIssueRequest`, and the same structure of a request to consume.
pub record UpdaterMutationGrantIssueRequest : Type 0 where
  pub binding : UpdaterMutationGrantBinding

pub record UpdaterCodec : Type 0 where
  pub read_json : String → Option Json
  pub decode_command : Json → Option UpdaterCommandEnvelope
  pub decode_lease : Json → Option UpdaterLeaseEnvelope
  pub decode_progress : Json → Option UpdaterProgressEnvelope
  pub decode_result : Json → Option UpdaterResultEnvelope
  pub decode_grant_request : Json → Option UpdaterMutationGrantIssueRequest
  pub decode_grant_response : Json → Option UpdateAgentMutationGrantIssueResponse
  pub decode_clear : Json → Option UpdateAgentClearActiveJobResponse

module _ (platform : Platform) (codec : UpdaterCodec) where
  -- `ValidateUpdaterCommandEnvelope`
  unfoldable pub validate_command_envelope : String → Check
  validate_command_envelope payload =
      entry codec.read_json codec.decode_command (command_document platform.desired_schema)
        updater_command_invalid (validate_command platform) payload

  -- `ValidateUpdaterLeaseEnvelope`
  unfoldable pub validate_lease_envelope : Timestamp → String → Check
  validate_lease_envelope now payload =
      entry codec.read_json codec.decode_lease (leased_command_document platform.desired_schema)
        updater_lease_invalid (validate_lease platform now) payload

  -- `ValidateUpdaterProgressEnvelope`
  unfoldable pub validate_progress_envelope : UpdaterLeaseEnvelope → String → Check
  validate_progress_envelope lease payload =
      entry codec.read_json codec.decode_progress progress_document updater_progress_invalid
        (validate_progress platform lease) payload

  -- `ValidateUpdaterResultEnvelope`
  unfoldable pub validate_result_envelope : UpdaterLeaseEnvelope → String → Check
  validate_result_envelope lease payload =
      entry codec.read_json codec.decode_result updater_result_document updater_result_invalid
        (validate_updater_result platform lease) payload

  -- `ValidateUpdaterMutationGrantIssueRequest` and `ValidateUpdaterMutationGrantConsumeRequest`
  unfoldable pub validate_grant_request : Timestamp → String → Check
  validate_grant_request now payload =
      entry codec.read_json codec.decode_grant_request (grant_document platform.desired_schema)
        updater_mutation_grant_invalid
        (λ request. validate_grant_binding platform now request.binding) payload

  -- `ValidateUpdaterMutationGrantIssueResponse`
  unfoldable pub validate_grant_response : Timestamp → String → Check
  validate_grant_response now payload =
      entry codec.read_json codec.decode_grant_response
        (is_object (λ object. require_updater_fields object ("grant_token" ∷ "expires_at" ∷ [])))
        updater_mutation_grant_response_invalid
        (λ response.
          require (valid_grant_issue_response now response) updater_mutation_grant_response_invalid)
        payload

  -- `ValidateUpdateAgentClearActiveJobResponse`
  unfoldable pub validate_clear_response : String → Check
  validate_clear_response payload =
      entry codec.read_json codec.decode_clear
        (is_object (λ object. require_updater_fields object ("clear_active_job_id" ∷ [])))
        update_agent_clear_invalid
        (λ response. require response.clear_active_job_id update_agent_clear_invalid) payload
