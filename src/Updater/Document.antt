-- ===== src/Updater/Document.antt =====
-- The tests of the Updater's raw documents, in pkg/contracts/updater_runtime_validation.go.
use autostream_contracts.Common.{
  String, Bool, false, not, ◌&&◌, ◌||◌, Option, none, some, List, [], ◌∷◌, leb, ◌==◌, String_eq,
  if◌then◌else◌,
}
use autostream_contracts.Json.{Json, Members, member?, has_updater_field, require_updater_fields}
use autostream_contracts.Json.Entry.{
  is_object, required_value, optional_value, text_of, count_items, each_item,
}
use autostream_contracts.Port.Document.{result_document, is_array}
use autostream_contracts.Updater.TargetKind
use autostream_contracts.Updater.Outcome

abbrev pub command_required : List String
command_required =
    "protocol_version" ∷ "command_id" ∷ "issuer" ∷ "idempotency_key" ∷ "canonical_payload_digest"
    ∷ "mutation_authorization" ∷ "desired_operation" ∷ "audit_correlation_id" ∷ []

abbrev pub issuer_required : List String
issuer_required = "service_id" ∷ "service_type" ∷ "authentication" ∷ "permission" ∷ []

abbrev pub authorization_required : List String
authorization_required =
    "authorization_id" ∷ "nonce_id" ∷ "job_id" ∷ "updater_id" ∷ "host_id" ∷ "action_type" ∷ "target"
    ∷ "canonical_argument_digest" ∷ "desired_revision" ∷ "fence" ∷ "expires_at"
    ∷ "required_capability" ∷ "one_time" ∷ []

abbrev pub target_required : List String
target_required = "target_kind" ∷ "service_id" ∷ "service_type" ∷ "deployment_mode" ∷ []

-- The target of an authorization: the switch on its kind.
unfoldable pub target_document : Members → Bool
target_document target =
    let kind = text_of (member? "target_kind" target) in
    require_updater_fields target target_required
    && (if kind == TargetKind.application
        then require_updater_fields target ("expected_config_revision" ∷ [])
          && not (has_updater_field target "execution_host_id")
        else if kind == TargetKind.update_agent || kind == TargetKind.host_runtime
        then require_updater_fields target ("execution_host_id" ∷ [])
          && not (has_updater_field target "expected_config_revision")
        else false)

unfoldable pub authorization_document : Members → Bool
authorization_document authorization =
    require_updater_fields authorization authorization_required
    && required_value (is_object target_document) (member? "target" authorization)

abbrev pub schema_accepts : Option (Json → Bool) → Option Json → Bool
schema_accepts none value = false
schema_accepts (some schema) value = required_value schema value

-- `validateUpdaterCommandDocument`, with the compiled schema of a desired operation.
unfoldable pub command_document : Option (Json → Bool) → Json → Bool
command_document schema document =
    is_object
      (λ command.
        require_updater_fields command command_required
        && required_value (is_object (λ issuer. require_updater_fields issuer issuer_required))
            (member? "issuer" command)
        && required_value (is_object authorization_document)
            (member? "mutation_authorization" command)
        && schema_accepts schema (member? "desired_operation" command))
      document

abbrev pub lease_required : List String
lease_required =
    "protocol_version" ∷ "lease_id" ∷ "lease_generation" ∷ "lease_expires_at" ∷ "command" ∷ []

-- `validateUpdaterLeaseDocument`
unfoldable pub lease_document : Json → Bool
lease_document document = is_object (λ lease. require_updater_fields lease lease_required) document

-- A lease and its command, as the entry points for leases and grants test them.
unfoldable pub leased_command_document : Option (Json → Bool) → Json → Bool
leased_command_document schema document =
    lease_document document
    && is_object (λ lease. required_value (command_document schema) (member? "command" lease))
        document

abbrev pub progress_required : List String
progress_required =
    "protocol_version" ∷ "command_id" ∷ "job_id" ∷ "updater_id" ∷ "host_id" ∷ "lease_id"
    ∷ "lease_generation" ∷ "sequence" ∷ "phase" ∷ "progress" ∷ "desired_revision" ∷ "fence"
    ∷ "audit_correlation_id" ∷ "observed_at" ∷ []

-- `validateUpdaterProgressDocument`
unfoldable pub progress_document : Json → Bool
progress_document document =
    is_object (λ progress. require_updater_fields progress progress_required) document

abbrev pub result_required : List String
result_required =
    "protocol_version" ∷ "command_id" ∷ "job_id" ∷ "updater_id" ∷ "host_id" ∷ "lease_id"
    ∷ "lease_generation" ∷ "idempotency_key" ∷ "canonical_payload_digest" ∷ "authorization_id"
    ∷ "desired_revision" ∷ "fence" ∷ "outcome" ∷ "status" ∷ "automatic_resend_allowed"
    ∷ "audit_correlation_id" ∷ "evidence" ∷ []

abbrev pub safe_error_required : List String
safe_error_required = "code" ∷ "message" ∷ "retryable" ∷ []

abbrev pub evidence_required : List String
evidence_required = "evidence_code" ∷ "observed_at" ∷ "observed_revision" ∷ []

-- The two tests on the outcome.
unfoldable pub outcome_fields : Members → Bool
outcome_fields result =
    let outcome = text_of (member? "outcome" result) in
    not (outcome == Outcome.succeeded && not (has_updater_field result "applied_revision"))
    && not (
        (outcome == Outcome.failed || outcome == Outcome.ambiguous)
        && not (has_updater_field result "safe_error"))

-- `validateUpdaterResultDocument`
unfoldable pub updater_result_document : Json → Bool
updater_result_document document =
    is_object
      (λ result.
        require_updater_fields result result_required
        && outcome_fields result
        && optional_value (is_object (λ e. require_updater_fields e safe_error_required))
            (member? "safe_error" result)
        && optional_value (is_object result_document) (member? "port_reconfigure" result)
        && required_value
            (is_array (λ evidence.
              leb 1 (count_items evidence)
              && leb (count_items evidence) 32
              && each_item (is_object (λ e. require_updater_fields e evidence_required)) evidence))
            (member? "evidence" result))
      document

-- `validateUpdaterMutationGrantDocument`
unfoldable pub grant_document : Option (Json → Bool) → Json → Bool
grant_document schema document =
    is_object
      (λ request.
        require_updater_fields request ("binding" ∷ [])
        && required_value
            (is_object (λ binding.
              require_updater_fields binding ("lease" ∷ "operation" ∷ "session_id" ∷ [])
              && required_value (leased_command_document schema) (member? "lease" binding)))
            (member? "binding" request))
      document
