-- ===== src/Updater/Entry/Tests.antt =====
-- The Updater's raw entry points at concrete inputs.
use autostream_contracts.Common.{String, refl, ◌≡◌, some, none, List, [], ◌∷◌, contains, pass}
use autostream_contracts.Json.{
  Json, text, array, object, Members, no_members, member, no_items, item, require_updater_fields,
}
use autostream_contracts.Json.Strict.{decode_strict, strict_value}
use autostream_contracts.Json.Entry.{entry, count_items, each_item}
use autostream_contracts.Updater.Samples.{platform, port_command, port_lease, applied_port_result}
use autostream_contracts.Updater.Running.{commands, updater_results}
use autostream_contracts.Updater.Document.{
  issuer_required, evidence_required, target_document, authorization_document, command_document,
  outcome_fields, updater_result_document,
}
use autostream_contracts.Updater.Entry.{
  UpdaterCodec, validate_command_envelope, validate_result_envelope,
}
use autostream_contracts.Updater.Entry.Written.{
  CommandWritten, ResultWritten, validate_command_envelope-Written,
  validate_result_envelope-Written,
}

abbrev fill : List String → Members → Members
fill [] ms = ms
fill (key ∷ keys) ms = member key (text "sample") (fill keys ms)

abbrev target_sample : Json
target_sample = object (
    member "target_kind" (text "application") (
      fill ("service_id" ∷ "service_type" ∷ "deployment_mode" ∷ "expected_config_revision" ∷ [])
        no_members))

abbrev authorization_sample : Json
authorization_sample = object (
    member "target" target_sample (
      fill
        ("authorization_id" ∷ "nonce_id" ∷ "job_id" ∷ "updater_id" ∷ "host_id" ∷ "action_type"
          ∷ "canonical_argument_digest" ∷ "desired_revision" ∷ "fence" ∷ "expires_at"
          ∷ "required_capability" ∷ "one_time" ∷ [])
        no_members))

abbrev command_sample : Json
command_sample = object (
    member "issuer" (object (fill issuer_required no_members)) (
      member "mutation_authorization" authorization_sample (
        fill
          ("protocol_version" ∷ "command_id" ∷ "idempotency_key" ∷ "canonical_payload_digest"
            ∷ "desired_operation" ∷ "audit_correlation_id" ∷ [])
          no_members)))

abbrev result_sample : Json
result_sample = object (
    member "outcome" (text "succeeded") (
      member "evidence" (array (item (object (fill evidence_required no_members)) no_items)) (
        fill
          ("protocol_version" ∷ "command_id" ∷ "job_id" ∷ "updater_id" ∷ "host_id" ∷ "lease_id"
            ∷ "lease_generation" ∷ "idempotency_key" ∷ "canonical_payload_digest"
            ∷ "authorization_id" ∷ "desired_revision" ∷ "fence" ∷ "status"
            ∷ "automatic_resend_allowed" ∷ "audit_correlation_id" ∷ "applied_revision" ∷ [])
          no_members)))

abbrev command_codec : UpdaterCodec
command_codec = record {
  read_json = λ payload. some command_sample;
  decode_command = λ document. some port_command;
  decode_lease = λ document. none;
  decode_progress = λ document. none;
  decode_result = λ document. none;
  decode_grant_request = λ document. none;
  decode_grant_response = λ document. none;
  decode_clear = λ document. none;
}

abbrev result_codec : UpdaterCodec
result_codec = record command_codec {
  read_json = λ payload. some result_sample;
  decode_result = λ document. some applied_port_result;
}

abbrev payload : String
payload = "{}"

command_accepted : validate_command_envelope platform command_codec payload ≡ pass
unfolding commands validate_command_envelope entry decode_strict strict_value contains
    command_document require_updater_fields authorization_document target_document
command_accepted = refl

validate_command_envelope-Written_example : CommandWritten platform command_codec payload
validate_command_envelope-Written_example =
    validate_command_envelope-Written platform command_codec payload command_accepted

result_accepted : validate_result_envelope platform result_codec port_lease payload ≡ pass
unfolding updater_results validate_result_envelope entry decode_strict strict_value contains
    updater_result_document require_updater_fields outcome_fields count_items each_item
result_accepted = refl

validate_result_envelope-Written_example : ResultWritten platform result_codec port_lease payload
validate_result_envelope-Written_example =
    validate_result_envelope-Written platform result_codec port_lease payload result_accepted
