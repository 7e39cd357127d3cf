-- ===== src/Updater/Entry/Written.antt =====
-- What the raw documents that the Updater's entry points accept have written out.
use autostream_contracts.Common.{
  String, Bool, true, false, not, ◌&&◌, ◌||◌, ◌≡◌, ◌≢◌, ◌⊎◌, inl, inr, ap, sym, ◌∙◌, Option, none,
  some, [], ◌∷◌, All, pass, arith, tests, and_true, if-branch, eq_iff, ◌==◌, String_eq, none_of_nil,
  if◌then◌else◌, Bool-cases, updater_result_invalid, updater_command_invalid,
}
use autostream_contracts.Json.{
  Json, object, Members, member?, has_updater_field, require_updater_fields,
}
use autostream_contracts.Json.Entry.{is_object, required_value, text_of}
use autostream_contracts.Json.Entry.Accepted.{
  Has, has_updater_field-Has, require_updater_fields-Has, entry-Accepted, is_object-parts,
  required_value-parts,
}
use autostream_contracts.Updater.Types.{
  UpdaterCommandEnvelope, UpdaterLeaseEnvelope, UpdaterResultEnvelope,
}
use autostream_contracts.Updater.Platform.{Platform}
use autostream_contracts.Updater.Command.{validate_command}
use autostream_contracts.Updater.Result.{validate_updater_result}
use autostream_contracts.Updater.TargetKind
use autostream_contracts.Updater.Outcome
use autostream_contracts.Updater.Document.{
  command_required, authorization_required, target_required, target_document,
  authorization_document, command_document, result_required, outcome_fields,
  updater_result_document,
}
use autostream_contracts.Updater.Entry.{
  UpdaterCodec, validate_command_envelope, validate_result_envelope,
}

-- The members that an outcome asks for.
pub record OutcomeWritten (result : Members) : Type 0 where
  pub revision :
      (text_of (member? "outcome" result) ≢ Outcome.succeeded) ⊎ Has result "applied_revision"
  pub failure :
      (text_of (member? "outcome" result) ≢ Outcome.failed)
        × (text_of (member? "outcome" result) ≢ Outcome.ambiguous)
      ⊎ Has result "safe_error"

-- A target of one of the two forms: in a service's configuration, or on a host.
pub data TargetForm (target : Members) : Type 0 where
  in_configuration :
      text_of (member? "target_kind" target) ≡ TargetKind.application
      → Has target "expected_config_revision"
      → member? "execution_host_id" target ≡ none
      → TargetForm target
  on_host :
      text_of (member? "target_kind" target) ≢ TargetKind.application
      → Has target "execution_host_id"
      → member? "expected_config_revision" target ≡ none
      → TargetForm target

absent : (ms : Members) (key : String) → has_updater_field ms key ≡ false → member? key ms ≡ none
unfolding has_updater_field
absent ms key h = none_of_nil (member? key ms) (ground arith)

outcome_fields-Written : (result : Members) → outcome_fields result ≡ true → OutcomeWritten result
unfolding outcome_fields
outcome_fields-Written result h = record {
  revision = elim (Bool-cases (has_updater_field result "applied_revision")) [
    | inl f ↦ inr (has_updater_field-Has result "applied_revision" f)
    | inr f ↦ inl (λ e. grind tests)
  ];
  failure = elim (Bool-cases (has_updater_field result "safe_error")) [
    | inl f ↦ inr (has_updater_field-Has result "safe_error" f)
    | inr f ↦ inl ((λ e. grind tests), (λ e. grind tests))
  ];
}

target_document-TargetForm :
    (target : Members)
    → target_document target ≡ true
    → All (Has target) target_required × TargetForm target
unfolding target_document
target_document-TargetForm target h =
    let kind = text_of (member? "target_kind" target) in
    let inside =
      require_updater_fields target ("expected_config_revision" ∷ [])
      && not (has_updater_field target "execution_host_id") in
    let hosted =
      require_updater_fields target ("execution_host_id" ∷ [])
      && not (has_updater_field target "expected_config_revision") in
    let (required, form) =
      and_true (require_updater_fields target target_required)
        (if kind == TargetKind.application
          then inside
          else if kind == TargetKind.update_agent || kind == TargetKind.host_runtime
          then hosted
          else false)
        h in
    (
      require_updater_fields-Has target target_required required,
      elim (if-branch (kind == TargetKind.application) inside
          (if kind == TargetKind.update_agent || kind == TargetKind.host_runtime
            then hosted
            else false)
          true form) [
            | inl (k, f) ↦
                let (has, none_hosted) =
                  and_true (require_updater_fields target ("expected_config_revision" ∷ []))
                    (not (has_updater_field target "execution_host_id")) f in
                in_configuration ((eq_iff _ _).0 k)
                  (require_updater_fields-Has target ("expected_config_revision" ∷ []) has).0
                  (absent target "execution_host_id" (ground arith))
            | inr (k, f) ↦
                let hosting : hosted ≡ true = ground arith in
                let (has, none_configured) =
                  and_true (require_updater_fields target ("execution_host_id" ∷ []))
                    (not (has_updater_field target "expected_config_revision")) hosting in
                on_host (λ e. ground (arith, eq_iff kind TargetKind.application, e, k))
                  (require_updater_fields-Has target ("execution_host_id" ∷ []) has).0
                  (absent target "expected_config_revision" (ground arith))
          ],
    )

-- The document of an accepted result, and the result that it decodes to.
pub record ResultWritten (platform : Platform) (codec : UpdaterCodec) (lease : UpdaterLeaseEnvelope)
    (payload : String) : Type 0 where
  pub members : Members
  pub result : UpdaterResultEnvelope
  pub read : codec.read_json payload ≡ some (object members)
  pub decoded : codec.decode_result (object members) ≡ some result
  pub accepted : validate_updater_result platform lease result ≡ pass
  pub written : All (Has members) result_required
  pub outcome : OutcomeWritten members

updater_result_document-parts :
    (document : Json)
    → updater_result_document document ≡ true
    → (ms : Members) × (document ≡ object ms) × All (Has ms) result_required × OutcomeWritten ms
unfolding updater_result_document
updater_result_document-parts document h =
    let (ms, e, t) = is_object-parts _ document h in
    let required : require_updater_fields ms result_required ≡ true = ground (arith, t) in
    let outcome : outcome_fields ms ≡ true = ground (arith, t) in
    (
      ms,
      e,
      require_updater_fields-Has ms result_required required,
      outcome_fields-Written ms outcome,
    )

-- An accepted raw result reads as an object with every required member, which says the applied
-- revision if it says that the outcome is succeeded, and the safe error if it says failed or
-- ambiguous; and it decodes to a result that is valid for the lease.
pub validate_result_envelope-Written :
    (platform : Platform) (codec : UpdaterCodec) (lease : UpdaterLeaseEnvelope) (payload : String)
    → validate_result_envelope platform codec lease payload ≡ pass
    → ResultWritten platform codec lease payload
unfolding validate_result_envelope
validate_result_envelope-Written platform codec lease payload h =
    let a =
      entry-Accepted codec.read_json codec.decode_result updater_result_document
        updater_result_invalid (validate_updater_result platform lease) payload h in
    let (ms, e, written, outcome) = updater_result_document-parts a.document a.tested in
    record {
      members = ms;
      result = a.value;
      read = a.read ∙ ap some e;
      decoded = ap codec.decode_result (sym e) ∙ a.decoded;
      accepted = a.accepted;
      written = written;
      outcome = outcome;
    }

-- The document of an accepted command, and the command that it decodes to.
pub record CommandWritten (platform : Platform) (codec : UpdaterCodec) (payload : String)
    : Type 0 where
  pub members : Members
  pub authorization : Members
  pub target : Members
  pub command : UpdaterCommandEnvelope
  pub read : codec.read_json payload ≡ some (object members)
  pub decoded : codec.decode_command (object members) ≡ some command
  pub accepted : validate_command platform command ≡ pass
  pub written : All (Has members) command_required
  pub authorized : member? "mutation_authorization" members ≡ some (object authorization)
  pub authorization_written : All (Has authorization) authorization_required
  pub aimed : member? "target" authorization ≡ some (object target)
  pub form : TargetForm target

command_document-parts :
    (schema : Option (Json → Bool)) (document : Json)
    → command_document schema document ≡ true
    → (ms : Members) × (document ≡ object ms)
      × (require_updater_fields ms command_required ≡ true)
      × (required_value (is_object authorization_document) (member? "mutation_authorization" ms)
          ≡ true)
unfolding command_document
command_document-parts schema document h =
    let (ms, e, t) = is_object-parts _ document h in (ms, e, ground (arith, t), ground (arith, t))

authorization_document-parts :
    (authorization : Members)
    → authorization_document authorization ≡ true
    → (require_updater_fields authorization authorization_required ≡ true)
      × (required_value (is_object target_document) (member? "target" authorization) ≡ true)
unfolding authorization_document
authorization_document-parts authorization h =
    and_true (require_updater_fields authorization authorization_required) _ h

-- An accepted raw command reads as an object with every required member, whose authorization has
-- its own and aims at a target in a service's configuration, with its revision and without a host,
-- or on a host, which it names, without that revision; and it decodes to a valid command.
pub validate_command_envelope-Written :
    (platform : Platform) (codec : UpdaterCodec) (payload : String)
    → validate_command_envelope platform codec payload ≡ pass
    → CommandWritten platform codec payload
unfolding validate_command_envelope
validate_command_envelope-Written platform codec payload h =
    let a =
      entry-Accepted codec.read_json codec.decode_command (command_document platform.desired_schema)
        updater_command_invalid (validate_command platform) payload h in
    let (ms, e, required, authorized) =
      command_document-parts platform.desired_schema a.document a.tested in
    let (authorization, f, inner) =
      required_value-parts authorization_document (member? "mutation_authorization" ms)
        authorized in
    let (own, aimed) = authorization_document-parts authorization inner in
    let (target, g, t) =
      required_value-parts target_document (member? "target" authorization) aimed in
    record {
      members = ms;
      authorization = authorization;
      target = target;
      command = a.value;
      read = a.read ∙ ap some e;
      decoded = ap codec.decode_command (sym e) ∙ a.decoded;
      accepted = a.accepted;
      written = require_updater_fields-Has ms command_required required;
      authorized = f;
      authorization_written = require_updater_fields-Has authorization authorization_required own;
      aimed = g;
      form = (target_document-TargetForm target t).1;
    }
