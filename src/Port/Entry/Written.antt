-- ===== src/Port/Entry/Written.antt =====
-- What the raw documents that the entry points of a port change accept have written out.
use autostream_contracts.Common.{
  String, true, ◌&&◌, ◌≡◌, ◌⊎◌, inl, inr, ap, sym, ◌∙◌, Option, some, List, [], ◌∷◌, All, pass,
  arith, and_true, if-branch, eq_iff, ◌==◌, String_eq, ℕ_eq, nat_beq_iff, if◌then◌else◌, contains,
  system_update_port_contract,
}
use autostream_contracts.Text.Digest.{Sha256}
use autostream_contracts.Json.{
  Json, object, Members, no_members, member, member?, require_updater_fields,
}
use autostream_contracts.Json.Strict.Clean.{keys}
use autostream_contracts.Json.Entry.{
  is_object, required_value, optional_value, text_of, count_members,
}
use autostream_contracts.Json.Entry.Accepted.{
  Has, require_updater_fields-Has, entry-Accepted, is_object-parts, required_value-parts,
}
use autostream_contracts.Port.Types.{SystemUpdatePortReconfiguration, SystemUpdatePortResultV2}
use autostream_contracts.Port.Outcome
use autostream_contracts.Port.Plan.{validate_plan}
use autostream_contracts.Port.Result.{validate_result}
use autostream_contracts.Port.Document.{
  plan_required, only_keys, ref_required, ref_document, plan_document, observed_required,
  result_document, docker_required, runtime_required, observation_required,
}
use autostream_contracts.Port.Entry.{PortCodec, validate_plan_json, validate_result_json}

-- The document of an accepted plan, and the plan that it decodes to.
pub record PlanWritten (codec : PortCodec) (sha : Sha256) (payload : String) : Type 0 where
  pub members : Members
  pub plan : SystemUpdatePortReconfiguration
  pub read : codec.read_json payload ≡ some (object members)
  pub decoded : codec.decode_plan (object members) ≡ some plan
  pub accepted : validate_plan sha plan ≡ pass
  pub written : All (Has members) plan_required
  pub no_other : All (λ key. contains ("docker_baseline" ∷ plan_required) key ≡ true) (keys members)
  pub before : Members
  pub target : Members
  pub rollback : Members
  pub before_read : member? "before" members ≡ some (object before)
  pub target_read : member? "target" members ≡ some (object target)
  pub rollback_read : member? "rollback" members ≡ some (object rollback)
  pub references :
      All (Has before) ref_required
      × All (Has target) ref_required
      × All (Has rollback) ref_required

only_keys-All :
    (allowed : List String) (ms : Members)
    → only_keys allowed ms ≡ true
    → All (λ key. contains allowed key ≡ true) (keys ms)
unfolding only_keys
only_keys-All allowed no_members h = tt
only_keys-All allowed (member key value ms) h =
    let (here, later) = and_true (contains allowed key) (only_keys allowed ms) h in
    (here, only_keys-All allowed ms later)

ref_document-Has :
    (found : Option Json)
    → required_value ref_document found ≡ true
    → (ref : Members) × (found ≡ some (object ref)) × All (Has ref) ref_required
unfolding ref_document
ref_document-Has found h =
    let (ref, e, t) =
      required_value-parts
        (λ ref.
          require_updater_fields ref ref_required
          && optional_value (is_object (λ object. require_updater_fields object docker_required))
              (member? "docker" ref))
        found h in
    (ref, e, require_updater_fields-Has ref ref_required (ground (arith, t)))

-- The document of an accepted result, and the result that it decodes to. A rollback that failed has
-- observed nothing, and the document says nothing of it.
pub record PortResultWritten (codec : PortCodec) (sha : Sha256)
    (plan : SystemUpdatePortReconfiguration) (payload : String) : Type 0 where
  pub members : Members
  pub result : SystemUpdatePortResultV2
  pub read : codec.read_json payload ≡ some (object members)
  pub decoded : codec.decode_result (object members) ≡ some result
  pub accepted : validate_result sha plan result ≡ pass
  pub written : All (Has members) ("result" ∷ "observation" ∷ [])
  pub observed :
      (text_of (member? "result" members) ≡ Outcome.rollback_failed) × (count_members members ≡ 2)
      ⊎ All (Has members) observed_required

result_document-parts :
    (ms : Members)
    → result_document ms ≡ true
    → All (Has ms) ("result" ∷ "observation" ∷ [])
      × ((text_of (member? "result" ms) ≡ Outcome.rollback_failed) × (count_members ms ≡ 2)
          ⊎ All (Has ms) observed_required)
unfolding result_document
result_document-parts ms h =
    let observing =
      require_updater_fields ms observed_required
      && optional_value (is_object (λ o. require_updater_fields o runtime_required))
          (member? "runtime_instance" ms) in
    let (first, last) =
      and_true
        (require_updater_fields ms ("result" ∷ "observation" ∷ [])
          && required_value (is_object (λ o. require_updater_fields o observation_required))
              (member? "observation" ms))
        (if text_of (member? "result" ms) == Outcome.rollback_failed
          then count_members ms == 2
          else observing)
        h in
    (
      require_updater_fields-Has ms ("result" ∷ "observation" ∷ []) (ground (arith, first)),
      elim (if-branch (text_of (member? "result" ms) == Outcome.rollback_failed)
          (count_members ms == 2) observing true last) [
            | inl (k, two) ↦ inl ((eq_iff _ _).0 k, (nat_beq_iff _ _).0 two)
            | inr (k, f) ↦ inr (
                require_updater_fields-Has ms observed_required
                  (and_true (require_updater_fields ms observed_required) _ f).0)
          ],
    )

-- An accepted raw result of a port change reads as an object with the result and the observation,
-- and with nothing else if it says that the rollback failed, or with the six observed values; and it
-- decodes to a result that is valid for the plan.
pub validate_result_json-Written :
    (codec : PortCodec) (sha : Sha256) (plan : SystemUpdatePortReconfiguration) (payload : String)
    → validate_result_json codec sha plan payload ≡ pass
    → PortResultWritten codec sha plan payload
unfolding validate_result_json
validate_result_json-Written codec sha plan payload h =
    let a =
      entry-Accepted codec.read_json codec.decode_result (is_object result_document)
        system_update_port_contract (validate_result sha plan) payload h in
    let (ms, e, t) = is_object-parts result_document a.document a.tested in
    let (written, observed) = result_document-parts ms t in
    record {
      members = ms;
      result = a.value;
      read = a.read ∙ ap some e;
      decoded = ap codec.decode_result (sym e) ∙ a.decoded;
      accepted = a.accepted;
      written = written;
      observed = observed;
    }

plan_document-parts :
    (plan : Members)
    → plan_document plan ≡ true
    → (require_updater_fields plan plan_required ≡ true)
      × (only_keys ("docker_baseline" ∷ plan_required) plan ≡ true)
      × (required_value ref_document (member? "before" plan) ≡ true)
      × (required_value ref_document (member? "target" plan) ≡ true)
      × (required_value ref_document (member? "rollback" plan) ≡ true)
unfolding plan_document
plan_document-parts plan h = (ground arith, ground arith, ground arith, ground arith, ground arith)

-- An accepted raw plan reads as an object with every required member and no member of the legacy
-- contract, whose three references are objects with all of theirs; and it decodes to a valid plan.
pub validate_plan_json-Written :
    (codec : PortCodec) (sha : Sha256) (payload : String)
    → validate_plan_json codec sha payload ≡ pass
    → PlanWritten codec sha payload
unfolding validate_plan_json
validate_plan_json-Written codec sha payload h =
    let a =
      entry-Accepted codec.read_json codec.decode_plan (is_object plan_document)
        system_update_port_contract (validate_plan sha) payload h in
    let (ms, e, t) = is_object-parts plan_document a.document a.tested in
    let (required, only, b, g, r) = plan_document-parts ms t in
    let (before, before_read, before_written) = ref_document-Has (member? "before" ms) b in
    let (target, target_read, target_written) = ref_document-Has (member? "target" ms) g in
    let (rollback, rollback_read, rollback_written) = ref_document-Has (member? "rollback" ms) r in
    record {
      members = ms;
      plan = a.value;
      read = a.read ∙ ap some e;
      decoded = ap codec.decode_plan (sym e) ∙ a.decoded;
      accepted = a.accepted;
      written = require_updater_fields-Has ms plan_required required;
      no_other = only_keys-All ("docker_baseline" ∷ plan_required) ms only;
      before = before;
      target = target;
      rollback = rollback;
      before_read = before_read;
      target_read = target_read;
      rollback_read = rollback_read;
      references = (before_written, target_written, rollback_written);
    }
