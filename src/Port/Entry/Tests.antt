-- ===== src/Port/Entry/Tests.antt =====
-- The raw entry points of a port change at concrete inputs.
use autostream_contracts.Common.{String, refl, ◌≡◌, some, none, List, [], ◌∷◌, contains, pass}
use autostream_contracts.Json.{
  Json, text, object, Members, no_members, member, require_updater_fields,
}
use autostream_contracts.Json.Strict.{decode_strict, strict_value}
use autostream_contracts.Json.Entry.{entry}
use autostream_contracts.Port.Samples.{zero_sha, local_plan, applied_result}
use autostream_contracts.Port.Running.{plans, results}
use autostream_contracts.Port.Document.{
  ref_required, observation_required, observed_required, ref_document, only_keys, plan_document,
  result_document,
}
use autostream_contracts.Port.Entry.{PortCodec, validate_plan_json, validate_result_json}
use autostream_contracts.Port.Entry.Written.{
  PlanWritten, PortResultWritten, validate_plan_json-Written, validate_result_json-Written,
}

abbrev fill : List String → Members → Members
fill [] ms = ms
fill (key ∷ keys) ms = member key (text "sample") (fill keys ms)

abbrev plan_sample : Json
plan_sample = object (
    member "before" (object (fill ref_required no_members)) (
      member "target" (object (fill ref_required no_members)) (
        member "rollback" (object (fill ref_required no_members)) (
          fill
            ("port_contract_version" ∷ "mode" ∷ "network_namespace" ∷ "protocol"
              ∷ "port_plan_sha256" ∷ [])
            no_members))))

abbrev result_sample : Json
result_sample = object (
    member "result" (text "applied") (
      member "observation" (object (fill observation_required no_members))
        (fill observed_required no_members)))

abbrev plan_codec : PortCodec
plan_codec = record {
  read_json = λ payload. some plan_sample;
  decode_create = λ document. none;
  decode_plan = λ document. some local_plan;
  decode_result = λ document. none;
  decode_baseline = λ document. none;
}

abbrev result_codec : PortCodec
result_codec = record plan_codec {
  read_json = λ payload. some result_sample;
  decode_result = λ document. some applied_result;
}

abbrev payload : String
payload = "{}"

plan_json_accepted : validate_plan_json plan_codec zero_sha payload ≡ pass
unfolding plans validate_plan_json entry decode_strict strict_value contains plan_document
    require_updater_fields only_keys ref_document
plan_json_accepted = refl

validate_plan_json-Written_example : PlanWritten plan_codec zero_sha payload
validate_plan_json-Written_example =
    validate_plan_json-Written plan_codec zero_sha payload plan_json_accepted

result_json_accepted : validate_result_json result_codec zero_sha local_plan payload ≡ pass
unfolding results validate_result_json entry decode_strict strict_value contains result_document
    require_updater_fields
result_json_accepted = refl

validate_result_json-Written_example : PortResultWritten result_codec zero_sha local_plan payload
validate_result_json-Written_example =
    validate_result_json-Written result_codec zero_sha local_plan payload result_json_accepted
