-- ===== src/Visual/Entry/Tests.antt =====
-- The raw entry points of the video cover at concrete inputs.
use autostream_contracts.Common.{String, true, refl, ◌≡◌, some, none, pos, pass}
use autostream_contracts.Json.{object, no_members}
use autostream_contracts.Json.Strict.{decode_strict, strict_value}
use autostream_contracts.Json.Entry.{entry}
use autostream_contracts.Visual.Samples.{ready_state, applied_answer}
use autostream_contracts.Visual.Running.{states, responses}
use autostream_contracts.Visual.Entry.{
  CoverCodec, validate_state_for_path, validate_cover_state, validate_cover_response,
}
use autostream_contracts.Visual.Entry.Accepted.{
  StateRead, AppliedRead, validate_cover_state-StateRead, validate_cover_response-AppliedRead,
}

abbrev codec : CoverCodec
codec = record {
  read_json = λ payload. some (object no_members);
  decode_request = λ document. none;
  decode_response = λ document. some applied_answer;
  decode_unavailable = λ document. none;
  decode_state = λ document. some ready_state;
  schemas = some (record {
    request = λ document. true;
    response = λ document. true;
    runtime = λ document. true;
    unavailable = λ document. true;
  });
}

abbrev payload : String
payload = "{}"

state_accepted : validate_cover_state codec ready_state.stream_id payload ≡ pass
unfolding states validate_state_for_path validate_cover_state entry decode_strict strict_value
state_accepted = refl

validate_cover_state-StateRead_example : StateRead codec ready_state.stream_id payload
validate_cover_state-StateRead_example =
    validate_cover_state-StateRead codec ready_state.stream_id payload state_accepted

answer_accepted : validate_cover_response codec (pos 200) payload ≡ pass
unfolding responses validate_cover_response entry decode_strict strict_value
answer_accepted = refl

validate_cover_response-AppliedRead_example : AppliedRead codec payload
validate_cover_response-AppliedRead_example =
    validate_cover_response-AppliedRead codec payload answer_accepted
