-- ===== src/Visual/Tests.antt =====
-- Runs of the video cover's validators, and their theorems at concrete inputs.
use autostream_contracts.Common.{◌≡◌, refl, pos, true, pass}
use autostream_contracts.Visual.Samples.{ready_state, applied_answer, fenced_answer}
use autostream_contracts.Visual.Running.{states, responses}
use autostream_contracts.Visual.Outcome
use autostream_contracts.Visual.State.{valid_runtime_state}
use autostream_contracts.Visual.State.Converged.{IsConverged, valid_runtime_state-IsConverged}
use autostream_contracts.Visual.Response.{validate_response}
use autostream_contracts.Visual.Response.Status.{validate_response-status_code}
use autostream_contracts.Visual.Response.Applied.{validate_response-IsConverged}

ready_state_valid : valid_runtime_state ready_state ≡ true
unfolding states
ready_state_valid = refl

applied_answer_valid : validate_response (pos 200) applied_answer ≡ pass
unfolding responses
applied_answer_valid = refl

fenced_answer_valid : validate_response (pos 409) fenced_answer ≡ pass
unfolding responses
fenced_answer_valid = refl

valid_runtime_state-IsConverged_example : IsConverged ready_state
valid_runtime_state-IsConverged_example =
    valid_runtime_state-IsConverged ready_state ready_state_valid refl

validate_response-IsConverged_example :
    (applied_answer.outcome ≡ Outcome.applied)
    × IsConverged applied_answer.actual
    × (applied_answer.actual.desired.revision ≡ applied_answer.requested_revision)
    × (applied_answer.actual.generation ≡ applied_answer.actual_generation)
validate_response-IsConverged_example =
    validate_response-IsConverged applied_answer applied_answer_valid

validate_response-status_code_example : pos 409 ≡ pos 409
validate_response-status_code_example =
    validate_response-status_code (pos 409) (pos 409) fenced_answer fenced_answer_valid
      fenced_answer_valid
