-- ===== src/Visual/Response/Applied.antt =====
-- A response of status code 200 shows the requested revision in the graph.
use autostream_contracts.Common.{
  ap, pos_part, arith, ◌≡◌, Bool, true, Option, none, some, pos, pass, tests, String_eq, sym,
}
use autostream_contracts.Visual.Types.{VideoCoverAppliedWitness, EncoderVideoCoverApplyResponse}
use autostream_contracts.Visual.Outcome
use autostream_contracts.Visual.State.{valid_runtime_state}
use autostream_contracts.Visual.State.Converged.{IsConverged, valid_runtime_state-IsConverged}
use autostream_contracts.Visual.Response.{
  applied_linkage, linkage_case, validate_applied_linkage, response_shape, applied_response,
  validate_response,
}
use autostream_contracts.Visual.Response.Status.{
  Answers, answers_applied, answers_ambiguous, answers_fenced, answers_failed, applied_outcome,
  validate_response-Answers,
}

linked_revision :
    (response : EncoderVideoCoverApplyResponse) (witness? : Option VideoCoverAppliedWitness)
    (active? : Option Bool)
    → linkage_case response witness? active? ≡ true
    → response.actual.desired.revision ≡ response.requested_revision
unfolding applied_linkage
linked_revision response (some witness) (some active) h = grind tests
linked_revision response (some witness) none h = cc
linked_revision response none active? h = cc

linkage_parts :
    (response : EncoderVideoCoverApplyResponse)
    → validate_applied_linkage response ≡ pass
    → (response.actual.readiness ≡ "ready")
      × (linkage_case response response.actual.applied_witness response.actual.applied.active
          ≡ true)
unfolding validate_applied_linkage
linkage_parts response h = grind tests

shape_state :
    (response : EncoderVideoCoverApplyResponse)
    → response_shape response ≡ true
    → (valid_runtime_state response.actual ≡ true)
      × (response.actual_generation ≡ response.actual.generation)
unfolding response_shape
shape_state response h = grind tests

applied_case :
    (response : EncoderVideoCoverApplyResponse)
    → Answers (pos 200) response
    → (applied_response response ≡ true) × (validate_applied_linkage response ≡ pass)
applied_case response (answers_applied e t l) = (t, l)
applied_case response (answers_ambiguous e t) = absurd (omega (arith, ap pos_part e))
applied_case response (answers_fenced e t) = absurd (omega (arith, ap pos_part e))
applied_case response (answers_failed e t) = absurd (omega (arith, ap pos_part e))

-- A valid response of status code 200 has the outcome applied; its state has reached what is
-- desired, which is the requested revision, in the generation that the response names.
pub validate_response-IsConverged :
    (response : EncoderVideoCoverApplyResponse)
    → validate_response (pos 200) response ≡ pass
    → (response.outcome ≡ Outcome.applied)
      × IsConverged response.actual
      × (response.actual.desired.revision ≡ response.requested_revision)
      × (response.actual.generation ≡ response.actual_generation)
validate_response-IsConverged response h =
    let (shape, answer) = validate_response-Answers (pos 200) response h in
    let (tested, linkage) = applied_case response answer in
    let (ready, linked) = linkage_parts response linkage in
    let (state_valid, generation) = shape_state response shape in
    (
      applied_outcome response tested,
      valid_runtime_state-IsConverged response.actual state_valid ready,
      linked_revision response response.actual.applied_witness response.actual.applied.active
          linked,
      sym generation,
    )
