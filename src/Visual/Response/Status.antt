-- ===== src/Visual/Response/Status.antt =====
-- The status codes of valid responses.
use autostream_contracts.Common.{
  String, ◌≡◌, ◌≢◌, ◌⊎◌, inl, inr, sym, ◌∙◌, refl, Bool, true, false, Option, none, some, ℤ, pos,
  arith, eq_iff, beq_ℤ_iff, tests, pass, if◌then◌else◌, require, ◌==◌, ℤ_eq, String_eq, Check,
  require-passes, cover_response_shape, cover_response_status,
}
use autostream_contracts.Visual.Types.{VisualSafeError, EncoderVideoCoverApplyResponse}
use autostream_contracts.Visual.Code
use autostream_contracts.Visual.Outcome
use autostream_contracts.Visual.Errors.{is_fence_error, is_graph_or_asset_error}
use autostream_contracts.Visual.Response.{
  code_in, is_rejected_response, validate_applied_linkage, response_shape, applied_response,
  ambiguous_response, fenced_response, failed_response, validate_response,
}

-- What a status code says of the response.
pub data Answers (status_code : ℤ) (response : EncoderVideoCoverApplyResponse) : Type 0 where
  answers_applied :
      status_code ≡ pos 200
      → applied_response response ≡ true
      → validate_applied_linkage response ≡ pass
      → Answers status_code response
  answers_ambiguous :
      status_code ≡ pos 202 → ambiguous_response response ≡ true → Answers status_code response
  answers_fenced :
      status_code ≡ pos 409 → fenced_response response ≡ true → Answers status_code response
  answers_failed :
      status_code ≡ pos 502 → failed_response response ≡ true → Answers status_code response

-- A conditional check that passes, by the branch that it took.
if_check :
    (test : Bool) (first second : Check)
    → (if test then first else second) ≡ pass
    → (test ≡ true) × (first ≡ pass) ⊎ (second ≡ pass)
if_check true first second h = inl (refl, h)
if_check false first second h = inr h

required : (test : Bool) → require test cover_response_status ≡ pass → test ≡ true
required true h = refl
required false h = cc

pub validate_response-Answers :
    (status_code : ℤ) (response : EncoderVideoCoverApplyResponse)
    → validate_response status_code response ≡ pass
    → (response_shape response ≡ true) × Answers status_code response
unfolding validate_response
validate_response-Answers status_code response h =
    let (shape, switch) = require-passes (response_shape response) cover_response_shape _ _ h in
    (
      shape,
      elim (if_check (status_code == pos 200) _ _ switch) [
        | inl (e, t) ↦
            let (tested, linked) =
              require-passes (applied_response response) cover_response_status _ _ t in
            answers_applied ((beq_ℤ_iff _ _).0 e) tested linked
        | inr switch ↦ elim (if_check (status_code == pos 202) _ _ switch) [
          | inl (e, t) ↦ answers_ambiguous ((beq_ℤ_iff _ _).0 e) (required _ t)
          | inr switch ↦ elim (if_check (status_code == pos 409) _ _ switch) [
            | inl (e, t) ↦ answers_fenced ((beq_ℤ_iff _ _).0 e) (required _ t)
            | inr switch ↦ elim (if_check (status_code == pos 502) _ _ switch) [
              | inl (e, t) ↦ answers_failed ((beq_ℤ_iff _ _).0 e) (required _ t)
              | inr impossible ↦ cc
            ]
          ]
        ]
      ],
    )

-- The outcome that goes with each case.
outcomes_differ :
    (Outcome.applied ≢ Outcome.ambiguous)
    × (Outcome.applied ≢ Outcome.rejected)
    × (Outcome.ambiguous ≢ Outcome.rejected)
outcomes_differ = (
  ground (arith, eq_iff "applied" "ambiguous"),
  ground (arith, eq_iff "applied" "rejected"),
  ground (arith, eq_iff "ambiguous" "rejected"),
)

pub applied_outcome :
    (response : EncoderVideoCoverApplyResponse)
    → applied_response response ≡ true
    → response.outcome ≡ Outcome.applied
unfolding applied_response
applied_outcome response h = grind tests

ambiguous_outcome :
    (response : EncoderVideoCoverApplyResponse)
    → ambiguous_response response ≡ true
    → response.outcome ≡ Outcome.ambiguous
unfolding ambiguous_response
ambiguous_outcome response h = grind tests

fenced_parts :
    (response : EncoderVideoCoverApplyResponse)
    → fenced_response response ≡ true
    → (response.outcome ≡ Outcome.rejected) × (code_in is_fence_error response.error ≡ true)
unfolding fenced_response is_rejected_response
fenced_parts response h = grind tests

failed_parts :
    (response : EncoderVideoCoverApplyResponse)
    → failed_response response ≡ true
    → (response.outcome ≡ Outcome.rejected)
      × (code_in is_graph_or_asset_error response.error ≡ true)
unfolding failed_response is_rejected_response
failed_parts response h = grind tests

fence_codes :
    (code : String)
    → is_fence_error code ≡ true
    → (code ≡ Code.stale_job_generation)
      ⊎ (code ≡ Code.stale_cover_generation)
      ⊎ (code ≡ Code.stale_cover_revision)
      ⊎ (code ≡ Code.idempotency_conflict)
      ⊎ (code ≡ Code.revision_payload_conflict)
unfolding is_fence_error
fence_codes code h = grind tests

-- No fence error is one of the graph or of an asset.
pub fence_error-graph_or_asset_error :
    (code : String) → is_fence_error code ≡ true → is_graph_or_asset_error code ≡ false
unfolding is_graph_or_asset_error
fence_error-graph_or_asset_error code h = elim (fence_codes code h) [
  | inl e ↦ rw e refl
  | inr (inl e) ↦ rw e refl
  | inr (inr (inl e)) ↦ rw e refl
  | inr (inr (inr (inl e))) ↦ rw e refl
  | inr (inr (inr (inr e))) ↦ rw e refl
]

codes_clash :
    (o : Option VisualSafeError)
    → code_in is_fence_error o ≡ true
    → code_in is_graph_or_asset_error o ≡ true
    → true ≡ false
codes_clash none f g = sym f
codes_clash (some safe_error) f g = sym g ∙ fence_error-graph_or_asset_error safe_error.code f

Answers-status_code :
    (first second : ℤ) (response : EncoderVideoCoverApplyResponse)
    → Answers first response
    → Answers second response
    → first ≡ second
Answers-status_code first second response (answers_applied e t l) (answers_applied e' t' l') =
    e ∙ sym e'
Answers-status_code first second response (answers_applied e t l) (answers_ambiguous e' t') =
    absurd (outcomes_differ.0 (sym (applied_outcome response t) ∙ ambiguous_outcome response t'))
Answers-status_code first second response (answers_applied e t l) (answers_fenced e' t') =
    absurd (outcomes_differ.1 (sym (applied_outcome response t) ∙ (fenced_parts response t').0))
Answers-status_code first second response (answers_applied e t l) (answers_failed e' t') =
    absurd (outcomes_differ.1 (sym (applied_outcome response t) ∙ (failed_parts response t').0))
Answers-status_code first second response (answers_ambiguous e t) (answers_applied e' t' l') =
    absurd (outcomes_differ.0 (sym (applied_outcome response t') ∙ ambiguous_outcome response t))
Answers-status_code first second response (answers_ambiguous e t) (answers_ambiguous e' t') =
    e ∙ sym e'
Answers-status_code first second response (answers_ambiguous e t) (answers_fenced e' t') =
    absurd (outcomes_differ.2 (sym (ambiguous_outcome response t) ∙ (fenced_parts response t').0))
Answers-status_code first second response (answers_ambiguous e t) (answers_failed e' t') =
    absurd (outcomes_differ.2 (sym (ambiguous_outcome response t) ∙ (failed_parts response t').0))
Answers-status_code first second response (answers_fenced e t) (answers_applied e' t' l') =
    absurd (outcomes_differ.1 (sym (applied_outcome response t') ∙ (fenced_parts response t).0))
Answers-status_code first second response (answers_fenced e t) (answers_ambiguous e' t') =
    absurd (outcomes_differ.2 (sym (ambiguous_outcome response t') ∙ (fenced_parts response t).0))
Answers-status_code first second response (answers_fenced e t) (answers_fenced e' t') = e ∙ sym e'
Answers-status_code first second response (answers_fenced e t) (answers_failed e' t') =
    absurd
      (cc (codes_clash response.error (fenced_parts response t).1 (failed_parts response t').1))
Answers-status_code first second response (answers_failed e t) (answers_applied e' t' l') =
    absurd (outcomes_differ.1 (sym (applied_outcome response t') ∙ (failed_parts response t).0))
Answers-status_code first second response (answers_failed e t) (answers_ambiguous e' t') =
    absurd (outcomes_differ.2 (sym (ambiguous_outcome response t') ∙ (failed_parts response t).0))
Answers-status_code first second response (answers_failed e t) (answers_fenced e' t') =
    absurd
      (cc (codes_clash response.error (fenced_parts response t').1 (failed_parts response t).1))
Answers-status_code first second response (answers_failed e t) (answers_failed e' t') = e ∙ sym e'

-- A response is valid with one status code at most.
pub validate_response-status_code :
    (first second : ℤ) (response : EncoderVideoCoverApplyResponse)
    → validate_response first response ≡ pass
    → validate_response second response ≡ pass
    → first ≡ second
validate_response-status_code first second response h h' =
    Answers-status_code first second response (validate_response-Answers first response h).1
      (validate_response-Answers second response h').1
