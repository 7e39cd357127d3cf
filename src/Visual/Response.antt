-- ===== src/Visual/Response.antt =====
-- `validateEncoderVideoCoverApplyRequestSemantics`, `validateEncoderVideoCoverApplyResponseSemantics`
-- and what they use, of pkg/contracts/visual_runtime_validation.go.
pub mod Status
pub mod Applied
use autostream_contracts.Common.{
  String, Bool, false, not, ◌&&◌, Option, none, some, ℤ, pos, ◌==◌, ℕ_eq, ℤ_eq, String_eq, Bool_eq,
  is_nil, if◌then◌else◌, Check, err, require, ◌>>◌, cover_path_body_linkage, cover_request,
  cover_response_status, cover_response_shape, cover_response_linkage,
}
use autostream_contracts.Text.Bytes.{valid_visual_idempotency_key}
use autostream_contracts.Visual.Types.{
  VisualSafeError, MediaAssetDescriptor, EncoderVideoCoverApplyRequest, VideoCoverAppliedWitness,
  EncoderVideoCoverApplyResponse, layer_eq, pipeline_eq,
}
use autostream_contracts.Visual.Code
use autostream_contracts.Visual.Outcome
use autostream_contracts.Visual.Errors.{is_fence_error, is_graph_or_asset_error}
use autostream_contracts.Visual.Asset.{error_valid, valid_media_asset_descriptor}
use autostream_contracts.Visual.State.{valid_runtime_state}

abbrev request_asset_valid : Option MediaAssetDescriptor → Bool
request_asset_valid none = false
request_asset_valid (some asset) =
    valid_media_asset_descriptor asset && asset.usage == "video_cover" && asset.readiness == "ready"

-- `validateEncoderVideoCoverApplyRequestSemantics`
unfoldable pub validate_request : String → EncoderVideoCoverApplyRequest → Check
validate_request path_stream_id request = do
  require
      (not (path_stream_id == "")
        && not (request.stream_id == "")
        && path_stream_id == request.stream_id)
      cover_path_body_linkage
  require
      (not (request.job_generation == 0)
        && not (request.expected_generation == 0)
        && not (request.revision == 0)
        && valid_visual_idempotency_key request.idempotency_key)
      cover_request
  require
      (if request.active
        then not request.hide_confirmed && request_asset_valid request.cover_asset
        else request.hide_confirmed && is_nil request.cover_asset)
      cover_request

-- The error's code, "" where there is none.
abbrev pub has_code : Option VisualSafeError → String → Bool
has_code none code = false
has_code (some safe_error) code = safe_error.code == code

abbrev pub code_in : (String → Bool) → Option VisualSafeError → Bool
code_in class none = false
code_in class (some safe_error) = class safe_error.code

abbrev pub same_code : Option VisualSafeError → Option VisualSafeError → Bool
same_code (some first) (some second) = first.code == second.code
same_code _ _ = false

-- `isRejectedVideoCoverResponse`
unfoldable pub is_rejected_response : EncoderVideoCoverApplyResponse → Bool
is_rejected_response response =
    response.outcome == Outcome.rejected
    && not response.accepted
    && response.rejected
    && not response.applied
    && not (is_nil response.error)

abbrev asset_is : Option MediaAssetDescriptor → String → Bool
asset_is none variant_id = false
asset_is (some asset) variant_id = asset.variant_id == variant_id

-- The tests of `validateAppliedVideoCoverResponseLinkage` once the activity and the witness are
-- there.
unfoldable pub applied_linkage :
    EncoderVideoCoverApplyResponse → VideoCoverAppliedWitness → Bool → Bool
applied_linkage response witness applied_active =
    let actual = response.actual in
    let revision = response.requested_revision in
    let active = actual.desired.active in
    let variant_id = actual.desired.variant_id in
    response.actual_generation == witness.generation
    && actual.desired.revision == revision
    && actual.applied.revision == revision
    && actual.cover.revision == revision
    && witness.revision == revision
    && witness.cover.revision == revision
    && applied_active == active
    && actual.cover.enabled == active
    && witness.active == active
    && witness.cover.enabled == active
    && actual.cover == witness.cover
    && actual.watermark == witness.watermark
    && actual.pipeline == witness.pipeline
    && actual.applied.variant_id == variant_id
    && actual.cover.variant_id == variant_id
    && witness.cover.variant_id == variant_id
    && (if active
        then asset_is actual.cover_asset variant_id
        else variant_id == "" && is_nil actual.cover_asset)

abbrev pub linkage_case :
    EncoderVideoCoverApplyResponse → Option VideoCoverAppliedWitness → Option Bool → Bool
linkage_case response (some witness) (some active) = applied_linkage response witness active
linkage_case response _ _ = false

-- `validateAppliedVideoCoverResponseLinkage`
unfoldable pub validate_applied_linkage : EncoderVideoCoverApplyResponse → Check
validate_applied_linkage response =
    require
      (response.actual.readiness == "ready"
        && response.actual.applied.state == "known"
        && linkage_case response response.actual.applied_witness response.actual.applied.active)
      cover_response_linkage

-- The tests before the switch.
unfoldable pub response_shape : EncoderVideoCoverApplyResponse → Bool
response_shape response =
    not (response.stream_id == "")
    && not (response.job_generation == 0)
    && not (response.requested_revision == 0)
    && not (response.actual_generation == 0)
    && response.stream_id == response.actual.stream_id
    && response.job_generation == response.actual.job_generation
    && response.actual_generation == response.actual.generation
    && valid_runtime_state response.actual
    && error_valid response.error

-- The cases of the switch on the status code.
unfoldable pub applied_response : EncoderVideoCoverApplyResponse → Bool
applied_response response =
    response.outcome == Outcome.applied
    && response.accepted
    && not response.rejected
    && response.applied
    && is_nil response.error

unfoldable pub ambiguous_response : EncoderVideoCoverApplyResponse → Bool
ambiguous_response response =
    response.outcome == Outcome.ambiguous
    && response.accepted
    && not response.rejected
    && not response.applied
    && has_code response.error Code.cover_apply_ambiguous
    && response.actual.readiness == "unknown"
    && response.actual.applied.state == "unknown"
    && is_nil response.actual.applied_witness
    && has_code response.actual.error Code.cover_apply_ambiguous

unfoldable pub fenced_response : EncoderVideoCoverApplyResponse → Bool
fenced_response response = is_rejected_response response && code_in is_fence_error response.error

unfoldable pub failed_response : EncoderVideoCoverApplyResponse → Bool
failed_response response =
    is_rejected_response response
    && code_in is_graph_or_asset_error response.error
    && not (response.actual.readiness == "ready")
    && same_code response.actual.error response.error

-- `validateEncoderVideoCoverApplyResponseSemantics`
unfoldable pub validate_response : ℤ → EncoderVideoCoverApplyResponse → Check
validate_response status_code response = do
  require (response_shape response) cover_response_shape
  if status_code == pos 200
      then (require (applied_response response) cover_response_status
          >> validate_applied_linkage response)
      else if status_code == pos 202
      then require (ambiguous_response response) cover_response_status
      else if status_code == pos 409
      then require (fenced_response response) cover_response_status
      else if status_code == pos 502
      then require (failed_response response) cover_response_status
      else err cover_response_status
