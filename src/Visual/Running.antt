-- ===== src/Visual/Running.antt =====
-- The definitions that a run of the video cover's validators computes with, for the tests'
-- `unfolding` lines.
use autostream_contracts.Text.{
  is_alphanumeric, is_identifier_character, is_hex, bytes, all_characters, is_printable,
}
use autostream_contracts.Text.Bytes.{
  identifier_bytes, valid_visual_identifier, valid_visual_sha256, valid_visual_idempotency_key,
}
use autostream_contracts.Port.Running.{integers}
use autostream_contracts.Visual.Types.{layer_beq, continuity_beq, pipeline_beq}
use autostream_contracts.Visual.Errors.{
  is_visual_safe_error_code, is_fence_error, is_graph_or_asset_error, valid_visual_safe_error,
}
use autostream_contracts.Visual.Asset.{
  valid_visual_readiness, asset_fields, valid_media_asset_descriptor,
}
use autostream_contracts.Visual.State.{
  valid_desired_state, valid_applied_state, valid_layer_state, valid_pipeline_invariant,
  valid_applied_witness, known_matches, state_fields, valid_runtime_state,
}
use autostream_contracts.Visual.Response.{
  validate_request, is_rejected_response, applied_linkage, validate_applied_linkage, response_shape,
  applied_response, ambiguous_response, fenced_response, failed_response, validate_response,
}

unfoldable pub states : Unit {0}
unfolding integers is_alphanumeric is_identifier_character is_hex bytes identifier_bytes
    valid_visual_identifier valid_visual_sha256 layer_beq continuity_beq pipeline_beq
    is_visual_safe_error_code valid_visual_safe_error valid_visual_readiness asset_fields
    valid_media_asset_descriptor valid_desired_state valid_applied_state valid_layer_state
    valid_pipeline_invariant valid_applied_witness known_matches state_fields valid_runtime_state
states = tt

unfoldable pub responses : Unit {0}
unfolding states all_characters is_printable valid_visual_idempotency_key validate_request
    is_fence_error is_graph_or_asset_error is_rejected_response applied_linkage
    validate_applied_linkage response_shape applied_response ambiguous_response fenced_response
    failed_response validate_response
responses = tt
