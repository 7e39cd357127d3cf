-- ===== src/Visual/Errors.antt =====
-- The classes of safe error codes, of pkg/contracts/visual_runtime_validation.go.
use autostream_contracts.Common.{String, Bool, ◌&&◌, ◌||◌, ◌==◌, String_eq}
use autostream_contracts.Text.Bytes.{valid_visual_identifier}
use autostream_contracts.Visual.Types.{VisualSafeError}
use autostream_contracts.Visual.Code

-- `isVisualSafeErrorCode`
unfoldable pub is_visual_safe_error_code : String → Bool
is_visual_safe_error_code code =
    code == Code.invalid_theme_id
    || code == Code.media_asset_format_unsupported
    || code == Code.media_asset_too_large
    || code == Code.media_asset_decode_failed
    || code == Code.media_asset_aspect_ratio_invalid
    || code == Code.media_asset_variant_processing
    || code == Code.media_asset_variant_failed
    || code == Code.media_asset_unauthorized
    || code == Code.media_asset_not_found
    || code == Code.media_asset_hash_mismatch
    || code == Code.media_asset_dimension_mismatch
    || code == Code.media_asset_timeout
    || code == Code.discord_target_invalid
    || code == Code.preset_not_found
    || code == Code.preset_revision_conflict
    || code == Code.stale_job_generation
    || code == Code.stale_cover_generation
    || code == Code.stale_cover_revision
    || code == Code.idempotency_conflict
    || code == Code.cover_apply_ambiguous
    || code == Code.cover_graph_unavailable
    || code == Code.revision_payload_conflict
    || code == Code.capability_required

-- `isVideoCoverFenceError`
unfoldable pub is_fence_error : String → Bool
is_fence_error code =
    code == Code.stale_job_generation
    || code == Code.stale_cover_generation
    || code == Code.stale_cover_revision
    || code == Code.idempotency_conflict
    || code == Code.revision_payload_conflict

-- `isVideoCoverGraphOrAssetError`
unfoldable pub is_graph_or_asset_error : String → Bool
is_graph_or_asset_error code =
    code == Code.media_asset_format_unsupported
    || code == Code.media_asset_too_large
    || code == Code.media_asset_decode_failed
    || code == Code.media_asset_aspect_ratio_invalid
    || code == Code.media_asset_variant_processing
    || code == Code.media_asset_variant_failed
    || code == Code.media_asset_unauthorized
    || code == Code.media_asset_not_found
    || code == Code.media_asset_hash_mismatch
    || code == Code.media_asset_dimension_mismatch
    || code == Code.media_asset_timeout
    || code == Code.cover_graph_unavailable
    || code == Code.capability_required

-- `validVisualSafeError`
unfoldable pub valid_visual_safe_error : VisualSafeError → Bool
valid_visual_safe_error safe_error =
    is_visual_safe_error_code safe_error.code
    && (safe_error.request_id == "" || valid_visual_identifier safe_error.request_id)
