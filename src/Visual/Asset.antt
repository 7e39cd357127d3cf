-- ===== src/Visual/Asset.antt =====
-- `validMediaAssetDescriptor` of pkg/contracts/visual_runtime_validation.go.
use autostream_contracts.Common.{
  String, Bool, true, false, not, ◌&&◌, ◌||◌, Option, none, some, ℤ, pos, pos_part, ◌*◌, leb_ℤ,
  ◌==◌, ℕ_eq, ℤ_eq, String_eq, is_nil, if◌then◌else◌,
}
use autostream_contracts.Text.Bytes.{valid_visual_identifier, valid_visual_sha256}
use autostream_contracts.Visual.Types.{VisualSafeError, MediaAssetDescriptor}
use autostream_contracts.Visual.Errors.{valid_visual_safe_error}

-- `validVisualReadiness`
unfoldable pub valid_visual_readiness : String → Bool
valid_visual_readiness readiness =
    readiness == "ready" || readiness == "not_ready" || readiness == "unknown"

-- A safe error that is there is a valid one.
abbrev pub error_valid : Option VisualSafeError → Bool
error_valid none = true
error_valid (some safe_error) = valid_visual_safe_error safe_error

abbrev pub is_small : Option ℤ → Bool
is_small none = false
is_small (some error) = leb_ℤ (pos 0) error && leb_ℤ error (pos 1000)

abbrev pub holds : Option Bool → Bool
holds none = false
holds (some b) = b

-- The first test. A width and a height that passed are between 1 and 8192: their product is that of
-- two positive numbers, with no wrap-around.
unfoldable pub asset_fields : MediaAssetDescriptor → Bool
asset_fields asset =
    valid_visual_identifier asset.asset_id
    && valid_visual_identifier asset.variant_id
    && (asset.usage == "scene_background" || asset.usage == "video_cover")
    && (asset.media_type == "image/png"
        || asset.media_type == "image/jpeg"
        || asset.media_type == "image/webp")
    && leb_ℤ (pos 1) asset.width
    && leb_ℤ asset.width (pos 8192)
    && leb_ℤ (pos 1) asset.height
    && leb_ℤ asset.height (pos 8192)
    && leb_ℤ (pos 1) asset.byte_size
    && leb_ℤ asset.byte_size (pos 20971520)
    && leb_ℤ (pos 1) asset.pixel_count
    && leb_ℤ asset.pixel_count (pos 40000000)
    && asset.pixel_count == pos (pos_part asset.width * pos_part asset.height)
    && not asset.animated
    && valid_visual_sha256 asset.sha256
    && not (asset.revision == 0)
    && valid_visual_readiness asset.readiness

-- `validMediaAssetDescriptor`
unfoldable pub valid_media_asset_descriptor : MediaAssetDescriptor → Bool
valid_media_asset_descriptor asset =
    asset_fields asset
    && error_valid asset.error
    && (if asset.readiness == "ready" then is_nil asset.error else not (is_nil asset.error))
    && (if asset.usage == "video_cover"
        then is_small asset.aspect_ratio_error_ppm && holds asset.opaque
        else is_nil asset.aspect_ratio_error_ppm && is_nil asset.opaque)
