-- ===== src/Visual/Code.antt =====
-- The constants of `VisualSafeErrorCode`, in pkg/contracts/types_visual.go.
use autostream_contracts.Common.{String}

abbrev pub invalid_theme_id : String
invalid_theme_id = "invalid_theme_id"

abbrev pub media_asset_format_unsupported : String
media_asset_format_unsupported = "media_asset_format_unsupported"

abbrev pub media_asset_too_large : String
media_asset_too_large = "media_asset_too_large"

abbrev pub media_asset_decode_failed : String
media_asset_decode_failed = "media_asset_decode_failed"

abbrev pub media_asset_aspect_ratio_invalid : String
media_asset_aspect_ratio_invalid = "media_asset_aspect_ratio_invalid"

abbrev pub media_asset_variant_processing : String
media_asset_variant_processing = "media_asset_variant_processing"

abbrev pub media_asset_variant_failed : String
media_asset_variant_failed = "media_asset_variant_failed"

abbrev pub media_asset_unauthorized : String
media_asset_unauthorized = "media_asset_unauthorized"

abbrev pub media_asset_not_found : String
media_asset_not_found = "media_asset_not_found"

abbrev pub media_asset_hash_mismatch : String
media_asset_hash_mismatch = "media_asset_hash_mismatch"

abbrev pub media_asset_dimension_mismatch : String
media_asset_dimension_mismatch = "media_asset_dimension_mismatch"

abbrev pub media_asset_timeout : String
media_asset_timeout = "media_asset_timeout"

abbrev pub discord_target_invalid : String
discord_target_invalid = "discord_target_invalid"

abbrev pub preset_not_found : String
preset_not_found = "preset_not_found"

abbrev pub preset_revision_conflict : String
preset_revision_conflict = "preset_revision_conflict"

abbrev pub stale_job_generation : String
stale_job_generation = "stale_job_generation"

abbrev pub stale_cover_generation : String
stale_cover_generation = "stale_cover_generation"

abbrev pub stale_cover_revision : String
stale_cover_revision = "stale_cover_revision"

abbrev pub idempotency_conflict : String
idempotency_conflict = "idempotency_conflict"

abbrev pub cover_apply_ambiguous : String
cover_apply_ambiguous = "cover_apply_ambiguous"

abbrev pub cover_graph_unavailable : String
cover_graph_unavailable = "cover_graph_unavailable"

abbrev pub revision_payload_conflict : String
revision_payload_conflict = "revision_payload_conflict"

abbrev pub capability_required : String
capability_required = "capability_required"
