-- ===== src/Visual/State.antt =====
-- `validVideoCoverRuntimeState` and its parts, of pkg/contracts/visual_runtime_validation.go.
pub mod Converged
use autostream_contracts.Common.{
  String, Bool, true, false, not, ◌&&◌, ◌||◌, Option, none, some, List, [], ◌∷◌, pos, ◌==◌, ℕ_eq,
  String_eq, Bool_eq, List_eq, is_nil, if◌then◌else◌,
}
use autostream_contracts.Text.Bytes.{valid_visual_identifier}
use autostream_contracts.Visual.Types.{
  MediaAssetDescriptor, VideoCoverDesiredState, VideoCoverAppliedState, VideoVisualLayerState,
  VisualAudioContinuity, VisualPipelineInvariant, VideoCoverAppliedWitness, VideoCoverRuntimeState,
  layer_eq, continuity_eq, pipeline_eq,
}
use autostream_contracts.Visual.Asset.{
  valid_visual_readiness, error_valid, valid_media_asset_descriptor,
}

-- `validVideoCoverDesiredState`
unfoldable pub valid_desired_state : VideoCoverDesiredState → Bool
valid_desired_state state =
    not (state.revision == 0)
    && (if state.active
        then (state.source == "preset" || state.source == "upload")
          && valid_visual_identifier state.variant_id
        else state.source == "none" && state.variant_id == "")

abbrev variant_matches : Option Bool → String → Bool
variant_matches none variant_id = false
variant_matches (some active) variant_id =
    if active then valid_visual_identifier variant_id else variant_id == ""

-- `validVideoCoverAppliedState`
unfoldable pub valid_applied_state : VideoCoverAppliedState → Bool
valid_applied_state state =
    if state.state == "known"
    then not (state.revision == 0) && variant_matches state.active state.variant_id
    else if state.state == "unknown"
    then is_nil state.active && state.revision == 0 && state.variant_id == ""
    else false

-- `validKnownVideoCoverAppliedState`, of a state that is there.
abbrev last_good_valid : Option VideoCoverAppliedState → Bool
last_good_valid none = true
last_good_valid (some state) = state.state == "known" && valid_applied_state state

-- `validVideoVisualLayerState`
unfoldable pub valid_layer_state : VideoVisualLayerState → Bool
valid_layer_state state =
    not (state.revision == 0)
    && (if state.enabled then valid_visual_identifier state.variant_id else state.variant_id == "")

abbrev pub expected_layers : List String
expected_layers =
    "base_or_worker_scene" ∷ "video_cover" ∷ "watermark" ∷ "video_encode"
    ∷ "tee_live_archive_preview" ∷ []

abbrev pub expected_outputs : List String
expected_outputs = "live" ∷ "archive" ∷ "preview" ∷ []

abbrev pub no_interruption : VisualAudioContinuity
no_interruption = record {
  process_restart = pos 0;
  audio_encoder_restart = pos 0;
  audio_mux_restart = pos 0;
  graph_rebuild = pos 0;
  reconnect = pos 0;
  sequence_loss = pos 0;
  timestamp_discontinuity = pos 0;
  intentional_mute_insertion = pos 0;
}

-- `validVisualPipelineInvariant`
unfoldable pub valid_pipeline_invariant : VisualPipelineInvariant → Bool
valid_pipeline_invariant pipeline =
    pipeline.layers == expected_layers
    && pipeline.watermark_topmost
    && pipeline.cover_watermark_independent
    && pipeline.output_parity == expected_outputs
    && pipeline.audio_continuity == no_interruption

-- `validVideoCoverAppliedWitness`
unfoldable pub valid_applied_witness : VideoCoverAppliedWitness → Bool
valid_applied_witness witness =
    witness.graph_applied
    && not (witness.generation == 0)
    && not (witness.revision == 0)
    && valid_layer_state witness.cover
    && valid_layer_state witness.watermark
    && valid_pipeline_invariant witness.pipeline
    && witness.active == witness.cover.enabled
    && witness.revision == witness.cover.revision

abbrev pub cover_asset_valid : Bool → Option MediaAssetDescriptor → String → Bool
cover_asset_valid true none variant_id = false
cover_asset_valid true (some asset) variant_id =
    valid_media_asset_descriptor asset
    && asset.usage == "video_cover"
    && asset.variant_id == variant_id
cover_asset_valid false asset variant_id = is_nil asset

-- The case of a known applied state, which needs the witness and the activity.
unfoldable pub known_matches : VideoCoverRuntimeState → VideoCoverAppliedWitness → Bool → Bool
known_matches state witness active =
    valid_applied_witness witness
    && witness.generation == state.generation
    && witness.revision == state.applied.revision
    && witness.active == active
    && state.cover == witness.cover
    && state.watermark == witness.watermark
    && state.pipeline == witness.pipeline
    && state.cover.enabled == active
    && state.cover.revision == state.applied.revision
    && state.cover.variant_id == state.applied.variant_id
    && (not (state.readiness == "ready")
        || (state.desired.active == active
            && state.desired.revision == state.applied.revision
            && state.desired.variant_id == state.applied.variant_id))

abbrev pub known_case :
    VideoCoverRuntimeState → Option VideoCoverAppliedWitness → Option Bool → Bool
known_case state (some witness) (some active) = known_matches state witness active
known_case state _ _ = false

-- The tests before the switch.
unfoldable pub state_fields : VideoCoverRuntimeState → Bool
state_fields state =
    not (state.stream_id == "")
    && not (state.job_generation == 0)
    && not (state.generation == 0)
    && state.capability == "live_video_cover_v1"
    && valid_visual_readiness state.readiness
    && valid_desired_state state.desired
    && valid_applied_state state.applied
    && valid_layer_state state.cover
    && valid_layer_state state.watermark
    && valid_pipeline_invariant state.pipeline
    && state.no_automatic_resend
    && cover_asset_valid state.desired.active state.cover_asset state.desired.variant_id
    && error_valid state.error
    && (if state.readiness == "ready"
        then is_nil state.error && state.applied.state == "known"
        else not (is_nil state.error))
    && last_good_valid state.last_good_applied

-- `validVideoCoverRuntimeState`
unfoldable pub valid_runtime_state : VideoCoverRuntimeState → Bool
valid_runtime_state state =
    state_fields state
    && (if state.applied.state == "known"
        then known_case state state.applied_witness state.applied.active
        else if state.applied.state == "unknown"
        then not (state.readiness == "ready")
          && is_nil state.applied_witness
          && not (is_nil state.last_good_applied)
        else false)
