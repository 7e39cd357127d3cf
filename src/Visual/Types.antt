-- ===== src/Visual/Types.antt =====
-- The structures of the video cover, of pkg/contracts/types_visual.go. Go's uint64 is ℕ: no
-- operation of these modules computes with one.
use autostream_contracts.Common.{
  ℕ, String, Bool, true, ◌&&◌, Option, List, ℤ, ◌≡◌, ◌↔◌, arith, Eq, ◌==◌, ℕ_eq, ℤ_eq, String_eq,
  Bool_eq, List_eq, nat_beq_iff, beq_ℤ_iff, eq_iff, bool_beq_iff, list_beq_iff,
}

pub record VisualSafeError : Type 0 where
  pub code : String
  pub request_id : String

pub record MediaAssetDescriptor : Type 0 where
  pub asset_id : String
  pub variant_id : String
  pub usage : String
  pub media_type : String
  pub width : ℤ
  pub height : ℤ
  pub byte_size : ℤ
  pub pixel_count : ℤ
  pub animated : Bool
  pub aspect_ratio_error_ppm : Option ℤ
  pub opaque : Option Bool
  pub sha256 : String
  pub revision : ℕ
  pub readiness : String
  pub error : Option VisualSafeError

pub record EncoderVideoCoverApplyRequest : Type 0 where
  pub stream_id : String
  pub job_generation : ℕ
  pub expected_generation : ℕ
  pub revision : ℕ
  pub active : Bool
  pub idempotency_key : String
  pub cover_asset : Option MediaAssetDescriptor
  pub hide_confirmed : Bool

pub record VideoCoverDesiredState : Type 0 where
  pub active : Bool
  pub revision : ℕ
  pub source : String
  pub variant_id : String

pub record VideoCoverAppliedState : Type 0 where
  pub state : String
  pub active : Option Bool
  pub revision : ℕ
  pub variant_id : String

pub record VideoVisualLayerState : Type 0 where
  pub enabled : Bool
  pub revision : ℕ
  pub variant_id : String

-- Go's `==` on two layers.
unfoldable pub layer_beq : VideoVisualLayerState → VideoVisualLayerState → Bool
layer_beq a b = a.enabled == b.enabled && a.revision == b.revision && a.variant_id == b.variant_id

pub layer_beq_iff : (a b : VideoVisualLayerState) → (layer_beq a b ≡ true) ↔ (a ≡ b)
unfolding layer_beq
layer_beq_iff a b = ground (
  arith,
  bool_beq_iff a.enabled b.enabled,
  nat_beq_iff a.revision b.revision,
  eq_iff a.variant_id b.variant_id,
)

instance abbrev pub layer_eq : Eq VideoVisualLayerState
layer_eq = record { beq = layer_beq; beq_iff = layer_beq_iff }

pub record VisualAudioContinuity : Type 0 where
  pub process_restart : ℤ
  pub audio_encoder_restart : ℤ
  pub audio_mux_restart : ℤ
  pub graph_rebuild : ℤ
  pub reconnect : ℤ
  pub sequence_loss : ℤ
  pub timestamp_discontinuity : ℤ
  pub intentional_mute_insertion : ℤ

unfoldable pub continuity_beq : VisualAudioContinuity → VisualAudioContinuity → Bool
continuity_beq a b =
    a.process_restart == b.process_restart
    && a.audio_encoder_restart == b.audio_encoder_restart
    && a.audio_mux_restart == b.audio_mux_restart
    && a.graph_rebuild == b.graph_rebuild
    && a.reconnect == b.reconnect
    && a.sequence_loss == b.sequence_loss
    && a.timestamp_discontinuity == b.timestamp_discontinuity
    && a.intentional_mute_insertion == b.intentional_mute_insertion

pub continuity_beq_iff : (a b : VisualAudioContinuity) → (continuity_beq a b ≡ true) ↔ (a ≡ b)
unfolding continuity_beq
continuity_beq_iff a b = ground (
  arith,
  beq_ℤ_iff a.process_restart b.process_restart,
  beq_ℤ_iff a.audio_encoder_restart b.audio_encoder_restart,
  beq_ℤ_iff a.audio_mux_restart b.audio_mux_restart,
  beq_ℤ_iff a.graph_rebuild b.graph_rebuild,
  beq_ℤ_iff a.reconnect b.reconnect,
  beq_ℤ_iff a.sequence_loss b.sequence_loss,
  beq_ℤ_iff a.timestamp_discontinuity b.timestamp_discontinuity,
  beq_ℤ_iff a.intentional_mute_insertion b.intentional_mute_insertion,
)

instance abbrev pub continuity_eq : Eq VisualAudioContinuity
continuity_eq = record { beq = continuity_beq; beq_iff = continuity_beq_iff }

pub record VisualPipelineInvariant : Type 0 where
  pub layers : List String
  pub watermark_topmost : Bool
  pub cover_watermark_independent : Bool
  pub output_parity : List String
  pub audio_continuity : VisualAudioContinuity

-- `equalVisualPipelineInvariant`
unfoldable pub pipeline_beq : VisualPipelineInvariant → VisualPipelineInvariant → Bool
pipeline_beq a b =
    a.layers == b.layers
    && a.watermark_topmost == b.watermark_topmost
    && a.cover_watermark_independent == b.cover_watermark_independent
    && a.output_parity == b.output_parity
    && a.audio_continuity == b.audio_continuity

pub pipeline_beq_iff : (a b : VisualPipelineInvariant) → (pipeline_beq a b ≡ true) ↔ (a ≡ b)
unfolding pipeline_beq
pipeline_beq_iff a b = ground (
  arith,
  list_beq_iff a.layers b.layers,
  bool_beq_iff a.watermark_topmost b.watermark_topmost,
  bool_beq_iff a.cover_watermark_independent b.cover_watermark_independent,
  list_beq_iff a.output_parity b.output_parity,
  continuity_beq_iff a.audio_continuity b.audio_continuity,
)

instance abbrev pub pipeline_eq : Eq VisualPipelineInvariant
pipeline_eq = record { beq = pipeline_beq; beq_iff = pipeline_beq_iff }

pub record VideoCoverAppliedWitness : Type 0 where
  pub graph_applied : Bool
  pub generation : ℕ
  pub revision : ℕ
  pub active : Bool
  pub cover : VideoVisualLayerState
  pub watermark : VideoVisualLayerState
  pub pipeline : VisualPipelineInvariant

pub record VideoCoverRuntimeState : Type 0 where
  pub stream_id : String
  pub job_generation : ℕ
  pub generation : ℕ
  pub capability : String
  pub readiness : String
  pub desired : VideoCoverDesiredState
  pub applied : VideoCoverAppliedState
  pub cover : VideoVisualLayerState
  pub cover_asset : Option MediaAssetDescriptor
  pub watermark : VideoVisualLayerState
  pub pipeline : VisualPipelineInvariant
  pub applied_witness : Option VideoCoverAppliedWitness
  pub no_automatic_resend : Bool
  pub last_good_applied : Option VideoCoverAppliedState
  pub error : Option VisualSafeError

pub record EncoderVideoCoverApplyResponse : Type 0 where
  pub stream_id : String
  pub job_generation : ℕ
  pub requested_revision : ℕ
  pub actual_generation : ℕ
  pub accepted : Bool
  pub rejected : Bool
  pub applied : Bool
  pub outcome : String
  pub actual : VideoCoverRuntimeState
  pub error : Option VisualSafeError
