-- ===== src/Visual/Samples.antt =====
-- Test data: a cover that is shown.
use autostream_contracts.Common.{String, true, false, none, some, pos}
use autostream_contracts.Visual.Types.{
  VisualSafeError, MediaAssetDescriptor, VideoVisualLayerState, VisualPipelineInvariant,
  VideoCoverAppliedWitness, VideoCoverRuntimeState, EncoderVideoCoverApplyResponse,
}
use autostream_contracts.Visual.Code
use autostream_contracts.Visual.Outcome
use autostream_contracts.Visual.State.{expected_layers, expected_outputs, no_interruption}

abbrev raw_digest : String
raw_digest = "aaaaaaaaaaaaaaaaaaaaaaaaaaaaaaaaaaaaaaaaaaaaaaaaaaaaaaaaaaaaaaaa"

abbrev pub cover : MediaAssetDescriptor
cover = record {
  asset_id = "asset-1";
  variant_id = "variant-1";
  usage = "video_cover";
  media_type = "image/png";
  width = pos 1920;
  height = pos 1080;
  byte_size = pos 4096;
  pixel_count = pos 2073600;
  animated = false;
  aspect_ratio_error_ppm = some (pos 0);
  opaque = some true;
  sha256 = raw_digest;
  revision = 1;
  readiness = "ready";
  error = none;
}

abbrev pub cover_layer : VideoVisualLayerState
cover_layer = record { enabled = true; revision = 4; variant_id = "variant-1" }

abbrev pub watermark_layer : VideoVisualLayerState
watermark_layer = record { enabled = false; revision = 2; variant_id = "" }

abbrev pub pipeline : VisualPipelineInvariant
pipeline = record {
  layers = expected_layers;
  watermark_topmost = true;
  cover_watermark_independent = true;
  output_parity = expected_outputs;
  audio_continuity = no_interruption;
}

abbrev pub shown : VideoCoverAppliedWitness
shown = record {
  graph_applied = true;
  generation = 3;
  revision = 4;
  active = true;
  cover = cover_layer;
  watermark = watermark_layer;
  pipeline = pipeline;
}

abbrev pub ready_state : VideoCoverRuntimeState
ready_state = record {
  stream_id = "stream-1";
  job_generation = 2;
  generation = 3;
  capability = "live_video_cover_v1";
  readiness = "ready";
  desired = record { active = true; revision = 4; source = "upload"; variant_id = "variant-1" };
  applied = record { state = "known"; active = some true; revision = 4; variant_id = "variant-1" };
  cover = cover_layer;
  cover_asset = some cover;
  watermark = watermark_layer;
  pipeline = pipeline;
  applied_witness = some shown;
  no_automatic_resend = true;
  last_good_applied = none;
  error = none;
}

abbrev pub applied_answer : EncoderVideoCoverApplyResponse
applied_answer = record {
  stream_id = "stream-1";
  job_generation = 2;
  requested_revision = 4;
  actual_generation = 3;
  accepted = true;
  rejected = false;
  applied = true;
  outcome = Outcome.applied;
  actual = ready_state;
  error = none;
}

abbrev stale : VisualSafeError
stale = record { code = Code.stale_cover_revision; request_id = "request-1" }

abbrev pub fenced_answer : EncoderVideoCoverApplyResponse
fenced_answer = record applied_answer {
  accepted = false;
  rejected = true;
  applied = false;
  outcome = Outcome.rejected;
  error = some stale;
}
