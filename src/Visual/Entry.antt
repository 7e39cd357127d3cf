-- ===== src/Visual/Entry.antt =====
-- The raw entry points of pkg/contracts/visual_runtime_validation.go. Their strict decoder is the
-- one of the Updater with other errors, none of which leaves it. The codec is encoding/json and the
-- compiled schemas, of which all four load or none.
pub mod Accepted
mod Tests
use autostream_contracts.Common.{
  String, Bool, not, ◌&&◌, Option, none, some, ℤ, pos, ◌==◌, ℤ_eq, String_eq, if◌then◌else◌, Check,
  err, require, ◌>>◌, cover_schema, cover_request, cover_response_shape, cover_runtime_state,
  cover_path_body_linkage,
}
use autostream_contracts.Json.{Json}
use autostream_contracts.Json.Entry.{entry}
use autostream_contracts.Visual.Types.{
  EncoderVideoCoverApplyRequest, EncoderVideoCoverApplyResponse, VideoCoverRuntimeState,
}
use autostream_contracts.Visual.Code
use autostream_contracts.Visual.State.{valid_runtime_state}
use autostream_contracts.Visual.Response.{validate_request, validate_response}

pub record EncoderVideoCoverUnavailableResponse : Type 0 where
  pub code : String

pub record CoverSchemas : Type 0 where
  pub request : Json → Bool
  pub response : Json → Bool
  pub runtime : Json → Bool
  pub unavailable : Json → Bool

pub record CoverCodec : Type 0 where
  pub read_json : String → Option Json
  pub decode_request : Json → Option EncoderVideoCoverApplyRequest
  pub decode_response : Json → Option EncoderVideoCoverApplyResponse
  pub decode_unavailable : Json → Option EncoderVideoCoverUnavailableResponse
  pub decode_state : Json → Option VideoCoverRuntimeState
  pub schemas : Option CoverSchemas

-- The tests of a decoded state for a path.
unfoldable pub validate_state_for_path : String → VideoCoverRuntimeState → Check
validate_state_for_path path_stream_id state = do
  require
      (not (path_stream_id == "")
        && not (state.stream_id == "")
        && path_stream_id == state.stream_id)
      cover_path_body_linkage
  require (valid_runtime_state state) cover_runtime_state

module _ (codec : CoverCodec) where
  abbrev pub request_entry : Option CoverSchemas → String → String → Check
  request_entry none path_stream_id payload = err cover_schema
  request_entry (some schemas) path_stream_id payload =
      entry codec.read_json codec.decode_request schemas.request cover_request
        (validate_request path_stream_id) payload

  -- `ValidateEncoderVideoCoverApplyRequest`
  unfoldable pub validate_cover_request : String → String → Check
  validate_cover_request path_stream_id payload = request_entry codec.schemas path_stream_id payload

  abbrev pub response_entry : Option CoverSchemas → ℤ → String → Check
  response_entry none status_code payload = err cover_schema
  response_entry (some schemas) status_code payload =
      if status_code == pos 404
      then entry codec.read_json codec.decode_unavailable schemas.unavailable cover_response_shape
          (λ response. require (response.code == Code.capability_required) cover_response_shape)
          payload
      else entry codec.read_json codec.decode_response schemas.response cover_response_shape
          (validate_response status_code) payload

  -- `ValidateEncoderVideoCoverApplyResponse`
  unfoldable pub validate_cover_response : ℤ → String → Check
  validate_cover_response status_code payload = response_entry codec.schemas status_code payload

  abbrev pub state_entry : Option CoverSchemas → String → String → Check
  state_entry none path_stream_id payload = err cover_schema
  state_entry (some schemas) path_stream_id payload =
      entry codec.read_json codec.decode_state schemas.runtime cover_runtime_state
        (validate_state_for_path path_stream_id) payload

  -- `ValidateEncoderVideoCoverRuntimeState`
  unfoldable pub validate_cover_state : String → String → Check
  validate_cover_state path_stream_id payload = state_entry codec.schemas path_stream_id payload
