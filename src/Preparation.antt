-- ===== src/Preparation.antt =====
-- The preparation of an encoder's start: pkg/contracts/encoder_start_preparation.go. A decoder
-- returns its value beside an error too; the model keeps the error alone. The request's stream is
-- only passed on, so it stays the document that it was decoded from.
pub mod Linked
mod Tests
use autostream_contracts.Common.{
  ℕ, String, Bool, true, false, not, ◌&&◌, ◌||◌, Option, none, some, ℤ, pos, ◌==◌, ℕ_eq, ℤ_eq,
  String_eq, List, is_nil, if◌then◌else◌, succeeds, Result, ok, err, require, ◌>>◌, ◌>>=◌,
  start_preparation,
}
use autostream_contracts.Json.{Json}
use autostream_contracts.Json.Strict.{decode_strict}
use autostream_contracts.Port.Types.{Timestamp}
use autostream_contracts.Visual.Types.{VideoCoverRuntimeState}
use autostream_contracts.Visual.Entry.{CoverCodec, validate_cover_state}

pub record EncoderStartPreparationIdentity : Type 0 where
  pub stream_id : String
  pub start_id : String
  pub encoder_service_id : String
  pub job_generation : ℕ
  pub archive_run_id : String

pub record EncoderStartPreparationRequest : Type 0 where
  pub schema_version : ℤ
  pub start_id : String
  pub encoder_service_id : String
  pub start_request : Json

pub record EncoderStartPreparationAction : Type 0 where
  pub schema_version : ℤ
  pub stream_id : String
  pub start_id : String
  pub encoder_service_id : String
  pub job_generation : ℕ

pub record EncoderVideoIngest : Type 0 where
  pub url : String
  pub passphrase : String
  pub pbkeylen : ℤ

pub record EncoderStartPreparationPrepared : Type 0 where
  pub schema_version : ℤ
  pub identity : EncoderStartPreparationIdentity
  pub phase : String
  pub expires_at : Timestamp
  pub video_ingest : EncoderVideoIngest

-- The map of an archive is an association list, which nothing here reads.
pub record EncoderStartStreamResponse : Type 0 where
  pub stream_id : String
  pub name : String
  pub status : String
  pub started_at_jst : String
  pub stopped_at_jst : String
  pub archive : List (String × String)
  pub error : String
  pub video_ingest : Option EncoderVideoIngest

pub record EncoderStartPreparationStatus : Type 0 where
  pub schema_version : ℤ
  pub identity : EncoderStartPreparationIdentity
  pub phase : String
  pub expires_at : Option Timestamp
  pub process : Option EncoderStartStreamResponse
  pub cover_state : Option VideoCoverRuntimeState
  pub code : String

-- encoding/json, the compiled schemas, of which all four load or none, and the video cover's codec.
pub record PreparationSchemas : Type 0 where
  pub request : Json → Bool
  pub action : Json → Bool
  pub prepared : Json → Bool
  pub status : Json → Bool

pub record PreparationCodec : Type 0 where
  pub read_json : String → Option Json
  pub decode_request : Json → Option EncoderStartPreparationRequest
  pub decode_action : Json → Option EncoderStartPreparationAction
  pub decode_prepared : Json → Option EncoderStartPreparationPrepared
  pub decode_status : Json → Option EncoderStartPreparationStatus
  pub marshal_state : VideoCoverRuntimeState → String
  pub schemas : Option PreparationSchemas
  pub cover : CoverCodec

-- Go's `==` on two identities.
unfoldable pub same_identity :
    EncoderStartPreparationIdentity → EncoderStartPreparationIdentity → Bool
same_identity a b =
    a.stream_id == b.stream_id
    && a.start_id == b.start_id
    && a.encoder_service_id == b.encoder_service_id
    && a.job_generation == b.job_generation
    && a.archive_run_id == b.archive_run_id

abbrev pub matching {ℓ} : {Value : Type ℓ} → (Json → Bool) → Option (Value × Json) → Result Value
matching schema none = err start_preparation
matching schema (some (value, document)) =
    if schema document then ok value else err start_preparation

abbrev pub process_linked :
    Option EncoderStartStreamResponse → EncoderStartPreparationIdentity → Bool
process_linked none expected = false
process_linked (some process) expected =
    process.stream_id == expected.stream_id && is_nil process.video_ingest

module _ (codec : PreparationCodec) where
  abbrev pub decode_preparation {ℓ} :
      {Value : Type ℓ}
      → Option PreparationSchemas
      → (PreparationSchemas → Json → Bool)
      → (Json → Option Value)
      → String
      → Result Value
  decode_preparation none kind decode payload = err start_preparation
  decode_preparation (some schemas) kind decode payload =
      matching (kind schemas) (decode_strict codec.read_json decode payload)

  -- `DecodeEncoderStartPreparation`
  unfoldable pub decode_start_preparation : String → Result EncoderStartPreparationRequest
  decode_start_preparation payload =
      decode_preparation codec.schemas (λ schemas. schemas.request) codec.decode_request payload

  -- `DecodeEncoderStartPreparationAction`
  unfoldable pub decode_start_preparation_action :
      String → String → String → Result EncoderStartPreparationAction
  decode_start_preparation_action payload stream_id start_id =
      decode_preparation codec.schemas (λ schemas. schemas.action) codec.decode_action payload
      >>= λ r.
          require (r.stream_id == stream_id && r.start_id == start_id) start_preparation >> ok r

  -- `DecodeEncoderStartPreparationPrepared`
  unfoldable pub decode_start_preparation_prepared :
      String → EncoderStartPreparationIdentity → Result EncoderStartPreparationPrepared
  decode_start_preparation_prepared payload expected =
      decode_preparation codec.schemas (λ schemas. schemas.prepared) codec.decode_prepared payload
      >>= λ r.
          require (same_identity r.identity expected && not (r.expires_at == pos 0))
            start_preparation
          >> ok r

  abbrev pub cover_linked : Option VideoCoverRuntimeState → EncoderStartPreparationIdentity → Bool
  cover_linked none expected = false
  cover_linked (some state) expected =
      state.job_generation == expected.job_generation
      && succeeds (validate_cover_state codec.cover expected.stream_id (codec.marshal_state state))

  -- The tests of a status.
  unfoldable pub status_linked :
      EncoderStartPreparationStatus → EncoderStartPreparationIdentity → Bool
  status_linked r expected =
      same_identity r.identity expected
      && (if r.phase == "running"
          then process_linked r.process expected && cover_linked r.cover_state expected
          else true)

  -- `DecodeEncoderStartPreparationStatus`
  unfoldable pub decode_start_preparation_status :
      String → EncoderStartPreparationIdentity → Result EncoderStartPreparationStatus
  decode_start_preparation_status payload expected =
      decode_preparation codec.schemas (λ schemas. schemas.status) codec.decode_status payload
      >>= λ r. require (status_linked r expected) start_preparation >> ok r
