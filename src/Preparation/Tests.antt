-- ===== src/Preparation/Tests.antt =====
-- A status of a running start at a concrete input.
use autostream_contracts.Common.{true, refl, ◌≡◌, ◌≢◌, ◌⊎◌, some, none, [], pos, ok}
use autostream_contracts.Json.{object, no_members}
use autostream_contracts.Json.Strict.{decode_strict, strict_value}
use autostream_contracts.Json.Entry.{entry}
use autostream_contracts.Visual.Samples.{ready_state}
use autostream_contracts.Visual.Running.{states}
use autostream_contracts.Visual.Entry.{CoverCodec, validate_state_for_path, validate_cover_state}
use autostream_contracts.Preparation.{
  EncoderStartPreparationIdentity, EncoderStartPreparationStatus, PreparationCodec, same_identity,
  status_linked, decode_start_preparation_status,
}
use autostream_contracts.Preparation.Linked.{Shows, decode_start_preparation_status-Shows}

abbrev identity : EncoderStartPreparationIdentity
identity = record {
  stream_id = ready_state.stream_id;
  start_id = "start-1";
  encoder_service_id = "encoder-1";
  job_generation = ready_state.job_generation;
  archive_run_id = "run-1";
}

abbrev status : EncoderStartPreparationStatus
status = record {
  schema_version = pos 1;
  identity = identity;
  phase = "running";
  expires_at = none;
  process = some (record {
    stream_id = ready_state.stream_id;
    name = "stream";
    status = "running";
    started_at_jst = "2026-01-01T00:00:00";
    stopped_at_jst = "";
    archive = [];
    error = "";
    video_ingest = none;
  });
  cover_state = some ready_state;
  code = "";
}

abbrev cover_codec : CoverCodec
cover_codec = record {
  read_json = λ payload. some (object no_members);
  decode_request = λ document. none;
  decode_response = λ document. none;
  decode_unavailable = λ document. none;
  decode_state = λ document. some ready_state;
  schemas = some (record {
    request = λ document. true;
    response = λ document. true;
    runtime = λ document. true;
    unavailable = λ document. true;
  });
}

abbrev codec : PreparationCodec
codec = record {
  read_json = λ payload. some (object no_members);
  decode_request = λ document. none;
  decode_action = λ document. none;
  decode_prepared = λ document. none;
  decode_status = λ document. some status;
  marshal_state = λ state. "{}";
  schemas = some (record {
    request = λ document. true;
    action = λ document. true;
    prepared = λ document. true;
    status = λ document. true;
  });
  cover = cover_codec;
}

status_accepted : decode_start_preparation_status codec "{}" identity ≡ ok status
unfolding states validate_state_for_path validate_cover_state entry decode_strict strict_value
    same_identity status_linked decode_start_preparation_status
status_accepted = refl

decode_start_preparation_status-Shows_example :
    (status.identity ≡ identity) × ((status.phase ≢ "running") ⊎ Shows codec identity status)
decode_start_preparation_status-Shows_example =
    decode_start_preparation_status-Shows codec "{}" identity status status_accepted
