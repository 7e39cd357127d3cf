-- ===== src/Visual/Entry/Accepted.antt =====
-- What the raw entry points of the video cover have accepted.
use autostream_contracts.Common.{
  String, true, not, ◌&&◌, ◌≡◌, ◌≢◌, Option, none, some, pos, pass, require-passes, ◌==◌, String_eq,
  ℤ_eq, beq_ℤ, arith, and_true, eq_iff, cover_response_shape, cover_runtime_state,
  cover_path_body_linkage, sym,
}
use autostream_contracts.Json.{Json}
use autostream_contracts.Json.Entry.Accepted.{entry-Accepted}
use autostream_contracts.Visual.Types.{EncoderVideoCoverApplyResponse, VideoCoverRuntimeState}
use autostream_contracts.Visual.Outcome
use autostream_contracts.Visual.State.{valid_runtime_state}
use autostream_contracts.Visual.State.Converged.{IsConverged}
use autostream_contracts.Visual.Response.{validate_response}
use autostream_contracts.Visual.Response.Applied.{validate_response-IsConverged}
use autostream_contracts.Visual.Entry.{
  CoverCodec, CoverSchemas, validate_state_for_path, response_entry, validate_cover_response,
  state_entry, validate_cover_state,
}

module _ (codec : CoverCodec) where
  -- A state for a stream, as it was read.
  pub record StateRead (path_stream_id payload : String) : Type 0 where
    pub document : Json
    pub state : VideoCoverRuntimeState
    pub read : codec.read_json payload ≡ some document
    pub decoded : codec.decode_state document ≡ some state
    pub named : path_stream_id ≢ ""
    pub of_stream : state.stream_id ≡ path_stream_id
    pub valid : valid_runtime_state state ≡ true

  -- An answer that the cover was applied, as it was read.
  pub record AppliedRead (payload : String) : Type 0 where
    pub document : Json
    pub response : EncoderVideoCoverApplyResponse
    pub read : codec.read_json payload ≡ some document
    pub decoded : codec.decode_response document ≡ some response
    pub outcome : response.outcome ≡ Outcome.applied
    pub converged : IsConverged response.actual
    pub revision : response.actual.desired.revision ≡ response.requested_revision
    pub generation : response.actual.generation ≡ response.actual_generation

  state_entry-parts :
      (schemas : Option CoverSchemas) (path_stream_id payload : String)
      → state_entry codec schemas path_stream_id payload ≡ pass
      → StateRead path_stream_id payload
  unfolding validate_state_for_path
  state_entry-parts none path_stream_id payload h = cc
  state_entry-parts (some schemas) path_stream_id payload h =
      let a =
        entry-Accepted codec.read_json codec.decode_state schemas.runtime cover_runtime_state
          (validate_state_for_path path_stream_id) payload h in
      let (linked, valid) =
        require-passes
          (not (path_stream_id == "")
            && not (a.value.stream_id == "")
            && path_stream_id == a.value.stream_id)
          cover_path_body_linkage _ _ a.accepted in
      let (named, same) =
        and_true (not (path_stream_id == "") && not (a.value.stream_id == ""))
          (path_stream_id == a.value.stream_id) linked in
      record {
        document = a.document;
        state = a.value;
        read = a.read;
        decoded = a.decoded;
        named = λ e. ground (arith, named, eq_iff path_stream_id "", e);
        of_stream = sym ((eq_iff _ _).0 same);
        valid = ground arith;
      }

  -- An accepted raw state of the video cover reads as a valid runtime state of the stream that the
  -- path names.
  pub validate_cover_state-StateRead :
      (path_stream_id payload : String)
      → validate_cover_state codec path_stream_id payload ≡ pass
      → StateRead path_stream_id payload
  unfolding validate_cover_state
  validate_cover_state-StateRead path_stream_id payload h =
      state_entry-parts codec.schemas path_stream_id payload h

  response_entry-parts :
      (schemas : Option CoverSchemas) (payload : String)
      → response_entry codec schemas (pos 200) payload ≡ pass
      → AppliedRead payload
  unfolding beq_ℤ
  response_entry-parts none payload h = cc
  response_entry-parts (some schemas) payload h =
      let a =
        entry-Accepted codec.read_json codec.decode_response schemas.response cover_response_shape
          (validate_response (pos 200)) payload h in
      let (outcome, converged, revision, generation) =
        validate_response-IsConverged a.value a.accepted in
      record {
        document = a.document;
        response = a.value;
        read = a.read;
        decoded = a.decoded;
        outcome = outcome;
        converged = converged;
        revision = revision;
        generation = generation;
      }

  -- An accepted raw answer of status code 200 reads as an answer that the cover was applied, whose
  -- state has reached what is desired, at the requested revision.
  pub validate_cover_response-AppliedRead :
      (payload : String)
      → validate_cover_response codec (pos 200) payload ≡ pass
      → AppliedRead payload
  unfolding validate_cover_response
  validate_cover_response-AppliedRead payload h = response_entry-parts codec.schemas payload h
