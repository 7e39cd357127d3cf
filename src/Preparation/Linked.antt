-- ===== src/Preparation/Linked.antt =====
-- What an accepted status of a start is linked to.
use autostream_contracts.Common.{
  String, true, ◌&&◌, ◌≡◌, ◌≢◌, ◌⊎◌, inl, inr, refl, Option, none, some, arith, and_true, if-branch,
  eq_iff, nat_beq_iff, ◌==◌, ℕ_eq, String_eq, is_nil, none_of_nil, if◌then◌else◌, Result, ok, err,
  require, ◌>>◌, ◌>>=◌, require-passes, succeeds, succeeds-pass, start_preparation,
}
use autostream_contracts.Visual.Types.{VideoCoverRuntimeState}
use autostream_contracts.Visual.Entry.{validate_cover_state}
use autostream_contracts.Visual.Entry.Accepted.{StateRead, validate_cover_state-StateRead}
use autostream_contracts.Preparation.{
  EncoderStartPreparationIdentity, EncoderStartStreamResponse, EncoderStartPreparationStatus,
  PreparationCodec, same_identity, process_linked, cover_linked, status_linked, decode_preparation,
  decode_start_preparation_status,
}

-- What a running start shows: its process, of the stream and without the ingest's secret, and the
-- state of its video cover, of the job's generation and written as a valid state of the stream.
pub record Shows (codec : PreparationCodec) (expected : EncoderStartPreparationIdentity)
    (status : EncoderStartPreparationStatus) : Type 0 where
  pub process : EncoderStartStreamResponse
  pub started : status.process ≡ some process
  pub of_stream : process.stream_id ≡ expected.stream_id
  pub no_ingest : process.video_ingest ≡ none
  pub state : VideoCoverRuntimeState
  pub covered : status.cover_state ≡ some state
  pub of_generation : state.job_generation ≡ expected.job_generation
  pub written : StateRead codec.cover expected.stream_id (codec.marshal_state state)

same_identity-eq : (a b : EncoderStartPreparationIdentity) → same_identity a b ≡ true → a ≡ b
unfolding same_identity
same_identity-eq a b h = ground (
  arith,
  eq_iff a.stream_id b.stream_id,
  eq_iff a.start_id b.start_id,
  eq_iff a.encoder_service_id b.encoder_service_id,
  nat_beq_iff a.job_generation b.job_generation,
  eq_iff a.archive_run_id b.archive_run_id,
)

process_linked-parts :
    (found : Option EncoderStartStreamResponse) (expected : EncoderStartPreparationIdentity)
    → process_linked found expected ≡ true
    → (process : EncoderStartStreamResponse) × (found ≡ some process)
      × (process.stream_id ≡ expected.stream_id)
      × (process.video_ingest ≡ none)
process_linked-parts none expected h = cc
process_linked-parts (some process) expected h =
    let (stream, ingest) =
      and_true (process.stream_id == expected.stream_id) (is_nil process.video_ingest) h in
    (process, refl, (eq_iff _ _).0 stream, none_of_nil process.video_ingest ingest)

module _ (codec : PreparationCodec) where
  cover_linked-parts :
      (found : Option VideoCoverRuntimeState) (expected : EncoderStartPreparationIdentity)
      → cover_linked codec found expected ≡ true
      → (state : VideoCoverRuntimeState) × (found ≡ some state)
        × (state.job_generation ≡ expected.job_generation)
        × StateRead codec.cover expected.stream_id (codec.marshal_state state)
  cover_linked-parts none expected h = cc
  cover_linked-parts (some state) expected h =
      let check = validate_cover_state codec.cover expected.stream_id (codec.marshal_state state) in
      let (generation, valid) =
        and_true (state.job_generation == expected.job_generation) (succeeds check) h in
      (
        state,
        refl,
        (nat_beq_iff _ _).0 generation,
        validate_cover_state-StateRead codec.cover expected.stream_id (codec.marshal_state state)
            (succeeds-pass check valid),
      )

  status_linked-Shows :
      (status : EncoderStartPreparationStatus) (expected : EncoderStartPreparationIdentity)
      → status_linked codec status expected ≡ true
      → (status.identity ≡ expected) × ((status.phase ≢ "running") ⊎ Shows codec expected status)
  unfolding status_linked
  status_linked-Shows status expected h =
      let linked =
        process_linked status.process expected && cover_linked codec status.cover_state expected in
      let (identity, running) =
        and_true (same_identity status.identity expected)
          (if status.phase == "running" then linked else true) h in
      (
        same_identity-eq status.identity expected identity,
        elim (if-branch (status.phase == "running") linked true true running) [
          | inl (phase, both) ↦
              let (p, c) =
                and_true (process_linked status.process expected)
                  (cover_linked codec status.cover_state expected) both in
              let (process, started, stream, ingest) =
                process_linked-parts status.process expected p in
              let (state, covered, generation, written) =
                cover_linked-parts status.cover_state expected c in
              inr (record {
                process = process;
                started = started;
                of_stream = stream;
                no_ingest = ingest;
                state = state;
                covered = covered;
                of_generation = generation;
                written = written;
              })
          | inr (phase, rest) ↦ inl (λ e. ground (arith, eq_iff status.phase "running", e, phase))
        ],
      )

  status_of :
      (decoded : Result EncoderStartPreparationStatus) (expected : EncoderStartPreparationIdentity)
      (status : EncoderStartPreparationStatus)
      → (decoded >>= λ r. require (status_linked codec r expected) start_preparation >> ok r)
        ≡ ok status
      → status_linked codec status expected ≡ true
  status_of (err failure) expected status h = cc
  status_of (ok r) expected status h =
      let (linked, same) =
        require-passes (status_linked codec r expected) start_preparation (ok r) status h in
      let q : status ≡ r = cc in rw q linked

  -- An accepted status is of the expected identity; if its start is running it shows the process of
  -- that stream without the ingest's secret, and a state of the video cover that belongs to that
  -- job's generation and is written as a valid state of that stream.
  pub decode_start_preparation_status-Shows :
      (payload : String) (expected : EncoderStartPreparationIdentity)
      (status : EncoderStartPreparationStatus)
      → decode_start_preparation_status codec payload expected ≡ ok status
      → (status.identity ≡ expected) × ((status.phase ≢ "running") ⊎ Shows codec expected status)
  unfolding decode_start_preparation_status
  decode_start_preparation_status-Shows payload expected status h =
      status_linked-Shows status expected (
        status_of
          (decode_preparation codec codec.schemas (λ schemas. schemas.status) codec.decode_status
            payload)
          expected status h)
