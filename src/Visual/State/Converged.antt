-- ===== src/Visual/State/Converged.antt =====
-- A runtime state that is ready has reached what is desired.
use autostream_contracts.Common.{
  ap, sym, ◌∙◌, arith, eq_iff, and_true, is_nil, none_of_nil, ◌&&◌, ◌≡◌, Bool, true, Option, none,
  some, tests, refl, ℕ_eq, Bool_eq, ◌==◌, String_eq,
}
use autostream_contracts.Visual.Types.{
  VideoCoverRuntimeState, VideoCoverAppliedWitness, layer_beq_iff,
}
use autostream_contracts.Visual.State.{
  valid_runtime_state, state_fields, known_case, known_matches, valid_applied_witness,
}

-- What a ready state shows: the applied activity, revision and variant are the desired ones, and
-- the witness has seen them in the graph of this generation.
pub record IsConverged (state : VideoCoverRuntimeState) : Type 0 where
  pub witness : VideoCoverAppliedWitness
  pub seen : state.applied_witness ≡ some witness
  pub in_graph : witness.graph_applied ≡ true
  pub generation : witness.generation ≡ state.generation
  pub active : state.applied.active ≡ some state.desired.active
  pub revision : state.applied.revision ≡ state.desired.revision
  pub variant : state.applied.variant_id ≡ state.desired.variant_id
  pub witness_revision : witness.revision ≡ state.desired.revision
  pub cover : witness.cover ≡ state.cover
  pub no_error : state.error ≡ none

record KnownFacts (state : VideoCoverRuntimeState) (witness : VideoCoverAppliedWitness)
    (active : Bool) : Type 0 where
  in_graph : witness.graph_applied ≡ true
  generation : witness.generation ≡ state.generation
  witness_revision : witness.revision ≡ state.applied.revision
  cover : state.cover ≡ witness.cover
  desired_active : state.desired.active ≡ active
  desired_revision : state.desired.revision ≡ state.applied.revision
  desired_variant : state.desired.variant_id ≡ state.applied.variant_id

known_facts :
    (state : VideoCoverRuntimeState) (witness : VideoCoverAppliedWitness) (active : Bool)
    → known_matches state witness active ≡ true
    → state.readiness ≡ "ready"
    → KnownFacts state witness active
unfolding known_matches valid_applied_witness
known_facts state witness active h e = grind (tests, layer_beq_iff)

ready_fields :
    (state : VideoCoverRuntimeState)
    → state_fields state ≡ true
    → state.readiness ≡ "ready"
    → (state.error ≡ none) × ((state.applied.state == "known") ≡ true)
unfolding state_fields
ready_fields state h e =
    let ready : (state.readiness == "ready") ≡ true = (eq_iff _ _).1 e in
    let tested : (is_nil state.error && state.applied.state == "known") ≡ true = grind arith in
    let (no_error, known) = and_true (is_nil state.error) _ tested in
    (none_of_nil state.error no_error, known)

-- The parts of a known case.
known_parts :
    (state : VideoCoverRuntimeState) (witness? : Option VideoCoverAppliedWitness)
    (active? : Option Bool)
    → known_case state witness? active? ≡ true
    → (witness : VideoCoverAppliedWitness) × (active : Bool) × (witness? ≡ some witness)
      × (active? ≡ some active)
      × (known_matches state witness active ≡ true)
known_parts state (some witness) (some active) h = (witness, active, refl, refl, h)
known_parts state (some witness) none h = cc
known_parts state none active? h = cc

-- A valid runtime state that is ready has reached what is desired, with a witness of it and with no
-- error.
pub valid_runtime_state-IsConverged :
    (state : VideoCoverRuntimeState)
    → valid_runtime_state state ≡ true
    → state.readiness ≡ "ready"
    → IsConverged state
unfolding valid_runtime_state
valid_runtime_state-IsConverged state h e =
    let (fields, switch) = and_true (state_fields state) _ h in
    let (no_error, known) = ready_fields state fields e in
    let case : known_case state state.applied_witness state.applied.active ≡ true = grind arith in
    let (witness, active, seen, applied, matches) =
      known_parts state state.applied_witness state.applied.active case in
    let facts = known_facts state witness active matches e in
    record {
      witness = witness;
      seen = seen;
      in_graph = facts.in_graph;
      generation = facts.generation;
      active = applied ∙ ap some (sym facts.desired_active);
      revision = sym facts.desired_revision;
      variant = sym facts.desired_variant;
      witness_revision = facts.witness_revision ∙ sym facts.desired_revision;
      cover = sym facts.cover;
      no_error = no_error;
    }
