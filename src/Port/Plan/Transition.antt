-- ===== src/Port/Plan/Transition.antt =====
-- What an accepted plan says of the states B, T and R.
use autostream_contracts.Common.{
  ◌≡◌, ◌⊎◌, inl, inr, true, false, some, pos, ◌≤ℤ◌, arith, pass, and_true, String_eq, ℤ_eq,
}
use autostream_contracts.Text.Digest.{Sha256}
use autostream_contracts.Port.Types.{
  SystemUpdatePortSnapshotRef, SystemUpdatePortReconfiguration, snapshot_ref_beq,
  snapshot_ref_beq_iff,
}
use autostream_contracts.Port.Snapshot.{valid_revision, valid_snapshot_ref}
use autostream_contracts.Port.Plan.{
  plan_is_no_op, plan_moves, references_valid, validate_plan, three_equal,
}
use autostream_contracts.Port.Plan.View.{validate_plan-references}
use autostream_contracts.Port.Plan.Moves.{IsMove, valid_revision_positive, plan_moves-IsMove}

no_op-Stays :
    (plan : SystemUpdatePortReconfiguration) (b t r : SystemUpdatePortSnapshotRef)
    → plan.before ≡ some b
    → plan.target ≡ some t
    → plan.rollback ≡ some r
    → plan_is_no_op plan ≡ true
    → (b ≡ t) × (b ≡ r)
unfolding plan_is_no_op
no_op-Stays plan b t r eb et er h =
    let same : three_equal (some b) (some t) (some r) ≡ true =
      rw (eb, et, er) at (and_true _ (three_equal plan.before plan.target plan.rollback) h).1 in
    let (bt, br) = and_true (snapshot_ref_beq b t) (snapshot_ref_beq b r) same in
    ((snapshot_ref_beq_iff b t).0 bt, (snapshot_ref_beq_iff b r).0 br)

references_valid-before :
    (plan : SystemUpdatePortReconfiguration) (b t r : SystemUpdatePortSnapshotRef)
    → references_valid plan b t r ≡ true
    → (valid_snapshot_ref b ≡ true)
      × ((plan_is_no_op plan ≡ true) ⊎ (plan_moves plan.mode b t r ≡ true))
unfolding references_valid
references_valid-before plan b t r h = ground arith

-- An accepted plan either leaves everything as it is, B = T = R, or is a move: T is one change
-- after B and R two, by exact counters with no int64 wrap-around; R listens and is advertised where
-- B was; in the mode local_only the advertised endpoint and its counters stay; and the three
-- snapshots are different ones.
pub validate_plan-Transition :
    (sha : Sha256) (plan : SystemUpdatePortReconfiguration) (b t r : SystemUpdatePortSnapshotRef)
    → validate_plan sha plan ≡ pass
    → plan.before ≡ some b
    → plan.target ≡ some t
    → plan.rollback ≡ some r
    → (b ≡ t) × (b ≡ r) ⊎ IsMove plan.mode b t r
validate_plan-Transition sha plan b t r h eb et er =
    let refs = validate_plan-references sha plan h eb et er in
    let (valid, either) = references_valid-before plan b t r refs in
    elim either [
      | inl still ↦ inl (no_op-Stays plan b t r eb et er still)
      | inr move ↦ inr (plan_moves-IsMove plan.mode b t r valid move)
    ]

-- A plan that is no no-op is a move.
pub validate_plan-IsMove :
    (sha : Sha256) (plan : SystemUpdatePortReconfiguration) (b t r : SystemUpdatePortSnapshotRef)
    → validate_plan sha plan ≡ pass
    → plan.before ≡ some b
    → plan.target ≡ some t
    → plan.rollback ≡ some r
    → plan_is_no_op plan ≡ false
    → IsMove plan.mode b t r
validate_plan-IsMove sha plan b t r h eb et er moves =
    let refs = validate_plan-references sha plan h eb et er in
    let (valid, either) = references_valid-before plan b t r refs in
    elim either [ inl still ↦ cc | inr move ↦ plan_moves-IsMove plan.mode b t r valid move ]

references_valid-config :
    (plan : SystemUpdatePortReconfiguration) (b t r : SystemUpdatePortSnapshotRef)
    → references_valid plan b t r ≡ true
    → valid_revision b.config_revision ≡ true
unfolding references_valid valid_snapshot_ref
references_valid-config plan b t r h = grind arith

-- Before the change the configuration has a revision from 1 up.
pub validate_plan-before_positive :
    (sha : Sha256) (plan : SystemUpdatePortReconfiguration) (b t r : SystemUpdatePortSnapshotRef)
    → validate_plan sha plan ≡ pass
    → plan.before ≡ some b
    → plan.target ≡ some t
    → plan.rollback ≡ some r
    → pos 1 ≤ℤ b.config_revision
validate_plan-before_positive sha plan b t r h eb et er =
    valid_revision_positive b.config_revision
      (references_valid-config plan b t r (validate_plan-references sha plan h eb et er))
