-- ===== src/Port/Plan/Moves.antt =====
-- The moves of a plan in pkg/contracts/system_update_port_v2.go: the rounds of its loop over T and R
-- as exact steps of the counters.
use Prim.Native.Nat.{◌≤◌}
use autostream_contracts.Common.{
  ℕ, String, ◌≡◌, ◌≢◌, ◌∙◌, ◌↔◌, int_laws, Bool, true, false, not, ℤ, pos, ◌+ℤ◌, ◌≤ℤ◌, add64,
  add64_exact, tests, arith, ◌==◌, String_eq, ℤ_eq, if◌then◌else◌,
}
use autostream_contracts.Port.Types.{SystemUpdatePortSnapshotRef}
use autostream_contracts.Port.Mode
use autostream_contracts.Port.Snapshot.{valid_revision, valid_snapshot_ref, local_equal}
use autostream_contracts.Port.Plan.{step_follows, advertised_follows, plan_moves}

pub valid_revision_bounds :
    (a : ℤ) → valid_revision a ≡ true → (pos 0 ≤ℤ a) × (a ≤ℤ pos 9007199254740991)
unfolding valid_revision
valid_revision_bounds a h = grind tests

pub valid_revision_positive : (a : ℤ) → valid_revision a ≡ true → pos 1 ≤ℤ a
unfolding valid_revision
valid_revision_positive a h = grind tests

-- On a valid revision the counters move by exact integers.
valid_revision-add64 :
    (a : ℤ) (k : ℕ) → valid_revision a ≡ true → k ≤ 2 → add64 a (pos k) ≡ a +ℤ pos k
valid_revision-add64 a k h small =
    let (low, high) = valid_revision_bounds a h in add64_exact a k low high small

-- `next` is the state `k` changes after `b`: every policy counter moved by exactly `k`, the
-- endpoint counters only with the advertised endpoint, and what is identified by a digest is new.
pub record Advances (b : SystemUpdatePortSnapshotRef) (moved : Bool) (k : ℕ)
    (next : SystemUpdatePortSnapshotRef) : Type 0 where
  pub source : next.source_policy_revision ≡ b.source_policy_revision +ℤ pos k
  pub projection : next.projection_revision ≡ b.projection_revision +ℤ pos k
  pub executor : next.executor_policy_revision ≡ b.executor_policy_revision +ℤ pos k
  pub config : next.config_revision ≡ b.config_revision +ℤ pos k
  pub endpoint : moved ≡ true → next.endpoint_revision ≡ b.endpoint_revision +ℤ pos k
  pub applied : moved ≡ true → next.applied_endpoint_revision ≡ b.endpoint_revision +ℤ pos k
  pub endpoint_kept : moved ≡ false → next.endpoint_revision ≡ b.endpoint_revision
  pub applied_kept : moved ≡ false → next.applied_endpoint_revision ≡ b.applied_endpoint_revision
  pub new_executor : next.executor_policy_sha256 ≢ b.executor_policy_sha256
  pub new_config : next.config_sha256 ≢ b.config_sha256
  pub new_snapshot : next.snapshot_id ≢ b.snapshot_id

-- The change from B to T, and the way back to R.
pub record IsMove (mode : String) (b t r : SystemUpdatePortSnapshotRef) : Type 0 where
  pub moved : Bool
  pub moved_iff : (moved ≡ false) ↔ (t.advertised_port ≡ b.advertised_port)
  pub forward : Advances b moved 1 t
  pub back : Advances b moved 2 r
  pub local_kept : mode ≡ Mode.local_only → moved ≡ false
  pub listens_elsewhere : local_equal b t ≡ false
  pub listens_again : local_equal b r ≡ true
  pub advertised_again : r.advertised_port ≡ b.advertised_port
  pub endpoint_again : r.advertised_endpoint_sha256 ≡ b.advertised_endpoint_sha256
  pub other_snapshot : t.snapshot_id ≢ r.snapshot_id

-- The counters of a valid reference are valid revisions.
record Revisions (b : SystemUpdatePortSnapshotRef) : Type 0 where
  source : valid_revision b.source_policy_revision ≡ true
  projection : valid_revision b.projection_revision ≡ true
  executor : valid_revision b.executor_policy_revision ≡ true
  endpoint : valid_revision b.endpoint_revision ≡ true
  config : valid_revision b.config_revision ≡ true

valid_snapshot_ref-Revisions :
    (b : SystemUpdatePortSnapshotRef) → valid_snapshot_ref b ≡ true → Revisions b
unfolding valid_snapshot_ref
valid_snapshot_ref-Revisions b h = grind arith

-- The equations of one round, as they stand in the code.
record Round (b : SystemUpdatePortSnapshotRef) (moved : Bool) (step : ℤ)
    (next : SystemUpdatePortSnapshotRef) : Type 0 where
  source : next.source_policy_revision ≡ add64 b.source_policy_revision step
  projection : next.projection_revision ≡ add64 b.projection_revision step
  executor : next.executor_policy_revision ≡ add64 b.executor_policy_revision step
  config : next.config_revision ≡ add64 b.config_revision step
  endpoint : next.endpoint_revision ≡ add64 b.endpoint_revision (if moved then step else pos 0)
  applied :
      next.applied_endpoint_revision
      ≡ (if moved then add64 b.endpoint_revision step else b.applied_endpoint_revision)
  new_executor : next.executor_policy_sha256 ≢ b.executor_policy_sha256
  new_config : next.config_sha256 ≢ b.config_sha256
  new_snapshot : next.snapshot_id ≢ b.snapshot_id

step_follows-Round :
    (b : SystemUpdatePortSnapshotRef) (moved : Bool) (step : ℤ) (next : SystemUpdatePortSnapshotRef)
    → step_follows b moved step next ≡ true
    → Round b moved step next
unfolding step_follows
step_follows-Round b moved step next h = grind tests

plus_zero : (a : ℤ) → a +ℤ pos 0 ≡ a
plus_zero a = omega int_laws

module _ (b : SystemUpdatePortSnapshotRef) (revisions : Revisions b) (k : ℕ) (small : k ≤ 2) where
  exact : (a : ℤ) → valid_revision a ≡ true → add64 a (pos k) ≡ a +ℤ pos k
  exact a v = valid_revision-add64 a k v small

  unmoved : add64 b.endpoint_revision (pos 0) ≡ b.endpoint_revision
  unmoved =
      valid_revision-add64 b.endpoint_revision 0 revisions.endpoint (omega arith)
      ∙ plus_zero b.endpoint_revision

  Round-Advances :
      (moved : Bool) (next : SystemUpdatePortSnapshotRef)
      → Round b moved (pos k) next
      → Advances b moved k next
  Round-Advances moved next r = record {
    source = r.source ∙ exact _ revisions.source;
    projection = r.projection ∙ exact _ revisions.projection;
    executor = r.executor ∙ exact _ revisions.executor;
    config = r.config ∙ exact _ revisions.config;
    endpoint = λ e. (rw e at r.endpoint) ∙ exact _ revisions.endpoint;
    applied = λ e. (rw e at r.applied) ∙ exact _ revisions.endpoint;
    endpoint_kept = λ e. (rw e at r.endpoint) ∙ unmoved;
    applied_kept = λ e. (rw e at r.applied);
    new_executor = r.new_executor;
    new_config = r.new_config;
    new_snapshot = r.new_snapshot;
  }

-- The tests of a moving plan, in their parts.
record Parts (mode : String) (b t r : SystemUpdatePortSnapshotRef) (moved : Bool) : Type 0 where
  forward : step_follows b moved (pos 1) t ≡ true
  back : step_follows b moved (pos 2) r ≡ true
  advertised : advertised_follows mode moved b t ≡ true
  elsewhere : local_equal b t ≡ false
  again : local_equal b r ≡ true
  port_again : r.advertised_port ≡ b.advertised_port
  endpoint_again : r.advertised_endpoint_sha256 ≡ b.advertised_endpoint_sha256
  other_snapshot : t.snapshot_id ≢ r.snapshot_id

plan_moves-Parts :
    (mode : String) (b t r : SystemUpdatePortSnapshotRef)
    → plan_moves mode b t r ≡ true
    → Parts mode b t r (not (t.advertised_port == b.advertised_port))
unfolding plan_moves
plan_moves-Parts mode b t r h = grind tests

advertised-local_kept :
    (mode : String) (moved : Bool) (b t : SystemUpdatePortSnapshotRef)
    → advertised_follows mode moved b t ≡ true
    → mode ≡ Mode.local_only
    → moved ≡ false
unfolding advertised_follows
advertised-local_kept mode moved b t h e = grind tests

moved_iff : (a b : ℤ) → (not (a == b) ≡ false) ↔ (a ≡ b)
moved_iff a b = grind tests

pub plan_moves-IsMove :
    (mode : String) (b t r : SystemUpdatePortSnapshotRef)
    → valid_snapshot_ref b ≡ true
    → plan_moves mode b t r ≡ true
    → IsMove mode b t r
plan_moves-IsMove mode b t r v h =
    let parts = plan_moves-Parts mode b t r h in
    let revisions = valid_snapshot_ref-Revisions b v in
    record {
      moved = not (t.advertised_port == b.advertised_port);
      moved_iff = moved_iff t.advertised_port b.advertised_port;
      forward =
          Round-Advances b revisions 1 (omega arith) _ t (step_follows-Round b _ _ t parts.forward);
      back = Round-Advances b revisions 2 (omega arith) _ r (step_follows-Round b _ _ r parts.back);
      local_kept = advertised-local_kept mode _ b t parts.advertised;
      listens_elsewhere = parts.elsewhere;
      listens_again = parts.again;
      advertised_again = parts.port_again;
      endpoint_again = parts.endpoint_again;
      other_snapshot = parts.other_snapshot;
    }
