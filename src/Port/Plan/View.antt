-- ===== src/Port/Plan/View.antt =====
-- The references of an accepted plan, and the tests of `ValidateSystemUpdatePortPlan` that they
-- passed.
use autostream_contracts.Common.{◌≡◌, refl, true, Option, some, arith, pass, String_eq, ℤ_eq}
use autostream_contracts.Text.Digest.{Sha256}
use autostream_contracts.Port.Types.{SystemUpdatePortSnapshotRef, SystemUpdatePortReconfiguration}
use autostream_contracts.Port.Plan.{plan_fields, references_valid, three_valid, validate_plan}

-- The references of an accepted plan, with the tests that they passed.
pub record PlanView (plan : SystemUpdatePortReconfiguration) : Type 0 where
  pub before : SystemUpdatePortSnapshotRef
  pub target : SystemUpdatePortSnapshotRef
  pub rollback : SystemUpdatePortSnapshotRef
  pub has_before : plan.before ≡ some before
  pub has_target : plan.target ≡ some target
  pub has_rollback : plan.rollback ≡ some rollback
  pub fields : plan_fields plan ≡ true
  pub valid : references_valid plan before target rollback ≡ true

three_valid-view :
    (plan : SystemUpdatePortReconfiguration) (b t r : Option SystemUpdatePortSnapshotRef)
    → plan.before ≡ b
    → plan.target ≡ t
    → plan.rollback ≡ r
    → plan_fields plan ≡ true
    → three_valid plan b t r ≡ true
    → PlanView plan
three_valid-view plan (some b) (some t) (some r) eb et er f v = record {
  before = b;
  target = t;
  rollback = r;
  has_before = eb;
  has_target = et;
  has_rollback = er;
  fields = f;
  valid = v;
}
three_valid-view plan _ _ _ eb et er f v = cc

pub validate_plan-three_valid :
    (sha : Sha256) (plan : SystemUpdatePortReconfiguration)
    → validate_plan sha plan ≡ pass
    → three_valid plan plan.before plan.target plan.rollback ≡ true
unfolding validate_plan
validate_plan-three_valid sha plan h = ground arith

pub validate_plan-view :
    (sha : Sha256) (plan : SystemUpdatePortReconfiguration)
    → validate_plan sha plan ≡ pass
    → PlanView plan
unfolding validate_plan
validate_plan-view sha plan h =
    three_valid-view plan plan.before plan.target plan.rollback refl refl refl (ground arith)
      (ground arith)

three_valid-some :
    (plan : SystemUpdatePortReconfiguration) (ob ot or : Option SystemUpdatePortSnapshotRef)
    {b t r : SystemUpdatePortSnapshotRef}
    → ob ≡ some b
    → ot ≡ some t
    → or ≡ some r
    → three_valid plan ob ot or ≡ true
    → references_valid plan b t r ≡ true
three_valid-some plan ob ot or eb et er v = rw (eb, et, er) at v

-- The tests that the references of an accepted plan passed.
pub validate_plan-references :
    (sha : Sha256) (plan : SystemUpdatePortReconfiguration) {b t r : SystemUpdatePortSnapshotRef}
    → validate_plan sha plan ≡ pass
    → plan.before ≡ some b
    → plan.target ≡ some t
    → plan.rollback ≡ some r
    → references_valid plan b t r ≡ true
validate_plan-references sha plan h eb et er =
    three_valid-some plan _ _ _ eb et er (validate_plan-three_valid sha plan h)
