-- ===== src/Policy/Delta/Change.antt =====
-- What the delta does to the policy.
use autostream_contracts.Common.{
  String, true, ◌≡◌, ◌≢◌, inl, inr, refl, Option, none, some, List, [], ◌∷◌, ℤ, tests, and_true,
  both, if-branch, ◌==◌, String_eq, ℤ_eq, beq_ℤ_iff, is_nil, Bool_eq,
}
use autostream_contracts.Port.Types.{
  SystemUpdatePortSnapshotRef, SystemUpdatePortDockerSnapshot, snapshot_ref_eq,
}
use autostream_contracts.Port.ServiceType
use autostream_contracts.Text.{trim_prefix}
use autostream_contracts.Policy.Root.{PortRootDocker, PortRootTarget}
use autostream_contracts.Policy.Target.{
  docker_matches, root_target_matches_ref, docker_delta, changed_docker, changed_target,
}
use autostream_contracts.Policy.Allowed.{delta_allowed}

-- A Docker profile that is kept but for the revision of its Compose file.
pub data SameProfile : Option PortRootDocker → Option PortRootDocker → Type 0 where
  no_profile : SameProfile none none
  same_profile :
      (root : PortRootDocker) (revision : ℤ)
      → SameProfile (some root) (some (record root { port_compose_revision = revision }))

-- From a target that matches B to one that matches the other reference, nothing else changed.
pub record Moves (before after : SystemUpdatePortSnapshotRef) (target next : PortRootTarget)
    : Type 0 where
  pub not_panel : target.service_type ≢ ServiceType.control_panel
  pub found : root_target_matches_ref target before ≡ true
  pub reached : root_target_matches_ref next after ≡ true
  pub changed : next ≡ changed_target target after next.docker
  pub profile : SameProfile target.docker next.docker

docker_delta-policy :
    (b a : SystemUpdatePortDockerSnapshot) (port step : ℤ)
    → docker_delta b a port step ≡ true
    → a.compose_policy_sha256 ≡ b.compose_policy_sha256
unfolding docker_delta
docker_delta-policy b a port step d = grind tests

docker_matches-revised :
    (root : PortRootDocker) (b a : SystemUpdatePortDockerSnapshot) (port step : ℤ)
    → docker_matches (some root) (some b) ≡ true
    → docker_delta b a port step ≡ true
    → docker_matches (some (record root { port_compose_revision = a.compose_revision })) (some a)
      ≡ true
docker_matches-revised root b a port step m d =
    let (same, policy) =
      and_true (root.port_compose_revision == b.compose_revision)
        (root.port_compose_policy_sha256 == trim_prefix b.compose_policy_sha256 "sha256:") m in
    both _ _ ((beq_ℤ_iff a.compose_revision a.compose_revision).1 refl)
      (rw (docker_delta-policy b a port step d) policy)

pub changed_docker-parts :
    (root : Option PortRootDocker) (b a : Option SystemUpdatePortDockerSnapshot) (port step : ℤ)
    (next : Option PortRootDocker)
    → docker_matches root b ≡ true
    → (is_nil b == is_nil a) ≡ true
    → changed_docker root b a port step ≡ some next
    → SameProfile root next × (docker_matches next a ≡ true)
unfolding docker_delta
changed_docker-parts none none none port step next m n e =
    let q : next ≡ none = cc in rw q (no_profile, refl)
changed_docker-parts none none (some a) port step next m n e = cc
changed_docker-parts none (some b) a port step next m n e = cc
changed_docker-parts (some root) none a port step next m n e = cc
changed_docker-parts (some root) (some b) none port step next m n e = cc
changed_docker-parts (some root) (some b) (some a) port step next m n e =
    elim (if-branch (docker_delta b a port step)
      (some (some (record root { port_compose_revision = a.compose_revision }))) none (some next)
      e) [
        | inl (d, f) ↦
            let q : next ≡ some (record root { port_compose_revision = a.compose_revision }) = cc in
            rw q
              (same_profile root a.compose_revision, docker_matches-revised root b a port step m d)
        | inr (d, f) ↦ cc
      ]

-- The targets after the loop: those of the other services are kept, each of the service moves.
pub data Replaced (service : String) (before after : SystemUpdatePortSnapshotRef)
    : List PortRootTarget → List PortRootTarget → Type 0 where
  none_left : Replaced service before after [] []
  kept :
      {target : PortRootTarget} {targets others : List PortRootTarget}
      → target.service_id ≢ service
      → Replaced service before after targets others
      → Replaced service before after (target ∷ targets) (target ∷ others)
  replaced :
      {target next : PortRootTarget} {targets others : List PortRootTarget}
      → target.service_id ≡ service
      → Moves before after target next
      → Replaced service before after targets others
      → Replaced service before after (target ∷ targets) (next ∷ others)

pub root_target_matches_ref-changed :
    (target : PortRootTarget) (after : SystemUpdatePortSnapshotRef) (docker : Option PortRootDocker)
    → docker_matches docker after.docker ≡ true
    → root_target_matches_ref (changed_target target after docker) after ≡ true
unfolding root_target_matches_ref changed_target
root_target_matches_ref-changed target after docker m = grind tests

pub root_target_matches_ref-docker :
    (target : PortRootTarget) (before : SystemUpdatePortSnapshotRef)
    → root_target_matches_ref target before ≡ true
    → docker_matches target.docker before.docker ≡ true
unfolding root_target_matches_ref
root_target_matches_ref-docker target before m = grind tests

pub delta_allowed-docker :
    (before after : SystemUpdatePortSnapshotRef)
    → delta_allowed before after ≡ true
    → (is_nil before.docker == is_nil after.docker) ≡ true
unfolding delta_allowed
delta_allowed-docker before after h = grind tests
