-- ===== src/Policy/Delta/Replaces.antt =====
-- What an applied delta has changed, of `ApplySystemUpdatePortPolicyDelta` in
-- pkg/contracts/system_update_port_policy.go.
use autostream_contracts.Common.{
  String, Bool, true, false, ◌≡◌, ◌≢◌, ◌⊎◌, inl, inr, refl, Option, none, some, List, [], ◌∷◌, any,
  arith, tests, eq_iff, if-branch, ◌==◌, String_eq, ℤ_eq, Bool_eq,
}
use autostream_contracts.Port.Types.{
  SystemUpdatePortSnapshotRef, snapshot_ref_beq_iff, snapshot_ref_eq,
}
use autostream_contracts.Port.ServiceType
use autostream_contracts.Policy.Root.{PortRootDocker, PortRootTarget, PolicyPlatform}
use autostream_contracts.Policy.Target.{root_target_matches_ref, changed_docker, changed_target}
use autostream_contracts.Policy.Allowed.{delta_step, delta_allowed}
use autostream_contracts.Policy.Delta.{
  Round, returns, changes, LoopEnd, returned, finished, with_target, change_round, delta_round,
  after_round, delta_targets,
}
use autostream_contracts.Policy.Delta.Change.{
  Moves, Replaced, none_left, kept, replaced, changed_docker-parts, root_target_matches_ref-changed,
  root_target_matches_ref-docker, delta_allowed-docker,
}

changes-Moves :
    (target : PortRootTarget) (before after : SystemUpdatePortSnapshotRef)
    (docker : Option (Option PortRootDocker)) (next : PortRootTarget)
    → target.service_type ≢ ServiceType.control_panel
    → root_target_matches_ref target before ≡ true
    → delta_allowed before after ≡ true
    → changed_docker target.docker before.docker after.docker after.local_listen_port
        (delta_step before after)
      ≡ docker
    → change_round target after docker ≡ changes next
    → Moves before after target next
unfolding changed_target
changes-Moves target before after none next p m a d c = cc
changes-Moves target before after (some docker) next p m a d c =
    let (profile, matches) =
      changed_docker-parts target.docker before.docker after.docker after.local_listen_port
        (delta_step before after) docker (root_target_matches_ref-docker target before m)
        (delta_allowed-docker before after a) d in
    let q : next ≡ changed_target target after docker = cc in
    rw q (record {
      not_panel = p;
      found = m;
      reached = root_target_matches_ref-changed target after docker matches;
      changed = refl;
      profile = profile;
    })

change_round-returns :
    (target : PortRootTarget) (after : SystemUpdatePortSnapshotRef)
    (docker : Option (Option PortRootDocker)) (result : String)
    → change_round target after docker ≢ returns (some result)
change_round-returns target after none result e = cc
change_round-returns target after (some docker) result e = cc

module _ (platform : PolicyPlatform) where
  delta_round-parts :
      (payload : String) (before after : SystemUpdatePortSnapshotRef) (target next : PortRootTarget)
      → delta_round platform payload before after target ≡ changes next
      → ((target.service_type == ServiceType.control_panel) ≡ false)
        × (root_target_matches_ref target before ≡ true)
        × (change_round target after (
              changed_docker target.docker before.docker after.docker after.local_listen_port
                (delta_step before after))
            ≡ changes next)
  unfolding delta_round
  delta_round-parts payload before after target next r = ground arith

  delta_round-Moves :
      (payload : String) (before after : SystemUpdatePortSnapshotRef) (target next : PortRootTarget)
      → delta_allowed before after ≡ true
      → delta_round platform payload before after target ≡ changes next
      → Moves before after target next
  delta_round-Moves payload before after target next a r =
      let (panel, matches, change) = delta_round-parts payload before after target next r in
      changes-Moves target before after
        (changed_docker target.docker before.docker after.docker after.local_listen_port
          (delta_step before after))
        next (λ e. grind tests) matches a refl change

  -- A round that returned bytes returned the input, for two equal references.
  delta_round-unchanged :
      (payload : String) (before after : SystemUpdatePortSnapshotRef) (target : PortRootTarget)
      (result : String)
      → delta_round platform payload before after target ≡ returns (some result)
      → (before ≡ after) × (result ≡ payload)
  unfolding delta_round
  delta_round-unchanged payload before after target result r =
      let never =
        change_round-returns target after
          (changed_docker target.docker before.docker after.docker after.local_listen_port
            (delta_step before after))
          result in
      let same : ((before == after) ≡ true) × (result ≡ payload) = ground (arith, never) in
      ((snapshot_ref_beq_iff before after).0 same.0, same.1)

  after_round-finished :
      (round : Round) (rest : LoopEnd) (targets : List PortRootTarget) (matched : Bool)
      → after_round round rest ≡ finished targets matched
      → (next : PortRootTarget) × (others : List PortRootTarget) × (found : Bool) × (round
          ≡ changes next)
        × (rest ≡ finished others found)
        × (targets ≡ next ∷ others)
        × (matched ≡ true)
  after_round-finished (returns result) rest targets matched e = cc
  after_round-finished (changes next) (returned result) targets matched e = cc
  after_round-finished (changes next) (finished others found) targets matched e =
      (next, others, found, refl, refl, cc, cc)

  with_target-finished :
      (target : PortRootTarget) (rest : LoopEnd) (targets : List PortRootTarget) (matched : Bool)
      → with_target target false rest ≡ finished targets matched
      → (others : List PortRootTarget) × (rest ≡ finished others matched)
        × (targets ≡ target ∷ others)
  with_target-finished target (returned result) targets matched e = cc
  with_target-finished target (finished others found) targets matched e = (others, cc, cc)

  pub delta_targets-Replaced :
      (payload service : String) (before after : SystemUpdatePortSnapshotRef)
      (targets changed : List PortRootTarget) (matched : Bool)
      → delta_allowed before after ≡ true
      → delta_targets platform payload service before after targets ≡ finished changed matched
      → Replaced service before after targets changed
        × (any (λ target. target.service_id == service) targets ≡ matched)
  unfolding delta_targets
  delta_targets-Replaced payload service before after [] changed matched a e =
      let q : changed ≡ [] = cc in (rw q none_left, cc)
  delta_targets-Replaced payload service before after (target ∷ targets) changed matched a e =
      let rest = delta_targets platform payload service before after targets in
      let round = delta_round platform payload before after target in
      elim (if-branch (target.service_id == service) (after_round round rest)
        (with_target target false rest) (finished changed matched) e) [
          | inl (here, f) ↦
              let (next, others, found, moves, later, list, all) =
                after_round-finished round rest changed matched f in
              let (tail, more) =
                delta_targets-Replaced payload service before after targets others found a later in
              (
                rw list (
                    replaced ((eq_iff _ _).0 here)
                      (delta_round-Moves payload before after target next a moves) tail),
                ground arith,
              )
          | inr (here, f) ↦
              let (others, later, list) = with_target-finished target rest changed matched f in
              let (tail, more) =
                delta_targets-Replaced payload service before after targets others matched a
                  later in
              (
                rw list
                    (kept (λ s. ground (arith, eq_iff target.service_id service, s, here)) tail),
                ground arith,
              )
        ]

  after_round-returned :
      (round : Round) (rest : LoopEnd) (result : String)
      → after_round round rest ≡ returned (some result)
      → (round ≡ returns (some result)) ⊎ (rest ≡ returned (some result))
  after_round-returned (returns (some found)) rest result e = inl cc
  after_round-returned (returns none) rest result e = cc
  after_round-returned (changes next) (returned found) result e = inr e
  after_round-returned (changes next) (finished others found) result e = cc

  with_target-returned :
      (target : PortRootTarget) (rest : LoopEnd) (result : String)
      → with_target target false rest ≡ returned (some result)
      → rest ≡ returned (some result)
  with_target-returned target (returned found) result e = e
  with_target-returned target (finished others found) result e = cc

  pub delta_targets-unchanged :
      (payload service : String) (before after : SystemUpdatePortSnapshotRef)
      (targets : List PortRootTarget) (result : String)
      → delta_targets platform payload service before after targets ≡ returned (some result)
      → (before ≡ after) × (result ≡ payload)
  unfolding delta_targets
  delta_targets-unchanged payload service before after [] result e = cc
  delta_targets-unchanged payload service before after (target ∷ targets) result e =
      let rest = delta_targets platform payload service before after targets in
      let round = delta_round platform payload before after target in
      elim (if-branch (target.service_id == service) (after_round round rest)
        (with_target target false rest) (returned (some result)) e) [
          | inl (here, f) ↦ elim (after_round-returned round rest result f) [
            | inl r ↦ delta_round-unchanged payload before after target result r
            | inr r ↦ delta_targets-unchanged payload service before after targets result r
          ]
          | inr (here, f) ↦
              delta_targets-unchanged payload service before after targets result
                (with_target-returned target rest result f)
        ]
