-- ===== src/Policy/Delta/Valid.antt =====
-- The policy that `ApplySystemUpdatePortPolicyDelta` of pkg/contracts/system_update_port_policy.go
-- writes, for its decoder.
use Prim.Native.Nat.{suc}
use autostream_contracts.Common.{
  String, true, not, ◌&&◌, ◌≡◌, ◌≢◌, inl, inr, refl, ap, Option, none, some, List, [], ◌∷◌, pos,
  tests, and_true, both, if-branch, length, String_eq, ℤ_eq, ℕ_eq, is_nil, Bool_eq, leb, contains,
  loop_distinct,
}
use autostream_contracts.Port.Types.{SystemUpdatePortSnapshotRef}
use autostream_contracts.Port.Snapshot.{valid_revision, valid_port}
use autostream_contracts.Json.{Json}
use autostream_contracts.Json.Strict.{decode_strict}
use autostream_contracts.Text.{byte_length, matches_digest}
use autostream_contracts.Policy.Root.{
  PortRootDocker, PortRootTarget, PortRootPolicy, PolicyPlatform, decode_root_policy,
  canonical_root, max_bytes, root_target, root_service, root_fields, root_valid, is_text,
  origin_valid,
}
use autostream_contracts.Policy.Target.{changed_target}
use autostream_contracts.Policy.Allowed.{delta_allowed}
use autostream_contracts.Policy.Delta.{delta_policy, apply_policy_delta}
use autostream_contracts.Policy.Delta.Change.{
  SameProfile, no_profile, same_profile, Replaced, none_left, kept, replaced,
}
use autostream_contracts.Policy.Delta.Applied.{Written, apply_policy_delta-Written}

same_nil : (root next : Option PortRootDocker) → SameProfile root next → is_nil next ≡ is_nil root
same_nil _ _ no_profile = refl
same_nil _ _ (same_profile root revision) = refl

-- The new values that a target is given.
record Values (after : SystemUpdatePortSnapshotRef) : Type 0 where
  endpoint : valid_revision after.applied_endpoint_revision ≡ true
  config : valid_revision after.config_revision ≡ true
  digest : matches_digest after.config_sha256 ≡ true
  port : valid_port after.local_listen_port (pos 1024) ≡ true
  source : valid_revision after.source_policy_revision ≡ true
  projection : valid_revision after.projection_revision ≡ true
  executor : valid_revision after.executor_policy_revision ≡ true

delta_allowed-Values :
    (before after : SystemUpdatePortSnapshotRef) → delta_allowed before after ≡ true → Values after
unfolding delta_allowed
delta_allowed-Values before after a = record {
  endpoint = grind tests;
  config = grind tests;
  digest = grind tests;
  port = grind tests;
  source = grind tests;
  projection = grind tests;
  executor = grind tests;
}

root_target-changed :
    (target : PortRootTarget) (after : SystemUpdatePortSnapshotRef) (docker : Option PortRootDocker)
    → Values after
    → is_nil docker ≡ is_nil target.docker
    → root_target target ≡ true
    → root_target (changed_target target after docker) ≡ true
unfolding root_target changed_target
root_target-changed target after docker v n t =
    rw n (grind (tests, v.endpoint, v.config, v.digest, v.port))

loop_distinct-Replaced :
    (service : String) (before after : SystemUpdatePortSnapshotRef) (seen : List String)
    (targets changed : List PortRootTarget)
    → Values after
    → Replaced service before after targets changed
    → loop_distinct root_service root_target seen targets ≡ true
    → loop_distinct root_service root_target seen changed ≡ true
unfolding loop_distinct changed_target
loop_distinct-Replaced service before after seen _ _ v none_left h = refl
loop_distinct-Replaced service before after seen _ _ v
      (kept {target} {targets} {others = changed} differs tail) h =
    let (first, rest) =
      and_true (not (contains seen target.service_id) && root_target target)
        (loop_distinct root_service root_target (target.service_id ∷ seen) targets) h in
    both _ _ first (
      loop_distinct-Replaced service before after (target.service_id ∷ seen) targets changed v tail
        rest)
loop_distinct-Replaced service before after seen _ _ v
      (replaced {target} {next} {targets} {others = changed} here moves tail) h =
    let (first, rest) =
      and_true (not (contains seen target.service_id) && root_target target)
        (loop_distinct root_service root_target (target.service_id ∷ seen) targets) h in
    let (unseen, tested) =
      and_true (not (contains seen target.service_id)) (root_target target) first in
    rw moves.changed (
      both _ _
        (both _ _ unseen
          (root_target-changed target after next.docker v (same_nil _ _ moves.profile) tested))
        (loop_distinct-Replaced service before after (target.service_id ∷ seen) targets changed v
          tail rest))

length-Replaced :
    (service : String) (before after : SystemUpdatePortSnapshotRef)
    (targets changed : List PortRootTarget)
    → Replaced service before after targets changed
    → length changed ≡ length targets
length-Replaced service before after _ _ none_left = refl
length-Replaced service before after _ _ (kept {target} {targets} {others = changed} differs tail) =
    ap suc (length-Replaced service before after targets changed tail)
length-Replaced service before after _ _
      (replaced {target} {next} {targets} {others = changed} here moves tail) =
    ap suc (length-Replaced service before after targets changed tail)

root_fields-delta_policy :
    (policy : PortRootPolicy) (after : SystemUpdatePortSnapshotRef) (targets : List PortRootTarget)
    → Values after
    → length targets ≡ length policy.targets
    → root_fields policy ≡ true
    → root_fields (delta_policy policy after targets) ≡ true
unfolding root_fields
root_fields-delta_policy policy after targets v n f =
    rw n (grind (tests, v.source, v.projection, v.executor))

module _ (platform : PolicyPlatform) where
  canonical_root-valid :
      (payload : String) (found : Option (PortRootPolicy × Json)) (policy : PortRootPolicy)
      → canonical_root platform payload found ≡ some policy
      → root_valid platform policy ≡ true
  canonical_root-valid payload none policy e = cc
  canonical_root-valid payload (some (found, document)) policy e =
      elim (if-branch (is_text (platform.marshal_root found) payload && root_valid platform found)
        (some found) none (some policy) e) [
          | inl (t, f) ↦
              let q : policy ≡ found = cc in
              rw q
                (and_true (is_text (platform.marshal_root found) payload)
                  (root_valid platform found) t).1
          | inr (t, f) ↦ cc
        ]

  decode_root_policy-valid :
      (payload : String) (policy : PortRootPolicy)
      → decode_root_policy platform payload ≡ some policy
      → root_valid platform policy ≡ true
  unfolding decode_root_policy
  decode_root_policy-valid payload policy e =
      elim (if-branch (leb 1 (byte_length payload) && leb (byte_length payload) max_bytes)
        (canonical_root platform payload
          (decode_strict platform.read_json platform.decode_root payload))
        none (some policy) e) [
          | inl (t, f) ↦
              canonical_root-valid payload
                (decode_strict platform.read_json platform.decode_root payload) policy f
          | inr (t, f) ↦ cc
        ]

  Written-valid :
      (payload service : String) (before after : SystemUpdatePortSnapshotRef)
      (policy : PortRootPolicy) (result : String)
      (w : Written platform payload service before after policy result)
      → root_valid platform (delta_policy policy after w.targets) ≡ true
  unfolding root_valid
  Written-valid payload service before after policy result w =
      let v = delta_allowed-Values before after w.allowed in
      let valid = decode_root_policy-valid payload policy w.read in
      let (first, loop) =
        and_true (root_fields policy && origin_valid platform policy.mutation)
          (loop_distinct root_service root_target [] policy.targets) valid in
      let (fields, origin) =
        and_true (root_fields policy) (origin_valid platform policy.mutation) first in
      both _ _
        (both _ _
          (root_fields-delta_policy policy after w.targets v
            (length-Replaced service before after policy.targets w.targets w.moves) fields)
          origin)
        (loop_distinct-Replaced service before after [] policy.targets w.targets v w.moves loop)

  -- A delta that is applied to two different references writes the encoding of a policy that
  -- passes every test that the decoder makes of a root policy apart from its bytes.
  pub apply_policy_delta-root_valid :
      (payload service : String) (before after : SystemUpdatePortSnapshotRef) (result : String)
      → before ≢ after
      → apply_policy_delta platform payload service before after ≡ some result
      → (policy : PortRootPolicy) × (platform.marshal_root policy ≡ some result)
        × (root_valid platform policy ≡ true)
  apply_policy_delta-root_valid payload service before after result differ e =
      elim (apply_policy_delta-Written platform payload service before after result e) [
        | inl (same, copy) ↦ absurd (differ same)
        | inr (policy, w) ↦ (
          delta_policy policy after w.targets,
          w.written,
          Written-valid payload service before after policy result w,
        )
      ]
