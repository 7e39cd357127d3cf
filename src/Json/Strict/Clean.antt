-- ===== src/Json/Strict/Clean.antt =====
-- What the token loop of pkg/contracts/updater_runtime_validation.go excludes, at every depth.
use autostream_contracts.Common.{
  String, true, false, not, ◌&&◌, ◌≡◌, ◌≢◌, ◌↔◌, refl, List, [], ◌∷◌, Option, some, none, All,
  contains, Distinct, arith, and_true, both, if-branch, inl, inr, eq_iff,
}
use autostream_contracts.Json.{
  Json, null, boolean, number, fraction, text, array, object, Items, no_items, item, Members,
  no_members, member,
}
use autostream_contracts.Json.Strict.{
  strict_value, strict_items, strict_members, decode_strict, decode_document, with_document,
}

mutual
  -- A value stands in a document: it is the document, or stands in an element or a member of it.
  pub data Within (value : Json) : Json → Type 0 where
    whole : Within value value
    in_array : {xs : Items} → WithinItems value xs → Within value (array xs)
    in_object : {ms : Members} → WithinMembers value ms → Within value (object ms)

  pub data WithinItems (value : Json) : Items → Type 0 where
    first_item : {x : Json} {xs : Items} → Within value x → WithinItems value (item x xs)
    later_item : {x : Json} {xs : Items} → WithinItems value xs → WithinItems value (item x xs)

  pub data WithinMembers (value : Json) : Members → Type 0 where
    first_member :
        {k : String} {x : Json} {ms : Members}
        → Within value x
        → WithinMembers value (member k x ms)
    later_member :
        {k : String} {x : Json} {ms : Members}
        → WithinMembers value ms
        → WithinMembers value (member k x ms)

abbrev pub keys : Members → List String
keys no_members = []
keys (member k v ms) = k ∷ keys ms

abbrev same_key : String → String
same_key k = k

-- A value that is not null, and an object whose keys are distinct.
abbrev pub Clean : Json → Type 0
Clean null = ⊥
Clean (object ms) = Distinct same_key (keys ms)
Clean _ = Unit {0}

abbrev Unseen : List String → Members → Type 0
Unseen seen ms = All (λ k. contains seen k ≡ false) (keys ms)

Unseen-cons :
    (k : String) (seen : List String) (ms : Members)
    → Unseen (k ∷ seen) ms
    → All (λ y. y ≢ k) (keys ms) × Unseen seen ms
unfolding contains
Unseen-cons k seen no_members h = (tt, tt)
Unseen-cons k seen (member j v ms) (here, later) =
    let (differ, rest) = Unseen-cons k seen ms later in
    ((λ e. ground (arith, eq_iff k j, here, e), differ), (ground (arith, here), rest))

cons-Unseen :
    (k : String) (seen : List String) (ms : Members)
    → All (λ y. y ≢ k) (keys ms)
    → Unseen seen ms
    → Unseen (k ∷ seen) ms
unfolding contains
cons-Unseen k seen no_members d h = tt
cons-Unseen k seen (member j v ms) (differ, others) (here, later) =
    (ground (arith, eq_iff k j, here, differ), cons-Unseen k seen ms others later)

no_key_seen : (ms : Members) → Unseen [] ms
unfolding contains
no_key_seen no_members = tt
no_key_seen (member k v ms) = (refl, no_key_seen ms)

strict_members-keys :
    (seen : List String) (ms : Members)
    → strict_members seen ms ≡ true
    → Unseen seen ms × Distinct same_key (keys ms)
unfolding strict_members
strict_members-keys seen no_members h = (tt, tt)
strict_members-keys seen (member k v ms) h =
    let (first, rest) =
      and_true (not (contains seen k) && strict_value v) (strict_members (k ∷ seen) ms) h in
    let (unseen, distinct) = strict_members-keys (k ∷ seen) ms rest in
    let (differ, others) = Unseen-cons k seen ms unseen in
    ((ground arith, others), (differ, distinct))

strict_value-Clean : (value : Json) → strict_value value ≡ true → Clean value
unfolding strict_value
strict_value-Clean null h = cc
strict_value-Clean (boolean b) h = tt
strict_value-Clean (number n) h = tt
strict_value-Clean (fraction s) h = tt
strict_value-Clean (text s) h = tt
strict_value-Clean (array xs) h = tt
strict_value-Clean (object ms) h = (strict_members-keys [] ms h).1

mutual
  unfolding strict_value strict_items strict_members

  Within-strict :
      (value document : Json)
      → Within value document
      → strict_value document ≡ true
      → strict_value value ≡ true
  Within-strict value _ whole h = h
  Within-strict value _ (in_array {xs} w) h = WithinItems-strict value xs w h
  Within-strict value _ (in_object {ms} w) h = WithinMembers-strict value [] ms w h

  WithinItems-strict :
      (value : Json) (xs : Items)
      → WithinItems value xs
      → strict_items xs ≡ true
      → strict_value value ≡ true
  WithinItems-strict value _ (first_item {x} {xs} w) h =
      Within-strict value x w (and_true (strict_value x) (strict_items xs) h).0
  WithinItems-strict value _ (later_item {x} {xs} w) h =
      WithinItems-strict value xs w (and_true (strict_value x) (strict_items xs) h).1

  WithinMembers-strict :
      (value : Json) (seen : List String) (ms : Members)
      → WithinMembers value ms
      → strict_members seen ms ≡ true
      → strict_value value ≡ true
  WithinMembers-strict value seen _ (first_member {k} {x} {ms} w) h =
      Within-strict value x w
        (and_true (not (contains seen k)) (strict_value x)
          (and_true (not (contains seen k) && strict_value x) (strict_members (k ∷ seen) ms) h).0).1
  WithinMembers-strict value seen _ (later_member {k} {x} {ms} w) h =
      WithinMembers-strict value (k ∷ seen) ms w
        (and_true (not (contains seen k) && strict_value x) (strict_members (k ∷ seen) ms) h).1

mutual
  unfolding strict_value strict_items strict_members

  Clean-strict :
      (document : Json)
      → ((value : Json) → Within value document → Clean value)
      → strict_value document ≡ true
  Clean-strict null c = absurd (c null whole)
  Clean-strict (boolean b) c = refl
  Clean-strict (number n) c = refl
  Clean-strict (fraction s) c = refl
  Clean-strict (text s) c = refl
  Clean-strict (array xs) c = Clean-items xs (λ value w. c value (in_array w))
  Clean-strict (object ms) c =
      Clean-members [] ms (no_key_seen ms) (c (object ms) whole) (λ value w. c value (in_object w))

  Clean-items :
      (xs : Items) → ((value : Json) → WithinItems value xs → Clean value) → strict_items xs ≡ true
  Clean-items no_items c = refl
  Clean-items (item x xs) c =
      both _ _ (Clean-strict x (λ value w. c value (first_item w)))
        (Clean-items xs (λ value w. c value (later_item w)))

  Clean-members :
      (seen : List String) (ms : Members)
      → Unseen seen ms
      → Distinct same_key (keys ms)
      → ((value : Json) → WithinMembers value ms → Clean value)
      → strict_members seen ms ≡ true
  Clean-members seen no_members unseen distinct c = refl
  Clean-members seen (member k v ms) (here, later) (differ, distinct) c =
      both _ _ (both _ _ (rw here refl) (Clean-strict v (λ value w. c value (first_member w)))) (
        Clean-members (k ∷ seen) ms (cons-Unseen k seen ms differ later) distinct
          (λ value w. c value (later_member w)))

module _ {ℓ} {Value : Type ℓ} (read_json : String → Option Json)
    (decode : Json → Option Value) where
  with_document-parts :
      (read : Json) (found : Option Value) (value : Value) (document : Json)
      → with_document read_json decode read found ≡ some (value, document)
      → (found ≡ some value) × (read ≡ document)
  with_document-parts read none value document e = cc
  with_document-parts read (some v) value document e = (cc, cc)

  decode_document-parts :
      (found : Option Json) (value : Value) (document : Json)
      → decode_document read_json decode found ≡ some (value, document)
      → (found ≡ some document) × (decode document ≡ some value) × (strict_value document ≡ true)
  decode_document-parts none value document e = cc
  decode_document-parts (some read) value document e =
      elim (if-branch (strict_value read) (with_document read_json decode read (decode read)) none
        (some (value, document)) e) [
          | inl (strict, f) ↦
              let (decoded, same) = with_document-parts read (decode read) value document f in
              rw (← same) (refl, decoded, strict)
          | inr (strict, f) ↦ cc
        ]

  -- The strict decoder gives a value and its document exactly where the text reads as the document,
  -- which decodes to the value, and nothing that stands in the document is null or an object with a
  -- key twice.
  pub decode_strict-iff-Clean :
      (payload : String) (value : Value) (document : Json)
      → (decode_strict read_json decode payload ≡ some (value, document)) ↔ (
          (read_json payload ≡ some document)
          × (decode document ≡ some value)
          × ((part : Json) → Within part document → Clean part))
  unfolding decode_strict
  decode_strict-iff-Clean payload value document = (
    λ e.
        let (read, decoded, strict) = decode_document-parts (read_json payload) value document e in
        (read, decoded, λ part w. strict_value-Clean part (Within-strict part document w strict)),
    λ h. let (read, decoded, clean) = h in rw (read, Clean-strict document clean, decoded) refl,
  )
