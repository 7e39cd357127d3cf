-- ===== src/Json/Canonical/Order.antt =====
-- The canonical text of an object does not depend on the order of its members.
use Prim.Native.Char.{code}
use text.Mathlib.TextEquality.{Char-path}
use autostream_contracts.Common.{
  String, true, false, List, [], ◌∷◌, Option, none, some, ◌≡◌, refl, ◌≢◌, arith, ap, sym, ◌∙◌, inl,
  inr, Bool-cases,
}
use autostream_contracts.Json.{Json, Members, no_members, member, object}
use autostream_contracts.Json.Canonical.{
  canonical, canonical_members, object_text, text_le, insert_entry, sort_entries,
}

text_le_antisym : (s t : String) → text_le s t ≡ true → text_le t s ≡ true → s ≡ t
unfolding text_le
text_le_antisym String.[] String.[] h k = refl
text_le_antisym String.[] (String.◌∷◌ d t) h k = cc
text_le_antisym (String.◌∷◌ c s) String.[] h k = cc
text_le_antisym (String.◌∷◌ c s) (String.◌∷◌ d t) h k =
    let same : code c ≡ code d = ground arith in
    let rest : s ≡ t = text_le_antisym s t (ground arith) (ground arith) in cc (Char-path c d same)

text_le_total : (s t : String) → text_le s t ≡ false → text_le t s ≡ true
unfolding text_le
text_le_total String.[] t h = cc
text_le_total (String.◌∷◌ c s) String.[] h = refl
text_le_total (String.◌∷◌ c s) (String.◌∷◌ d t) h = ground (arith, text_le_total s t)

text_le_trans : (s t u : String) → text_le s t ≡ true → text_le t u ≡ true → text_le s u ≡ true
unfolding text_le
text_le_trans String.[] t u h k = refl
text_le_trans (String.◌∷◌ c s) String.[] u h k = cc
text_le_trans (String.◌∷◌ c s) (String.◌∷◌ d t) String.[] h k = cc
text_le_trans (String.◌∷◌ c s) (String.◌∷◌ d t) (String.◌∷◌ e u) h k =
    ground (arith, text_le_trans s t u)

-- Entries of different keys may be inserted in either order: first the smaller key on the outside.
insert_smaller :
    (k j v w : String) (entries : List (String × String))
    → text_le k j ≡ true
    → text_le j k ≡ false
    → insert_entry (k, v) (insert_entry (j, w) entries)
      ≡ insert_entry (j, w) (insert_entry (k, v) entries)
unfolding insert_entry
insert_smaller k j v w [] kj jk = simp (kj, jk)
insert_smaller k j v w ((i, u) ∷ entries) kj jk = elim (Bool-cases (text_le j i)) [
  | inl ji ↦ let ki : text_le k i ≡ true = text_le_trans k j i kj ji in simp (ji, ki, kj, jk)
  | inr ji ↦ elim (Bool-cases (text_le k i)) [
    | inl ki ↦ simp (ji, ki, jk)
    | inr ki ↦ simp (ji, ki) (ap (λ l. (i, u) ∷ l) (insert_smaller k j v w entries kj jk))
  ]
]

not-text_le : (k j : String) → k ≢ j → text_le k j ≡ true → text_le j k ≡ false
not-text_le k j ne kj = elim (Bool-cases (text_le j k)) [
  | inl jk ↦ absurd (ne (text_le_antisym k j kj jk))
  | inr jk ↦ jk
]

pub insert_entry_comm :
    (k j v w : String) (entries : List (String × String))
    → k ≢ j
    → insert_entry (k, v) (insert_entry (j, w) entries)
      ≡ insert_entry (j, w) (insert_entry (k, v) entries)
insert_entry_comm k j v w entries ne = elim (Bool-cases (text_le k j)) [
  | inl kj ↦ insert_smaller k j v w entries kj (not-text_le k j ne kj)
  | inr kj ↦ sym (insert_smaller j k w v entries (text_le_total k j kj) kj)
]

-- `Reordered ms ms'`: the same members, in another order, each key once.
pub data Reordered : Members → Members → Type 0 where
  nothing : Reordered no_members no_members
  under :
      {ms ms' : Members} (k : String) (v : Json)
      → Reordered ms ms'
      → Reordered (member k v ms) (member k v ms')
  swapped :
      {ms : Members} (k j : String) (v w : Json)
      → k ≢ j
      → Reordered (member k v (member j w ms)) (member j w (member k v ms))
  through : {ms ms' ms'' : Members} → Reordered ms ms' → Reordered ms' ms'' → Reordered ms ms''

abbrev sorted : Option (List (String × String)) → Option (List (String × String))
sorted none = none
sorted (some entries) = some (sort_entries entries)

-- One more member, by the texts of its value and of the others.
abbrev with_member :
    String → Option String → Option (List (String × String)) → Option (List (String × String))
with_member k none rest = none
with_member k (some first) none = none
with_member k (some first) (some rest) = some ((k, first) ∷ rest)

canonical_members-member :
    (k : String) (v : Json) (ms : Members)
    → canonical_members (member k v ms) ≡ with_member k (canonical v) (canonical_members ms)
unfolding canonical_members
canonical_members-member k v ms = ground arith

sorted-with_member :
    (k : String) (c : Option String) (o o' : Option (List (String × String)))
    → sorted o ≡ sorted o'
    → sorted (with_member k c o) ≡ sorted (with_member k c o')
unfolding sort_entries
sorted-with_member k none o o' h = refl
sorted-with_member k (some c) none none h = refl
sorted-with_member k (some c) none (some es) h = cc
sorted-with_member k (some c) (some es) none h = cc
sorted-with_member k (some c) (some es) (some es') h = cc

sorted-swapped :
    (k j : String) (c d : Option String) (o : Option (List (String × String)))
    → k ≢ j
    → sorted (with_member k c (with_member j d o)) ≡ sorted (with_member j d (with_member k c o))
unfolding sort_entries
sorted-swapped k j none none o ne = refl
sorted-swapped k j none (some d) none ne = refl
sorted-swapped k j none (some d) (some es) ne = refl
sorted-swapped k j (some c) none none ne = refl
sorted-swapped k j (some c) none (some es) ne = refl
sorted-swapped k j (some c) (some d) none ne = refl
sorted-swapped k j (some c) (some d) (some es) ne =
    ap some (insert_entry_comm k j c d (sort_entries es) ne)

sorted-canonical_members :
    {ms ms' : Members}
    → Reordered ms ms'
    → sorted (canonical_members ms) ≡ sorted (canonical_members ms')
sorted-canonical_members nothing = refl
sorted-canonical_members (under {ms} {ms'} k v r) =
    rw (canonical_members-member k v ms, canonical_members-member k v ms')
      (sorted-with_member k (canonical v) _ _ (sorted-canonical_members r))
sorted-canonical_members (swapped {ms} k j v w ne) =
    rw
      (
        canonical_members-member k v (member j w ms),
        canonical_members-member j w ms,
        canonical_members-member j w (member k v ms),
        canonical_members-member k v ms,
      )
      (sorted-swapped k j (canonical v) (canonical w) (canonical_members ms) ne)
sorted-canonical_members (through r s) = sorted-canonical_members r ∙ sorted-canonical_members s

abbrev object_or_none : Option (List (String × String)) → Option String
object_or_none none = none
object_or_none (some entries) = some (object_text entries)

object_of_sorted :
    (o o' : Option (List (String × String)))
    → sorted o ≡ sorted o'
    → object_or_none o ≡ object_or_none o'
unfolding object_text
object_of_sorted none none h = refl
object_of_sorted none (some es) h = cc
object_of_sorted (some es) none h = cc
object_of_sorted (some es) (some es') h = cc

canonical-object : (ms : Members) → canonical (object ms) ≡ object_or_none (canonical_members ms)
unfolding canonical
canonical-object ms = ground arith

-- The canonical text of an object is the same for every order of its members, keys being distinct,
-- or fails for every order.
pub canonical-Reordered :
    {ms ms' : Members} → Reordered ms ms' → canonical (object ms) ≡ canonical (object ms')
canonical-Reordered {ms} {ms'} r =
    rw (canonical-object ms, canonical-object ms')
      (object_of_sorted _ _ (sorted-canonical_members r))
