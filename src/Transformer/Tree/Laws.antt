-- ===== src/Transformer/Tree/Laws.antt =====
-- One segment of a path, for the steps of setNestedField of pkg/transformer/transformer.go.
use kubemirror.Prelude.{
  String, Bool, true, false, ◌≡◌, refl, ap, ◌∙◌, ◌⊎◌, inl, inr, Option, none, some, List, [], ◌∷◌,
  if◌then◌else◌, arith,
}
use kubemirror.Object.{Value}
use kubemirror.Transformer.Tree.{
  SetError, Read, there, absent, wrong, step_into, write_at, fresh_for, set_last,
}
use kubemirror.Transformer.Tree.Segments.{
  same_place, is_open, is_open-same_place, step_into-write_at, same_place-step_into,
  step_into-fresh_for, Read-cases,
}

-- what is read at the end of a path
unfoldable pub get_path : List String → Value → Option Value
get_path [] v = some v
get_path (s ∷ path) v = elim (step_into s v) [
  | there child ↦ get_path path child
  | absent ↦ none
  | wrong e ↦ none
]

-- the paths part ways at two places of one container
unfoldable pub diverge : List String → List String → Bool
diverge [] q = false
diverge (s ∷ p) [] = false
diverge (s ∷ p) (t ∷ q) = let deeper = diverge p q in if same_place s t then deeper else true

get_path-there :
    (s : String) (q : List String) (v child : Value)
    → step_into s v ≡ there child
    → get_path (s ∷ q) v ≡ get_path q child
unfolding get_path
get_path-there s q v child h = rw (h, get_path) refl

get_path-fresh : (next t : String) (q : List String) → get_path (t ∷ q) (fresh_for next) ≡ none
unfolding get_path
get_path-fresh next t q = elim (Read-cases (step_into t (fresh_for next))) [
  | inl a ↦ rw (a, get_path) refl
  | inr (inl (v, h)) ↦ absurd (step_into-fresh_for next t v h)
  | inr (inr (e, h)) ↦ rw (h, get_path) refl
]

-- the rest of a path behind what its first segment reads
abbrev follow : List String → Read → Option Value
follow q (there child) = get_path q child
follow q absent = none
follow q (wrong e) = none

follow_if :
    (b : Bool) (q : List String) (value : Value) (r : Read)
    → follow q (if b then there value else r) ≡ (if b then get_path q value else follow q r)
follow_if true q value r = refl
follow_if false q value r = refl

-- one segment of a write, read along another path
get_path-write_at :
    (s t : String) (q : List String) (value v : Value)
    → is_open (step_into s v) ≡ true
    → get_path (t ∷ q) (write_at s value v)
      ≡ (if same_place s t then get_path q value else get_path (t ∷ q) v)
unfolding get_path
get_path-write_at s t q value v h =
    ap (follow q) (step_into-write_at s t value v h)
    ∙ follow_if (same_place s t) q value (step_into t v)

pub set_last_open :
    (value v : Value) (s : String)
    → is_open (step_into s v) ≡ true
    → set_last value s v ≡ (none, write_at s value v)
unfolding set_last is_open
set_last_open value v s h = elim (Read-cases (step_into s v)) [
  | inl a ↦ rw (a, set_last) refl
  | inr (inl (c, e)) ↦ rw (e, set_last) refl
  | inr (inr (e, w)) ↦ ground (arith, h, w)
]

pub set_last_wrong :
    (value v : Value) (s : String) (e : SetError)
    → step_into s v ≡ wrong e
    → set_last value s v ≡ (some e, v)
unfolding set_last
set_last_wrong value v s e h = rw (h, set_last) refl

-- below the segment that is written stands what was written
pub get_path_written :
    (s : String) (q : List String) (value v : Value)
    → is_open (step_into s v) ≡ true
    → get_path (s ∷ q) (write_at s value v) ≡ get_path q value
get_path_written s q value v h =
    rw (get_path-write_at s s q value v h, is_open-same_place s v h) refl

-- a write, read along a path with another first place
pub apart :
    (s t : String) (q : List String) (value v : Value)
    → is_open (step_into s v) ≡ true
    → same_place s t ≡ false
    → get_path (t ∷ q) (write_at s value v) ≡ get_path (t ∷ q) v
apart s t q value v h d = rw (get_path-write_at s t q value v h, d) refl

-- a write, read along a path with the same first place
pub together :
    (s t : String) (q : List String) (value v : Value)
    → is_open (step_into s v) ≡ true
    → same_place s t ≡ true
    → get_path (t ∷ q) (write_at s value v) ≡ get_path q value
together s t q value v h d = rw (get_path-write_at s t q value v h, d) refl

-- where the loop goes on: a missing key gets a container
abbrev pub child_of : String → Read → Value
child_of next (there c) = c
child_of next absent = fresh_for next
child_of next (wrong e) = fresh_for next

child_same :
    (next u : String) (q : List String) (r : Read)
    → is_open r ≡ true
    → get_path (u ∷ q) (child_of next r) ≡ follow (u ∷ q) r
unfolding is_open
child_same next u q (there c) h = refl
child_same next u q absent h = get_path-fresh next u q
child_same next u q (wrong e) h = cc h

-- below a key that was missing, nothing was read before
pub child_path :
    (s t next u : String) (q : List String) (v : Value)
    → is_open (step_into s v) ≡ true
    → same_place s t ≡ true
    → get_path (u ∷ q) (child_of next (step_into s v)) ≡ get_path (t ∷ u ∷ q) v
unfolding get_path
child_path s t next u q v h m =
    child_same next u q (step_into s v) h ∙ ap (follow (u ∷ q)) (same_place-step_into s t v m)

-- a write is allowed or returns its error
pub open_or :
    (s : String) (v : Value)
    → (is_open (step_into s v) ≡ true) ⊎ ((e : SetError) × (step_into s v ≡ wrong e))
unfolding is_open
open_or s v = elim (Read-cases (step_into s v)) [
  | inl a ↦ inl (ground (arith, a))
  | inr (inl (c, e)) ↦ inl (ground (arith, e))
  | inr (inr w) ↦ inr w
]

pub some_is : (v x : Value) → get_path [] v ≡ some x → v ≡ x
unfolding get_path
some_is v x h = cc h

child_found :
    (next : String) (q : List String) (r : Read) (x : Value)
    → follow q r ≡ some x
    → get_path q (child_of next r) ≡ some x
child_found next q (there c) x h = h
child_found next q absent x h = cc h
child_found next q (wrong e) x h = cc h

pub child_some :
    (s t next : String) (q : List String) (v x : Value)
    → is_open (step_into s v) ≡ true
    → same_place s t ≡ true
    → get_path (t ∷ q) v ≡ some x
    → get_path q (child_of next (step_into s v)) ≡ some x
unfolding get_path
child_some s t next q v x o m h =
    child_found next q (step_into s v) x (ap (follow q) (same_place-step_into s t v m) ∙ h)
