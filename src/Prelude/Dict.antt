-- ===== src/Prelude/Dict.antt =====
-- Go maps with string keys, as association lists. A nil map and an empty map read the same.
use Prim.Native.String.{String}
use mathlib.Core.Path.{◌≡◌, refl}
use mathlib.Core.Bool.{Bool, true, false}
use mathlib.Core.Option.{Option, none, some}
use mathlib.Core.List.{List, [], ◌∷◌}
use native.Mathlib.Omega.{arith}
use text.Mathlib.Text.{◌==◌}
use text.Mathlib.TextEquality.{eq_iff}
use kubemirror.Prelude.Tests.{if◌then◌else◌}

abbrev pub Dict {ℓ} : Type ℓ → Type ℓ
Dict V = List (String × V)

module _ {ℓ} {V : Type ℓ} where
  unfoldable pub lookup : String → Dict V → Option V
  lookup key [] = none
  lookup key ((stored, value) ∷ rest) = if stored == key then some value else lookup key rest

  unfoldable pub insert : String → V → Dict V → Dict V
  insert key value [] = (key, value) ∷ []
  insert key value ((stored, old) ∷ rest) =
      if stored == key then (key, value) ∷ rest else (stored, old) ∷ insert key value rest

  unfoldable pub delete : String → Dict V → Dict V
  delete k [] = []
  delete k ((j, w) ∷ m) = let rest = delete k m in if j == k then rest else (j, w) ∷ rest

  -- `for k, v := range from { into[k] = v }`; the keys of a map are distinct, so the order of the
  -- writes makes no difference
  unfoldable pub insert_all : Dict V → Dict V → Dict V
  insert_all [] into = into
  insert_all ((k, v) ∷ from) into = insert k v (insert_all from into)

  -- the entries whose key passes a test
  unfoldable pub filter_keys : (String → Bool) → Dict V → Dict V
  filter_keys p [] = []
  filter_keys p ((j, w) ∷ m) = let rest = filter_keys p m in if p j then (j, w) ∷ rest else rest

  pub lookup-insert :
      (written key : String) (value : V) (m : Dict V)
      → lookup key (insert written value m) ≡ (if written == key then some value else lookup key m)
  unfolding lookup insert
  lookup-insert written key value [] = refl
  lookup-insert written key value ((stored, old) ∷ rest) = ground (
    eq_iff stored key,
    lookup-insert written key value rest,
    eq_iff stored written,
    eq_iff written key,
    arith,
  )

  pub lookup-delete :
      (k j : String) (m : Dict V) → lookup j (delete k m) ≡ (if k == j then none else lookup j m)
  unfolding lookup delete
  lookup-delete k j [] = ground arith
  lookup-delete k j ((i, w) ∷ m) =
      ground (arith, eq_iff k j, eq_iff i k, eq_iff i j, lookup-delete k j m)

  pub lookup-filter_keys :
      (p : String → Bool) (j : String) (m : Dict V)
      → lookup j (filter_keys p m) ≡ (if p j then lookup j m else none)
  unfolding lookup filter_keys
  lookup-filter_keys p j [] = ground arith
  lookup-filter_keys p j ((i, w) ∷ m) = ground (arith, eq_iff i j, lookup-filter_keys p j m)

  pub lookup-if :
      (j : String) (b : Bool) (m n : Dict V)
      → lookup j (if b then m else n) ≡ (if b then lookup j m else lookup j n)
  lookup-if j true m n = refl
  lookup-if j false m n = refl

  pub lookup-insert_all :
      (j : String) (from into : Dict V)
      → lookup j (insert_all from into)
        ≡ elim (lookup j from) [ none ↦ lookup j into | some v ↦ some v ]
  unfolding lookup insert_all
  lookup-insert_all j [] into = refl
  lookup-insert_all j ((k, v) ∷ from) into =
      ground (arith, lookup-insert_all j from into, lookup-insert k j v (insert_all from into))

-- A read of a missing key gives the empty text.
abbrev pub value_or_empty : Option String → String
value_or_empty none = ""
value_or_empty (some v) = v

unfoldable pub read : String → Dict String → String
unfolding lookup
read k m = value_or_empty (lookup k m)

pub read_lem : (k : String) (m : Dict String) → read k m ≡ value_or_empty (lookup k m)
unfolding read
read_lem k m = refl

pub read-insert :
    (k j v : String) (m : Dict String) → read j (insert k v m) ≡ (if k == j then v else read j m)
read-insert k j v m = ground (arith, read_lem j (insert k v m), read_lem j m, lookup-insert k j v m)

pub read-delete :
    (k j : String) (m : Dict String) → read j (delete k m) ≡ (if k == j then "" else read j m)
read-delete k j m = ground (arith, read_lem j (delete k m), read_lem j m, lookup-delete k j m)

pub read-if :
    (j : String) (b : Bool) (m n : Dict String)
    → read j (if b then m else n) ≡ (if b then read j m else read j n)
read-if j true m n = refl
read-if j false m n = refl

-- what is written over another map is read first
pub read-insert_all :
    (j : String) (from into : Dict String)
    → read j (insert_all from into) ≡ elim (lookup j from) [ none ↦ read j into | some v ↦ v ]
read-insert_all j from into =
    ground
      (arith, read_lem j (insert_all from into), read_lem j into, lookup-insert_all j from into)

pub read-filter_keys :
    (p : String → Bool) (j : String) (m : Dict String)
    → read j (filter_keys p m) ≡ (if p j then read j m else "")
read-filter_keys p j m =
    ground (arith, read_lem j (filter_keys p m), read_lem j m, lookup-filter_keys p j m)

-- reads of written maps, by their keys
pub ruleset dict_laws =
    (lookup-insert, lookup-delete, lookup-if, read-insert, read-delete, read-if, read-filter_keys)
