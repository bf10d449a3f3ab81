-- ===== src/Transformer/Tree/Segments.antt =====
-- What a write at one segment of a path changes, for setNestedField of
-- pkg/transformer/transformer.go.
use kubemirror.Prelude.{
  ℕ, zero, suc, String, Bool, true, false, not, ◌&&◌, ◌==◌, ◌≡◌, ◌≢◌, refl, ap, ◌⊎◌, inl, inr,
  Option, none, some, if◌then◌else◌, nat_eq, arith, eq_iff, eq_refl, is_some,
}
use kubemirror.Object.{
  Value, null, boolean, number, text, obj, arr, Fields, end, field, Items, nil, cons,
}
use kubemirror.Transformer.Path.{Scanned, is_array_index, parse_array_index}
use kubemirror.Transformer.Tree.{
  SetError, get_field, put_field, get_item, put_item, at_index, Read, there, absent, wrong, item_at,
  field_at, step_into, put_at, put_key, write_at, fresh_for,
}

pub get_field-put_field :
    (key j : String) (value : Value) (fs : Fields)
    → get_field j (put_field key value fs) ≡ (if key == j then some value else get_field j fs)
unfolding get_field put_field
get_field-put_field key j value end = refl
get_field-put_field key j value (field k v rest) =
    ground (get_field-put_field key j value rest, eq_iff key j, eq_iff k j, eq_iff k key, arith)

get_item-put_item :
    (i j : ℕ) (value : Value) (xs : Items)
    → get_item j (put_item i value xs)
      ≡ (if nat_eq i j && is_some (get_item j xs) then some value else get_item j xs)
unfolding get_item put_item
get_item-put_item i j value nil = ground arith
get_item-put_item zero zero value (cons v rest) = refl
get_item-put_item zero (suc j) value (cons v rest) = ground arith
get_item-put_item (suc i) zero value (cons v rest) = ground arith
get_item-put_item (suc i) (suc j) value (cons v rest) =
    ground (arith, get_item-put_item i j value rest)

abbrev pub same_index : Option Scanned → Option Scanned → Bool
same_index none j = false
same_index (some i) none = false
same_index (some i) (some j) =
    (if i.negative then j.negative else not j.negative) && nat_eq i.magnitude j.magnitude

-- whether two segments name the same place
unfoldable pub same_place : String → String → Bool
same_place s t =
    if is_array_index s
    then is_array_index t && same_index (parse_array_index s) (parse_array_index t)
    else not (is_array_index t) && s == t

-- whether a write is allowed where a segment is read
unfoldable pub is_open : Read → Bool
is_open (there v) = true
is_open absent = true
is_open (wrong e) = false

-- a value that holds no others
unfoldable pub is_leaf : Value → Bool
is_leaf (obj fs) = false
is_leaf (arr xs) = false
is_leaf null = true
is_leaf (boolean b) = true
is_leaf (number n) = true
is_leaf (text t) = true

abbrev pub written : Value → Read → Read
written value (there v) = there value
written value absent = there value
written value (wrong e) = wrong e

item_at-put_at :
    (i j : Option Scanned) (value v : Value)
    → is_open (item_at i v) ≡ true
    → item_at j (put_at i value v) ≡ (if same_index i j then there value else item_at j v)
unfolding item_at put_at at_index is_open
item_at-put_at none j value v h = ground (arith, h)
item_at-put_at (some i) none value (arr xs) h = ground (arith, h)
item_at-put_at (some i) (some j) value (arr xs) h =
    ground (arith, h, get_item-put_item i.magnitude j.magnitude value xs)
item_at-put_at (some i) j value null h = ground (arith, h)
item_at-put_at (some i) j value (boolean b) h = ground (arith, h)
item_at-put_at (some i) j value (number b) h = ground (arith, h)
item_at-put_at (some i) j value (text b) h = ground (arith, h)
item_at-put_at (some i) j value (obj b) h = ground (arith, h)

field_at-put_key :
    (key j : String) (value v : Value)
    → is_open (field_at key v) ≡ true
    → field_at j (put_key key value v) ≡ (if key == j then there value else field_at j v)
unfolding field_at put_key is_open
field_at-put_key key j value (obj fs) h = ground (arith, get_field-put_field key j value fs)
field_at-put_key key j value null h = ground (arith, h)
field_at-put_key key j value (boolean b) h = ground (arith, h)
field_at-put_key key j value (number b) h = ground (arith, h)
field_at-put_key key j value (text b) h = ground (arith, h)
field_at-put_key key j value (arr b) h = ground (arith, h)

field_at-put_at :
    (i : Option Scanned) (key : String) (value v : Value)
    → field_at key (put_at i value v) ≡ field_at key v
unfolding field_at put_at
field_at-put_at none key value v = refl
field_at-put_at (some i) key value (arr xs) = refl
field_at-put_at (some i) key value null = refl
field_at-put_at (some i) key value (boolean b) = refl
field_at-put_at (some i) key value (number b) = refl
field_at-put_at (some i) key value (text b) = refl
field_at-put_at (some i) key value (obj b) = refl

item_at-put_key :
    (i : Option Scanned) (key : String) (value v : Value)
    → item_at i (put_key key value v) ≡ item_at i v
unfolding item_at put_key
item_at-put_key none key value v = refl
item_at-put_key (some i) key value (arr xs) = refl
item_at-put_key (some i) key value null = refl
item_at-put_key (some i) key value (boolean b) = refl
item_at-put_key (some i) key value (number b) = refl
item_at-put_key (some i) key value (text b) = refl
item_at-put_key (some i) key value (obj b) = refl

-- the two kinds of segments
by_kind :
    (a b : Bool) (i j : Option Scanned) (s t : String) (value v : Value)
    → is_open (if a then item_at i v else field_at s v) ≡ true
    → (let w = if a then put_at i value v else put_key s value v in
        if b then item_at j w else field_at t w)
      ≡ (if (if a then b && same_index i j else not b && s == t)
          then there value
          else if b
          then item_at j v
          else field_at t v)
by_kind true true i j s t value v h = item_at-put_at i j value v h
by_kind true false i j s t value v h = field_at-put_at i t value v
by_kind false true i j s t value v h = item_at-put_key j s value v
by_kind false false i j s t value v h = field_at-put_key s t value v h

-- After a write at one segment, another segment reads what was written where it names the same
-- place, and what it read before where it does not.
pub step_into-write_at :
    (s t : String) (value v : Value)
    → is_open (step_into s v) ≡ true
    → step_into t (write_at s value v) ≡ (if same_place s t then there value else step_into t v)
unfolding step_into write_at same_place
step_into-write_at s t value v h =
    by_kind (is_array_index s) (is_array_index t) (parse_array_index s) (parse_array_index t) s t
      value v h

open_kind :
    (a : Bool) (i : Option Scanned) (s : String) (v : Value)
    → is_open (if a then item_at i v else field_at s v) ≡ true
    → (if a then a && same_index i i else not a && s == s) ≡ true
unfolding item_at is_open
open_kind true none s v h = ground (arith, h)
open_kind true (some i) s v h = ground arith
open_kind false i s v h = ground (arith, eq_refl s)

-- a segment that can be written names its own place
pub is_open-same_place :
    (s : String) (v : Value) → is_open (step_into s v) ≡ true → same_place s s ≡ true
unfolding step_into same_place
is_open-same_place s v h = open_kind (is_array_index s) (parse_array_index s) s v h

leaf_kind :
    (a : Bool) (i : Option Scanned) (s : String) (v : Value)
    → is_leaf v ≡ true
    → is_open (if a then item_at i v else field_at s v) ≡ false
unfolding item_at field_at is_open is_leaf
leaf_kind a i s (obj fs) h = cc h
leaf_kind a i s (arr xs) h = cc h
leaf_kind true none s null h = refl
leaf_kind true (some i) s null h = refl
leaf_kind false i s null h = refl
leaf_kind true none s (boolean b) h = refl
leaf_kind true (some i) s (boolean b) h = refl
leaf_kind false i s (boolean b) h = refl
leaf_kind true none s (number b) h = refl
leaf_kind true (some i) s (number b) h = refl
leaf_kind false i s (number b) h = refl
leaf_kind true none s (text b) h = refl
leaf_kind true (some i) s (text b) h = refl
leaf_kind false i s (text b) h = refl

-- there is nothing below a leaf
pub is_open-is_leaf : (s : String) (v : Value) → is_leaf v ≡ true → is_open (step_into s v) ≡ false
unfolding step_into
is_open-is_leaf s v h = leaf_kind (is_array_index s) (parse_array_index s) s v h

item_at_same :
    (i j : Option Scanned) (v : Value) → same_index i j ≡ true → item_at i v ≡ item_at j v
unfolding item_at at_index
item_at_same none j v h = ground (arith, h)
item_at_same (some i) none v h = ground (arith, h)
item_at_same (some i) (some j) v h = ap (λ k. item_at (some k) v) (ground (arith, h))

same_kind :
    (a b : Bool) (i j : Option Scanned) (s t : String) (v : Value)
    → (if a then b && same_index i j else not b && s == t) ≡ true
    → (if a then item_at i v else field_at s v) ≡ (if b then item_at j v else field_at t v)
same_kind true true i j s t v h = item_at_same i j v h
same_kind true false i j s t v h = ground (arith, h)
same_kind false true i j s t v h = ground (arith, h)
same_kind false false i j s t v h = ap (λ k. field_at k v) ((eq_iff s t).0 h)

-- segments of the same place read the same
pub same_place-step_into :
    (s t : String) (v : Value) → same_place s t ≡ true → step_into s v ≡ step_into t v
unfolding step_into same_place
same_place-step_into s t v h =
    same_kind (is_array_index s) (is_array_index t) (parse_array_index s) (parse_array_index t) s t
      v h

fresh_kind :
    (a b : Bool) (i : Option Scanned) (s : String) (v : Value)
    → (let w = if a then arr nil else obj end in if b then item_at i w else field_at s w) ≢ there v
unfolding item_at field_at at_index get_item get_field
fresh_kind true true none s v = λ e. cc e
fresh_kind true true (some i) s v = λ e. ground (arith, e)
fresh_kind true false i s v = λ e. cc e
fresh_kind false true none s v = λ e. cc e
fresh_kind false true (some i) s v = λ e. cc e
fresh_kind false false i s v = λ e. cc e

-- a container that was just made holds nothing
pub step_into-fresh_for : (next s : String) (v : Value) → step_into s (fresh_for next) ≢ there v
unfolding step_into fresh_for
step_into-fresh_for next s v =
    fresh_kind (is_array_index next) (is_array_index s) (parse_array_index s) s v

pub Read-cases :
    (r : Read) → (r ≡ absent) ⊎ (((v : Value) × (r ≡ there v)) ⊎ ((e : SetError) × (r ≡ wrong e)))
Read-cases absent = inl refl
Read-cases (there v) = inr (inl (v, refl))
Read-cases (wrong e) = inr (inr (e, refl))
