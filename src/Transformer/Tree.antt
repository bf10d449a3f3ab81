-- ===== src/Transformer/Tree.antt =====
-- setNestedField of pkg/transformer/transformer.go, on the tree of an object. Nothing in the tree is
-- shared, so a write below a field is a new value of that field; what was created on the way stays
-- where a later step fails.
pub mod Segments
pub mod Laws
pub mod Writes
use kubemirror.Prelude.{
  ℕ, zero, suc, String, Bool, true, false, not, ◌&&◌, ◌==◌, Option, none, some, List, [], ◌∷◌,
  if◌then◌else◌,
}
use kubemirror.Object.{
  Value, null, boolean, number, text, obj, arr, Fields, end, field, Items, nil, cons,
}
use kubemirror.Transformer.Path.{Scanned, is_array_index, parse_array_index}
use kubemirror.Transformer.Base64.{base64_encode}

pub data SetError : Type 0 where
  no_path : SetError
  bad_index : SetError
  needs_array : SetError
  out_of_bounds : SetError
  needs_map : SetError

-- a Go map of a JSON document
unfoldable pub get_field : String → Fields → Option Value
get_field key end = none
get_field key (field k v rest) = if k == key then some v else get_field key rest

unfoldable pub put_field : String → Value → Fields → Fields
put_field key value end = field key value end
put_field key value (field k v rest) =
    let others = put_field key value rest in
    if k == key then field key value rest else field k v others

unfoldable pub get_item : ℕ → Items → Option Value
get_item i nil = none
get_item zero (cons v rest) = some v
get_item (suc i) (cons v rest) = get_item i rest

unfoldable pub put_item : ℕ → Value → Items → Items
put_item i value nil = nil
put_item zero value (cons v rest) = cons value rest
put_item (suc i) value (cons v rest) = cons v (put_item i value rest)

-- the items behind an index: `none` where it is negative or too large
unfoldable pub at_index : Scanned → Items → Option Value
unfolding get_item
at_index i xs = if i.negative then none else get_item i.magnitude xs

-- what is read at one segment, and the error where the value is of another shape
pub data Read : Type 0 where
  there : Value → Read
  absent : Read
  wrong : SetError → Read

unfoldable pub item_at : Option Scanned → Value → Read
unfolding at_index
item_at none v = wrong bad_index
item_at (some i) (arr xs) = elim (at_index i xs) [ none ↦ wrong out_of_bounds | some v ↦ there v ]
item_at (some i) other = wrong needs_array

unfoldable pub field_at : String → Value → Read
unfolding get_field
field_at key (obj fs) = elim (get_field key fs) [ none ↦ absent | some v ↦ there v ]
field_at key other = wrong needs_map

unfoldable pub step_into : String → Value → Read
unfolding item_at field_at is_array_index parse_array_index
step_into segment v =
    if is_array_index segment then item_at (parse_array_index segment) v else field_at segment v

-- the write at one segment, where `step_into` allows it
unfoldable pub put_at : Option Scanned → Value → Value → Value
unfolding put_item
put_at none value v = v
put_at (some i) value (arr xs) = arr (put_item i.magnitude value xs)
put_at (some i) value other = other

unfoldable pub put_key : String → Value → Value → Value
unfolding put_field
put_key key value (obj fs) = obj (put_field key value fs)
put_key key value other = other

unfoldable pub write_at : String → Value → Value → Value
unfolding put_at put_key is_array_index parse_array_index
write_at segment value v =
    if is_array_index segment
    then put_at (parse_array_index segment) value v
    else put_key segment value v

-- the container that is made for a missing key, by the segment after it
unfoldable pub fresh_for : String → Value
unfolding is_array_index
fresh_for next = if is_array_index next then arr nil else obj end

-- the final segment: a missing key is written, too
unfoldable pub set_last : Value → String → Value → Option SetError × Value
unfolding step_into write_at
set_last value segment v = elim (step_into segment v) [
  | there old ↦ (none, write_at segment value v)
  | absent ↦ (none, write_at segment value v)
  | wrong e ↦ (some e, v)
]

-- the loop to the parent of the final segment, and the write there; `keyed` is written under a key
-- and `plain` into an array
unfoldable pub set_in : Value → Value → String → List String → Value → Option SetError × Value
unfolding set_last step_into write_at fresh_for
set_in keyed plain segment [] v =
    set_last (if is_array_index segment then plain else keyed) segment v
set_in keyed plain segment (next ∷ rest) v = elim (step_into segment v) [
  | wrong e ↦ (some e, v)
  | there child ↦ let w = set_in keyed plain next rest child in (w.0, write_at segment w.1 v)
  | absent ↦ let w = set_in keyed plain next rest (fresh_for next) in (w.0, write_at segment w.1 v)
]

abbrev pub is_text : String → Option Value → Bool
is_text s (some (text t)) = t == s
is_text s other = false

-- isSecretDataField
unfoldable pub is_secret_data_field : Fields → List String → Bool
unfolding get_field
is_secret_data_field root [] = false
is_secret_data_field root (first ∷ rest) =
    is_text "Secret" (get_field "kind" root)
    && is_text "v1" (get_field "apiVersion" root)
    && first == "data"

-- setNestedField with a text, as its callers give. Whether the path is one of a Secret's data can be
-- asked first: the loop writes below the first segment only, which has to be "data" for that.
unfoldable pub set_nested_field : Fields → List String → String → Option SetError × Value
unfolding set_in is_secret_data_field base64_encode
set_nested_field root [] value = (some no_path, obj root)
set_nested_field root (segment ∷ rest) value =
    let keyed = if is_secret_data_field root (segment ∷ rest) then base64_encode value else value in
    set_in (text keyed) (text value) segment rest (obj root)
