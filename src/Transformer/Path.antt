-- ===== src/Transformer/Path.antt =====
-- parsePath and the array indexes of a path, pkg/transformer/transformer.go. The code walks the
-- bytes of the path; a dot or a bracket is one byte, and no other character has such a byte, so the
-- walk over the characters cuts at the same places.
pub mod RoundTrip
use Prim.Native.Char.{Char, code}
use Prim.Native.String.{◌++◌}
use kubemirror.Prelude.{
  ℕ, ◌+◌, ◌-◌, ◌*◌, String, ◌≡◌, refl, Bool, true, false, not, ◌&&◌, ◌==◌, Option, none, some, List,
  [], ◌∷◌, if◌then◌else◌, nat_eq, leb, snoc,
}
use Prim.Native.Nat.{◌^◌}
use kubemirror.Prelude.Text.{is_space}

-- `strings.Builder.WriteByte`
abbrev pub push : String → Char → String
push s c = s ++ String.◌∷◌ c ""

-- the variables of the loop
pub record PathState : Type 0 where
  pub parts : List String
  pub current : String
  pub in_bracket : Bool

abbrev pub write : PathState → Char → PathState
write s c = record s { current = push s.current c }

-- `parts = append(parts, current.String()); current.Reset()`
abbrev pub flush : PathState → PathState
flush s = record s { parts = snoc s.parts s.current; current = "" }

unfoldable pub path_byte : Char → PathState → PathState
path_byte c s =
    if nat_eq (code c) b'.'
    then (if not s.in_bracket && not (s.current == "")
        then flush s
        else if not s.in_bracket
        then s
        else write s c)
    else if nat_eq (code c) b'['
    then write (record (if not (s.current == "") then flush s else s) { in_bracket = true }) c
    else if nat_eq (code c) b']'
    then (if s.in_bracket then record (flush (write s c)) { in_bracket = false } else write s c)
    else write s c

unfoldable pub scan_path : String → PathState → PathState
unfolding path_byte
scan_path String.[] s = s
scan_path (String.◌∷◌ c rest) s = scan_path rest (path_byte c s)

-- the final segment
unfoldable pub finish_path : PathState → List String
finish_path s = if not (s.current == "") then snoc s.parts s.current else s.parts

unfoldable pub parse_path : String → List String
unfolding scan_path finish_path
parse_path path =
    if path == ""
    then []
    else finish_path (scan_path path (record { parts = []; current = ""; in_bracket = false }))

-- isArrayIndex: a text of more than two bytes between brackets. A text with a bracket at either end
-- has more than two bytes just if it is not "[]".
unfoldable pub ends_with_bracket : String → Bool
ends_with_bracket String.[] = false
ends_with_bracket (String.◌∷◌ c rest) =
    let later = ends_with_bracket rest in if rest == "" then nat_eq (code c) b']' else later

unfoldable pub is_array_index : String → Bool
unfolding ends_with_bracket
is_array_index String.[] = false
is_array_index (String.◌∷◌ c rest) =
    nat_eq (code c) b'[' && ends_with_bracket rest && not (rest == "]")

-- what `fmt.Sscanf(s, "%d", &index)` reads into a 64-bit integer: a sign and a magnitude
pub record Scanned : Type 0 where
  pub negative : Bool
  pub magnitude : ℕ

abbrev pub is_digit : ℕ → Bool
is_digit c = leb b'0' c && leb c b'9'

-- the digits from here on, up to the first other character, after the digits that make `n`
unfoldable pub scan_digits : String → ℕ → ℕ
scan_digits String.[] n = n
scan_digits (String.◌∷◌ c rest) n =
    let more = scan_digits rest (n * 10 + (code c - b'0')) in if is_digit (code c) then more else n

-- a number has a digit; its value has to fit; "-0" is read as 0
unfoldable pub scan_number : Bool → String → Option Scanned
unfolding scan_digits
scan_number negative String.[] = none
scan_number negative (String.◌∷◌ c rest) =
    let n = scan_digits (String.◌∷◌ c rest) 0 in
    if not (is_digit (code c))
    then none
    else if leb n (if negative then 2 ^ 63 else 2 ^ 63 - 1)
    then some (record { negative = negative && not (nat_eq n 0); magnitude = n })
    else none

unfoldable pub scan_sign : String → Option Scanned
unfolding scan_number
scan_sign String.[] = none
scan_sign (String.◌∷◌ c rest) =
    if nat_eq (code c) b'-'
    then scan_number true rest
    else if nat_eq (code c) b'+'
    then scan_number false rest
    else scan_number false (String.◌∷◌ c rest)

-- blanks before the number are skipped, but a line break is an error
unfoldable pub scan_int : String → Option Scanned
unfolding scan_sign is_space
scan_int String.[] = none
scan_int (String.◌∷◌ c rest) =
    let later = scan_int rest in
    if nat_eq (code c) b'\n'
    then none
    else if is_space (code c)
    then later
    else scan_sign (String.◌∷◌ c rest)

-- `segment[1 : len(segment)-1]`
unfoldable pub without_last : String → String
without_last String.[] = ""
without_last (String.◌∷◌ c rest) =
    let shorter = without_last rest in if rest == "" then "" else String.◌∷◌ c shorter

unfoldable pub inside : String → String
unfolding without_last
inside String.[] = ""
inside (String.◌∷◌ c rest) = without_last rest

-- parseArrayIndex; `none` is an error
unfoldable pub parse_array_index : String → Option Scanned
unfolding is_array_index inside scan_int
parse_array_index segment = if not (is_array_index segment) then none else scan_int (inside segment)

parse_path_example :
    parse_path "spec.containers[0].image..x" ≡ "spec" ∷ "containers" ∷ "[0]" ∷ "image" ∷ "x" ∷ []
unfolding parse_path
parse_path_example = refl

parse_array_index_example :
    parse_array_index "[12x]" ≡ some (record { negative = false; magnitude = 12 })
unfolding parse_array_index
parse_array_index_example = refl

parse_array_index-minus_zero_example : parse_array_index "[-0]" ≡ parse_array_index "[0]"
unfolding parse_array_index
parse_array_index-minus_zero_example = refl
