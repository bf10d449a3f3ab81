-- ===== src/PathMatch.antt =====
-- `filepath.Match` of Go's standard library on a Unix system, as pkg/filter uses it: pattern
-- syntax and matching as its documentation states them, over code points.
--
--   pattern: { term };  term: '*' | '?' | '[' [ '^' ] { range } ']' | c | '\\' c
--   range: c | '\\' c | lo '-' hi
--
-- A star and a question mark match no slash. The names that are matched are names of namespaces,
-- which hold no slash; there the search order of the Go loop makes no difference.
use kubemirror.Prelude.{
  ℕ, String, Bool, true, false, not, ◌&&◌, ◌||◌, Option, none, some, List, [], ◌∷◌, ◌++◌, leb,
  nat_eq, if◌then◌else◌, ◌≡◌, refl,
}
use kubemirror.Prelude.Text.{codes}

pub data Term : Type 0 where
  star : Term
  single : Term
  char : ℕ → Term
  class : Bool → List (ℕ × ℕ) → Term

-- Where the reading of a pattern stands. `negated` and the ranges read so far go along in a class.
pub data Mode : Type 0 where
  plain : Mode
  escaped : Mode
  opened : Mode
  in_class : Bool → List (ℕ × ℕ) → Mode
  escaped_low : Bool → List (ℕ × ℕ) → Mode
  after_low : Bool → List (ℕ × ℕ) → ℕ → Mode
  at_high : Bool → List (ℕ × ℕ) → ℕ → Mode
  escaped_high : Bool → List (ℕ × ℕ) → ℕ → Mode

abbrev pub backslash : ℕ
backslash = 92

abbrev pub Read : Type 0
Read = Option (Mode × List Term)

plain_step : ℕ → Read
plain_step c =
    if nat_eq c b'*'
    then some (plain, star ∷ [])
    else if nat_eq c b'?'
    then some (plain, single ∷ [])
    else if nat_eq c backslash
    then some (escaped, [])
    else if nat_eq c b'['
    then some (opened, [])
    else some (plain, char c ∷ [])

is_empty : List (ℕ × ℕ) → Bool
is_empty [] = true
is_empty (r ∷ rs) = false

-- the start of a range, or the end of the class where it has one already
class_step : Bool → List (ℕ × ℕ) → ℕ → Read
unfolding is_empty
class_step negated ranges c =
    if nat_eq c b']' && not (is_empty ranges)
    then some (plain, class negated ranges ∷ [])
    else if nat_eq c b'-' || nat_eq c b']'
    then none
    else if nat_eq c backslash
    then some (escaped_low negated ranges, [])
    else some (after_low negated ranges c, [])

high_step : Bool → List (ℕ × ℕ) → ℕ → ℕ → Read
high_step negated ranges lo c =
    if nat_eq c b'-' || nat_eq c b']'
    then none
    else if nat_eq c backslash
    then some (escaped_high negated ranges lo, [])
    else some (in_class negated (ranges ++ (lo, c) ∷ []), [])

-- one character of the pattern: the mode after it and the terms that it completes
pub read_char : Mode → ℕ → Read
unfolding plain_step class_step high_step
read_char plain c = plain_step c
read_char escaped c = some (plain, char c ∷ [])
read_char opened c = if nat_eq c b'^' then some (in_class true [], []) else class_step false [] c
read_char (in_class negated ranges) c = class_step negated ranges c
read_char (escaped_low negated ranges) c = some (after_low negated ranges c, [])
read_char (after_low negated ranges lo) c =
    if nat_eq c b'-'
    then some (at_high negated ranges lo, [])
    else class_step negated (ranges ++ (lo, lo) ∷ []) c
read_char (at_high negated ranges lo) c = high_step negated ranges lo c
read_char (escaped_high negated ranges lo) c = some (in_class negated (ranges ++ (lo, c) ∷ []), [])

-- A pattern may end only outside a class and an escape; else it is malformed, ErrBadPattern.
pub at_end : Mode → Option (List Term)
at_end plain = some []
at_end escaped = none
at_end opened = none
at_end (in_class n rs) = none
at_end (escaped_low n rs) = none
at_end (after_low n rs lo) = none
at_end (at_high n rs lo) = none
at_end (escaped_high n rs lo) = none

pub terms : Mode → List ℕ → Option (List Term)
unfolding read_char at_end
terms m [] = at_end m
terms m (c ∷ cs) = elim (read_char m c) [
  | none ↦ none
  | some (m', read) ↦ elim (terms m' cs) [ none ↦ none | some rest ↦ some (read ++ rest) ]
]

in_ranges : List (ℕ × ℕ) → ℕ → Bool
in_ranges [] c = false
in_ranges ((lo, hi) ∷ rs) c = (leb lo c && leb c hi) || in_ranges rs c

-- whether a term other than a star takes a character
pub accepts : Term → ℕ → Bool
unfolding in_ranges
accepts star c = false
accepts single c = not (nat_eq c b'/')
accepts (char d) c = nat_eq d c
accepts (class negated ranges) c = if negated then not (in_ranges ranges c) else in_ranges ranges c

pub matches : List Term → List ℕ → Bool
unfolding accepts
matches [] [] = true
matches [] (c ∷ s) = false
matches (star ∷ p) [] = matches p []
matches (star ∷ p) (c ∷ s) = elim (matches p (c ∷ s)) [
  | true ↦ true
  | false ↦ elim (nat_eq c b'/') [ true ↦ false | false ↦ matches (star ∷ p) s ]
]
matches (t ∷ p) [] = false
matches (t ∷ p) (c ∷ s) = elim (accepts t c) [ true ↦ matches p s | false ↦ false ]

-- `filepath.Match(pattern, name)`; `none` is ErrBadPattern
unfoldable pub path_match : String → String → Option Bool
unfolding terms matches
path_match pattern name = elim (terms plain (codes pattern)) [
  | none ↦ none
  | some ts ↦ some (matches ts (codes name))
]

match_tests :
    (path_match "app-*" "app-1" ≡ some true)
    × (path_match "*-prod" "stage" ≡ some false)
    × (path_match "ns[0-9a]?" "ns7x" ≡ some true)
    × (path_match "[^a]b" "ab" ≡ some false)
    × (path_match "a[" "test" ≡ none)
    × (path_match "[]a]" "a" ≡ none)
    × (path_match "a\\" "a" ≡ none)
unfolding path_match
match_tests = (refl, refl, refl, refl, refl, refl, refl)
