-- ===== src/Transformer/Path/RoundTrip.antt =====
-- The paths that parsePath of pkg/transformer/transformer.go reads back: keys with dots between them,
-- and indices in brackets.
use Prim.Native.Char.{Char, code}
use Prim.Native.String.{◌++◌}
use text.Mathlib.TextLemmas.{nil-append, cons-append, append-nil, append_assoc}
use kubemirror.Prelude.{
  String, ◌≡◌, refl, sym, ap, subst, ◌∙◌, Bool, true, false, not, ◌&&◌, ◌==◌, List, [], ◌∷◌,
  if◌then◌else◌, nat_eq, snoc, snoc_all, snoc_all-append, map, All, arith, eq_iff, Bool-cases, inl,
  inr,
}
use kubemirror.Prelude.Text.{has_code}
use kubemirror.Transformer.Path.{PathState, push, path_byte, scan_path, finish_path, parse_path}

-- a segment of a path: a key, or what stands between brackets
pub data Segment : Type 0 where
  key : String → Segment
  index : String → Segment

abbrev pub text_of : Segment → String
text_of (key k) = k
text_of (index i) = "[" ++ (i ++ "]")

-- a key is not empty and has no dot and no bracket; an index has no bracket
abbrev pub IsSegment : Segment → Type 0
IsSegment (key k) =
    ((k == "") ≡ false)
    × (has_code b'.' k ≡ false)
    × (has_code b'[' k ≡ false)
    × (has_code b']' k ≡ false)
IsSegment (index i) = (has_code b'[' i ≡ false) × (has_code b']' i ≡ false)

-- the segments behind another one
abbrev pub print_rest : List Segment → String
print_rest [] = ""
print_rest (key k ∷ rest) = "." ++ (k ++ print_rest rest)
print_rest (index i ∷ rest) = "[" ++ (i ++ ("]" ++ print_rest rest))

abbrev pub print : List Segment → String
print [] = ""
print (key k ∷ rest) = k ++ print_rest rest
print (index i ∷ rest) = print_rest (index i ∷ rest)

one-append : (c : Char) (s : String) → String.◌∷◌ c "" ++ s ≡ String.◌∷◌ c s
one-append c s = cons-append c "" s ∙ ap (String.◌∷◌ c) (nil-append s)

abbrev st : List String → String → Bool → PathState
st ps cur b = record { parts = ps; current = cur; in_bracket = b }

-- the segments so far, with the one that is not closed yet
abbrev held : List String → String → List String
held ps cur = if not (cur == "") then snoc ps cur else ps

scan_cons :
    (c : Char) (s : String) (w w' : PathState)
    → path_byte c w ≡ w'
    → scan_path (String.◌∷◌ c "" ++ s) w ≡ scan_path s w'
unfolding scan_path
scan_cons c s w w' e = ap (λ t. scan_path t w) (one-append c s) ∙ ap (scan_path s) e

dot_step :
    (ps : List String) (cur : String) → path_byte "." (st ps cur false) ≡ st (held ps cur) "" false
unfolding path_byte
dot_step ps cur = elim (Bool-cases (cur == "")) [
  | inl e ↦ rw e (ap (λ t. st ps t false) ((eq_iff cur "").0 e))
  | inr e ↦ rw e refl
]

open_step :
    (ps : List String) (cur : String) → path_byte "[" (st ps cur false) ≡ st (held ps cur) "[" true
unfolding path_byte
open_step ps cur = elim (Bool-cases (cur == "")) [
  | inl e ↦ rw e (
      ap (λ t. st ps (t ++ "[") true) ((eq_iff cur "").0 e)
      ∙ ap (λ t. st ps t true) (nil-append "["))
  | inr e ↦ rw e (ap (λ t. st (snoc ps cur) t true) (nil-append "["))
]

close_step :
    (ps : List String) (cur : String)
    → path_byte "]" (st ps cur true) ≡ st (snoc ps (cur ++ "]")) "" false
unfolding path_byte
close_step ps cur = refl

-- a character that the loop writes
plain_step :
    (c : Char) (ps : List String) (cur : String) (b : Bool)
    → nat_eq (code c) b'[' ≡ false
    → nat_eq (code c) b']' ≡ false
    → (not b && nat_eq (code c) b'.') ≡ false
    → path_byte c (st ps cur b) ≡ st ps (push cur c) b
unfolding path_byte
plain_step c ps cur true h k d = ground (arith, h, k)
plain_step c ps cur false h k d = ground (arith, h, k, d)

scan_plain :
    (k s : String) (ps : List String) (cur : String) (b : Bool)
    → has_code b'[' k ≡ false
    → has_code b']' k ≡ false
    → (not b && has_code b'.' k) ≡ false
    → scan_path (k ++ s) (st ps cur b) ≡ scan_path s (st ps (cur ++ k) b)
unfolding has_code
scan_plain String.[] s ps cur b h j d =
    ap (λ t. scan_path t (st ps cur b)) (nil-append s)
    ∙ ap (λ t. scan_path s (st ps t b)) (sym (append-nil cur))
scan_plain (String.◌∷◌ c k) s ps cur b h j d =
    ap (λ t. scan_path t (st ps cur b)) (cons-append c k s ∙ sym (one-append c (k ++ s)))
    ∙ scan_cons c (k ++ s) (st ps cur b) (st ps (push cur c) b)
        (plain_step c ps cur b (ground (arith, h)) (ground (arith, j)) (ground (arith, d)))
    ∙ scan_plain k s ps (push cur c) b (ground (arith, h)) (ground (arith, j)) (ground (arith, d))
    ∙ ap (λ t. scan_path s (st ps t b))
        (append_assoc cur (String.◌∷◌ c "") k ∙ ap (λ t. cur ++ t) (one-append c k))

rest_read :
    (ss : List Segment) (ps : List String) (cur : String)
    → All IsSegment ss
    → finish_path (scan_path (print_rest ss) (st ps cur false))
      ≡ snoc_all (held ps cur) (map text_of ss)
unfolding finish_path scan_path
rest_read [] ps cur h = refl
rest_read (key k ∷ rest) ps cur ((full, no_dot, no_open, no_close), h) =
    ap finish_path (
      scan_cons "." (k ++ print_rest rest) (st ps cur false) (st (held ps cur) "" false)
        (dot_step ps cur)
      ∙ scan_plain k (print_rest rest) (held ps cur) "" false no_open no_close no_dot
      ∙ ap (λ t. scan_path (print_rest rest) (st (held ps cur) t false)) (nil-append k))
    ∙ rest_read rest (held ps cur) k h
    ∙ rw full refl
rest_read (index i ∷ rest) ps cur ((no_open, no_close), h) =
    ap finish_path (
      scan_cons "[" (i ++ ("]" ++ print_rest rest)) (st ps cur false) (st (held ps cur) "[" true)
        (open_step ps cur)
      ∙ scan_plain i ("]" ++ print_rest rest) (held ps cur) "[" true no_open no_close refl
      ∙ scan_cons "]" (print_rest rest) (st (held ps cur) ("[" ++ i) true)
          (st (snoc (held ps cur) (("[" ++ i) ++ "]")) "" false)
          (close_step (held ps cur) ("[" ++ i)))
    ∙ rest_read rest (snoc (held ps cur) (("[" ++ i) ++ "]")) "" h
    ∙ ap (λ t. snoc_all (snoc (held ps cur) t) (map text_of rest)) (append_assoc "[" i "]")

parse_scan : (p : String) → parse_path p ≡ finish_path (scan_path p (st [] "" false))
unfolding parse_path scan_path finish_path
parse_scan p = elim (Bool-cases (p == "")) [
  | inl e ↦
      subst (λ t. parse_path t ≡ finish_path (scan_path t (st [] "" false)))
        (sym ((eq_iff p "").0 e)) refl
  | inr e ↦ rw e refl
]

-- A path that is printed from keys that are not empty and have no dots and no brackets, and indices
-- that have no brackets inside, is parsed into just these segments.
pub parse_path-print :
    (ss : List Segment) → All IsSegment ss → parse_path (print ss) ≡ map text_of ss
parse_path-print [] h = parse_scan "" ∙ rest_read [] [] "" h
parse_path-print (key k ∷ rest) ((full, no_dot, no_open, no_close), h) =
    parse_scan (k ++ print_rest rest)
    ∙ ap finish_path (
        scan_plain k (print_rest rest) [] "" false no_open no_close no_dot
        ∙ ap (λ t. scan_path (print_rest rest) (st [] t false)) (nil-append k))
    ∙ rest_read rest [] k h
    ∙ rw full (snoc_all-append (k ∷ []) (map text_of rest))
parse_path-print (index i ∷ rest) h =
    parse_scan (print_rest (index i ∷ rest))
    ∙ rest_read (index i ∷ rest) [] "" h
    ∙ snoc_all-append [] (map text_of (index i ∷ rest))
