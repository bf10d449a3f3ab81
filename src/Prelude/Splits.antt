-- ===== src/Prelude/Splits.antt =====
-- Splitting a text at a separator of one character, and joining the parts again.
use Prim.Native.Nat.{ℕ}
use Prim.Native.Char.{Char, code}
use Prim.Native.String.{String, ◌++◌}
use mathlib.Core.Path.{◌≡◌, refl, sym, ap, ◌∙◌}
use mathlib.Core.Logic.{inl, inr}
use mathlib.Core.Bool.{true, false}
use mathlib.Core.List.{List, [], ◌∷◌}
use native.Mathlib.Omega.{arith}
use text.Mathlib.TextEquality.{Char-path}
use text.Mathlib.TextLemmas.{nil-append, cons-append}
use kubemirror.Prelude.Tests.{nat_eq, Bool-cases}
use kubemirror.Prelude.Text.{split, join, on_first, has_code}

-- a text with no separator is one part
pub split-one : (sep : ℕ) (s : String) → has_code sep s ≡ false → split sep s ≡ s ∷ []
unfolding split has_code
split-one sep String.[] h = refl
split-one sep (String.◌∷◌ c s) h = ground (arith, split-one sep s)

-- the part before the first separator
pub split-append :
    (sep : ℕ) (s : String) (c : Char) (rest : String)
    → has_code sep s ≡ false
    → nat_eq (code c) sep ≡ true
    → split sep (s ++ String.◌∷◌ c rest) ≡ s ∷ split sep rest
unfolding split has_code
split-append sep String.[] c rest h e = rw (nil-append (String.◌∷◌ c rest)) (rw e refl)
split-append sep (String.◌∷◌ d s) c rest h e =
    rw (cons-append d s (String.◌∷◌ c rest)) (ground (arith, split-append sep s c rest))

-- the first part, with the others behind it
join-on_first :
    (sep : String) (c : Char) (parts : List String)
    → join sep (on_first c parts) ≡ String.◌∷◌ c (join sep parts)
unfolding join on_first
join-on_first sep c [] = refl
join-on_first sep c (part ∷ []) = refl
join-on_first sep c (part ∷ next ∷ parts) = cons-append c part (sep ++ join sep (next ∷ parts))

-- a split has a part, at least
pub split-ne-nil :
    (sep : ℕ) (s : String) → (p : String) × (ps : List String) × (split sep s ≡ p ∷ ps)
unfolding split on_first
split-ne-nil sep String.[] = ("", [], refl)
split-ne-nil sep (String.◌∷◌ c s) = elim (Bool-cases (nat_eq (code c) sep)) [
  | inl at ↦ ("", split sep s, rw at refl)
  | inr apart ↦ let (p, ps, e) = split-ne-nil sep s in (String.◌∷◌ c p, ps, rw (apart, e) refl)
]

join-empty_first :
    (c : Char) (p : String) (ps : List String)
    → join (String.◌∷◌ c "") ("" ∷ p ∷ ps) ≡ String.◌∷◌ c (join (String.◌∷◌ c "") (p ∷ ps))
unfolding join
join-empty_first c p ps =
    let others = join (String.◌∷◌ c "") (p ∷ ps) in
    nil-append (String.◌∷◌ c "" ++ others)
    ∙ cons-append c "" others
    ∙ ap (String.◌∷◌ c) (nil-append others)

-- Joining the parts of a split gives the text back.
pub join-split : (c : Char) (s : String) → join (String.◌∷◌ c "") (split (code c) s) ≡ s
unfolding split
join-split c String.[] = unfold join in refl
join-split c (String.◌∷◌ d s) = elim (Bool-cases (nat_eq (code d) (code c))) [
  | inl same ↦
      let (p, ps, parts) = split-ne-nil (code c) s in
      let d_is_c : d ≡ c = Char-path d c (ground arith) in
      let first : join (String.◌∷◌ c "") ("" ∷ split (code c) s)
          ≡ String.◌∷◌ c (join (String.◌∷◌ c "") (split (code c) s)) =
        rw parts (join-empty_first c p ps) in
      rw same (first ∙ ap (String.◌∷◌ c) (join-split c s) ∙ ap (λ e. String.◌∷◌ e s) (sym d_is_c))
  | inr apart ↦
      rw apart
        (join-on_first (String.◌∷◌ c "") d (split (code c) s) ∙ ap (String.◌∷◌ d) (join-split c s))
]
