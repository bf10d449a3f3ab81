-- ===== src/Transformer/Glob.antt =====
-- What the glob of pkg/transformer/transformer.go matches.
use kubemirror.Prelude.{
  ℕ, Bool, true, ◌≡◌, refl, ◌↔◌, List, [], ◌∷◌, arith, nat_eq, Bool-cases, inl, inr, sym, subst, ap,
  ◌∙◌,
}
use kubemirror.Transformer.{same_bytes, at_some_rest, match_glob_recursive, match_glob}

-- A pattern matches a text: a star stands for any bytes, a question mark for one, and any other
-- byte for itself.
pub data Matches : List ℕ → List ℕ → Type 0 where
  at_end : Matches [] []
  star_none :
      {c : ℕ} {pattern text : List ℕ} → c ≡ b'*' → Matches pattern text → Matches (c ∷ pattern) text
  star_more :
      {c x : ℕ} {pattern text : List ℕ}
      → c ≡ b'*'
      → Matches (c ∷ pattern) text
      → Matches (c ∷ pattern) (x ∷ text)
  any_one :
      {c x : ℕ} {pattern text : List ℕ}
      → c ≡ b'?'
      → Matches pattern text
      → Matches (c ∷ pattern) (x ∷ text)
  itself :
      {c x : ℕ} {pattern text : List ℕ}
      → c ≡ x
      → Matches pattern text
      → Matches (c ∷ pattern) (x ∷ text)

same_bytes-Matches : (p t : List ℕ) → same_bytes p t ≡ true → Matches p t
unfolding same_bytes
same_bytes-Matches [] [] h = at_end
same_bytes-Matches [] (y ∷ ys) h = ground (arith, h)
same_bytes-Matches (x ∷ xs) [] h = ground (arith, h)
same_bytes-Matches (x ∷ xs) (y ∷ ys) h =
    itself (ground (arith, h)) (same_bytes-Matches xs ys (ground (arith, h)))

star-Matches :
    (c : ℕ) (p t : List ℕ)
    → c ≡ b'*'
    → ((u : List ℕ) → match_glob_recursive p u ≡ true → Matches p u)
    → at_some_rest (match_glob_recursive p) t ≡ true
    → Matches (c ∷ p) t
unfolding at_some_rest
star-Matches c p [] e sound h = star_none e (sound [] h)
star-Matches c p (x ∷ t) e sound h = elim (Bool-cases (match_glob_recursive p (x ∷ t))) [
  | inl now ↦ star_none e (sound (x ∷ t) now)
  | inr later ↦ star_more e (star-Matches c p t e sound (ground (arith, h, later)))
]

match_glob_recursive-Matches : (p t : List ℕ) → match_glob_recursive p t ≡ true → Matches p t
unfolding match_glob_recursive
match_glob_recursive-Matches [] [] h = at_end
match_glob_recursive-Matches [] (x ∷ t) h = ground (arith, h)
match_glob_recursive-Matches (c ∷ p) [] h = elim (Bool-cases (nat_eq c b'*')) [
  | inl star ↦
      star-Matches c p [] (ground (arith, star)) (match_glob_recursive-Matches p)
        (ground (arith, h, star))
  | inr other ↦ ground (arith, h, other)
]
match_glob_recursive-Matches (c ∷ p) (x ∷ t) h = elim (Bool-cases (nat_eq c b'*')) [
  | inl star ↦
      star-Matches c p (x ∷ t) (ground (arith, star)) (match_glob_recursive-Matches p)
        (ground (arith, h, star))
  | inr other ↦ elim (Bool-cases (nat_eq c b'?')) [
    | inl any ↦
        any_one (ground (arith, any))
          (match_glob_recursive-Matches p t (ground (arith, h, other, any)))
    | inr literal ↦
        itself (ground (arith, h, other, literal))
          (match_glob_recursive-Matches p t (ground (arith, h, other, literal)))
  ]
]

-- what matches here matches at some rest
at_some_rest_here : (f : List ℕ → Bool) (t : List ℕ) → f t ≡ true → at_some_rest f t ≡ true
unfolding at_some_rest
at_some_rest_here f [] h = h
at_some_rest_here f (x ∷ t) h = rw h refl

at_some_rest_later :
    (f : List ℕ → Bool) (x : ℕ) (t : List ℕ)
    → at_some_rest f t ≡ true
    → at_some_rest f (x ∷ t) ≡ true
unfolding at_some_rest
at_some_rest_later f x t h = ground (arith, h)

recursive_star :
    (c : ℕ) (p t : List ℕ)
    → c ≡ b'*'
    → match_glob_recursive (c ∷ p) t ≡ at_some_rest (match_glob_recursive p) t
unfolding match_glob_recursive
recursive_star c p [] e = rw e refl
recursive_star c p (x ∷ t) e = rw e refl

Matches-match_glob_recursive : {p t : List ℕ} → Matches p t → match_glob_recursive p t ≡ true
unfolding match_glob_recursive
Matches-match_glob_recursive at_end = refl
Matches-match_glob_recursive (star_none {c = c} {pattern = p} {text = t} e m) =
    rw (recursive_star c p t e)
      (at_some_rest_here (match_glob_recursive p) t (Matches-match_glob_recursive m))
Matches-match_glob_recursive (star_more {c = c} {x = x} {pattern = p} {text = t} e m) =
    rw (recursive_star c p (x ∷ t) e) (
      at_some_rest_later (match_glob_recursive p) x t
        (sym (recursive_star c p t e) ∙ Matches-match_glob_recursive m))
Matches-match_glob_recursive (any_one {c = c} {x = x} {pattern = p} {text = t} e m) =
    ground (arith, e, Matches-match_glob_recursive m)
Matches-match_glob_recursive (itself {c = c} {x = x} {pattern = p} {text = t} e m) =
    elim (Bool-cases (nat_eq c b'*')) [
      | inl star ↦ rw (recursive_star c p (x ∷ t) (ground (arith, star))) (
          at_some_rest_later (match_glob_recursive p) x t
            (at_some_rest_here (match_glob_recursive p) t (Matches-match_glob_recursive m)))
      | inr other ↦ ground (arith, e, other, Matches-match_glob_recursive m)
    ]

same_bytes_star : (p : List ℕ) → same_bytes p (b'*' ∷ []) ≡ true → p ≡ b'*' ∷ []
unfolding same_bytes
same_bytes_star [] h = ground (arith, h)
same_bytes_star (c ∷ []) h = ap (λ d. d ∷ []) (ground (arith, h))
same_bytes_star (c ∷ d ∷ p) h = ground (arith, h)

star_alone : (t : List ℕ) → Matches (b'*' ∷ []) t
star_alone [] = star_none refl at_end
star_alone (x ∷ t) = star_more refl (star_alone t)

match_glob_sound : (p t : List ℕ) → match_glob p t ≡ true → Matches p t
unfolding match_glob
match_glob_sound p t h = elim (Bool-cases (same_bytes p t)) [
  | inl same ↦ same_bytes-Matches p t same
  | inr differs ↦ elim (Bool-cases (same_bytes p (b'*' ∷ []))) [
    | inl star ↦ subst (λ q. Matches q t) (sym (same_bytes_star p star)) (star_alone t)
    | inr other ↦ match_glob_recursive-Matches p t (ground (arith, h, differs, other))
  ]
]

-- matchGlob, its two shortcuts included, accepts a text exactly if the pattern matches it.
pub match_glob-Matches : (p t : List ℕ) → (match_glob p t ≡ true) ↔ Matches p t
unfolding match_glob
match_glob-Matches p t = (match_glob_sound p t, λ m. ground (arith, Matches-match_glob_recursive m))
