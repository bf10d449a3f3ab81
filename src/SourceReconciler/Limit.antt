-- ===== src/SourceReconciler/Limit.antt =====
-- The bound on the targets, pkg/controller/source_reconciler.go, against the order in which the runtime
-- walks a map.
use mathlib.Core.List.{Perm}
use mathlib.Core.List.Permᴰ
use kubemirror.Prelude.{
  ℕ, zero, suc, ◌≤◌, ◌<◌, String, ◌≡◌, refl, sym, ap, ◌∙◌, true, false, List, [], ◌∷◌, arith,
  length, take, snoc, contains, contains-take, length-append, IsDistinct, Bool-cases, inl, inr,
  eq_refl,
}
use kubemirror.Filter.{NamespaceFilter, resolve_target_namespaces}
use kubemirror.Filter.Targets.{resolve_target_namespaces-exact}
use kubemirror.SourceReconciler.{limit_targets}

-- a walk that starts at the second key and ends at the first
abbrev pub rotate : List String → List String
rotate [] = []
rotate (x ∷ xs) = snoc xs x

pub rotate-Perm : (xs : List String) → Perm (rotate xs) xs
rotate-Perm [] = ∣ Permᴰ.refl [] ∣₁
rotate-Perm (x ∷ xs) = ∣ Permᴰ.append_comm xs (x ∷ []) ∣₁

take-snoc : (n : ℕ) (xs : List String) (x : String) → n ≤ length xs → take n (snoc xs x) ≡ take n xs
take-snoc zero xs x h = refl
take-snoc (suc n) [] x h = ground (arith, h)
take-snoc (suc n) (y ∷ xs) x h = ap (λ l. y ∷ l) (take-snoc n xs x (omega (arith, h)))

contains-false :
    (n : ℕ) (xs : List String) (x : String) → contains xs x ≡ false → contains (take n xs) x ≡ false
contains-false n xs x h = elim (Bool-cases (contains (take n xs) x)) [
  | inl there ↦ cc (sym h ∙ contains-take n xs x there)
  | inr gone ↦ gone
]

limit_over :
    (max : ℕ) (xs : List String) → 0 < max → max < length xs → limit_targets max xs ≡ take max xs
unfolding limit_targets
limit_over max xs h k = ground (arith, h, k)

first_kept :
    (max : ℕ) (x : String) (xs : List String) → 0 < max → contains (take max (x ∷ xs)) x ≡ true
first_kept zero x xs h = ground (arith, h)
first_kept (suc n) x xs h = ground (arith, eq_refl x)

cut_differs :
    (max : ℕ) (xs : List String)
    → 0 < max
    → max < length xs
    → IsDistinct xs
    → (ns : String) × (contains (limit_targets max xs) ns ≡ true)
      × (contains (limit_targets max (rotate xs)) ns ≡ false)
cut_differs max [] h k d = ground (arith, h, k)
cut_differs max (x ∷ xs) h k d = (
  x,
  ap (λ l. contains l x) (limit_over max (x ∷ xs) h k) ∙ first_kept max x xs h,
  ap (λ l. contains l x)
        (limit_over max (snoc xs x) h (omega (arith, k, length-append xs (x ∷ [])))
          ∙ take-snoc max xs x (omega (arith, k)))
      ∙ contains-false max xs x d.0,
)

module _ (all_namespaces allow_mirrors opt_out : List String) (source : String)
    (nf : NamespaceFilter) where
  rotated :
      (patterns : List String)
      → resolve_target_namespaces all_namespaces allow_mirrors opt_out source nf rotate patterns
        ≡ rotate (
            resolve_target_namespaces all_namespaces allow_mirrors opt_out source nf
              (λ xs. xs)
              patterns)
  unfolding resolve_target_namespaces
  rotated [] = refl
  rotated (pattern ∷ patterns) = refl

  -- Where more namespaces are resolved than the bound allows, the targets that are left depend on the
  -- order in which the runtime walks its map: some namespace is kept in one order, and dropped in another
  -- that is a permutation, too.
  pub limit_targets-rotate :
      (patterns : List String) (max : ℕ)
      → 0 < max
      → max
        < length (
            resolve_target_namespaces all_namespaces allow_mirrors opt_out source nf
              (λ xs. xs)
              patterns)
      → ((xs : List String) → Perm (rotate xs) xs)
        × ((ns : String) × (contains
                (limit_targets max (
                  resolve_target_namespaces all_namespaces allow_mirrors opt_out source nf
                    (λ xs. xs)
                    patterns))
                ns
              ≡ true)
            × (contains
                  (limit_targets max (
                    resolve_target_namespaces all_namespaces allow_mirrors opt_out source nf rotate
                      patterns))
                  ns
                ≡ false))
  limit_targets-rotate patterns max h k =
      let targets : List String =
        resolve_target_namespaces all_namespaces allow_mirrors opt_out source nf (λ xs. xs)
          patterns in
      let exact =
        resolve_target_namespaces-exact all_namespaces allow_mirrors opt_out source nf (λ xs. xs)
          (λ xs. ∣ Permᴰ.refl xs ∣₁) patterns source in
      let (ns, kept, dropped) = cut_differs max targets h k exact.1 in
      (
        rotate-Perm,
        (ns, kept, ap (λ l. contains (limit_targets max l) ns) (rotated patterns) ∙ dropped),
      )
