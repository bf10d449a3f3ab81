-- ===== src/Filter/Targets.antt =====
-- Which namespaces `ResolveTargetNamespaces` of pkg/filter/namespace.go returns.
use mathlib.Core.List.{Perm}
use mathlib.Core.List.Perm
use kubemirror.Prelude.{
  String, ◌≡◌, refl, ◌∙◌, Bool, true, false, not, ◌&&◌, ◌||◌, List, [], ◌∷◌, ◌==◌, if◌then◌else◌,
  eq_iff, arith, contains, IsDistinct, is_some, Bool-cases, inl, inr,
}
use kubemirror.Prelude.Perms.{contains-perm, IsDistinct-perm}
use kubemirror.Prelude.Dict.{Dict, lookup, insert, lookup-insert}
use kubemirror.Prelude.Text.{has_code}
use kubemirror.Constants.{target_namespaces_all, target_namespaces_all_labeled}
use kubemirror.Filter.{
  NamespaceFilter, new_namespace_filter, is_allowed, matches_some, member, mark, mark_where, keys,
  matches_pattern, add_targets, target_map, resolve_target_namespaces,
}

abbrev has : String → Dict Bool → Bool
has name m = is_some (lookup name m)

has-insert : (name k : String) (m : Dict Bool) → has k (insert name true m) ≡ (name == k || has k m)
has-insert name k m = ground (arith, lookup-insert name k true m)

member-mark :
    (names : List String) (k : String) (m : Dict Bool)
    → member k (mark names m) ≡ (contains names k || member k m)
unfolding mark
member-mark [] k m = refl
member-mark (name ∷ names) k m =
    ground (arith, member-mark names k (insert name true m), lookup-insert name k true m)

member-nil : (k : String) → member k [] ≡ false
unfolding lookup
member-nil k = refl

has-mark_where :
    (test : String → Bool) (names : List String) (k : String) (m : Dict Bool)
    → has k (mark_where test names m) ≡ ((contains names k && test k) || has k m)
unfolding mark_where
has-mark_where test [] k m = refl
has-mark_where test (name ∷ names) k m = ground (
  arith,
  has-mark_where test names k (insert name true m),
  has-mark_where test names k m,
  has-insert name k m,
  eq_iff name k,
)

contains-keys : (m : Dict Bool) (k : String) → contains (keys m) k ≡ has k m
unfolding keys lookup
contains-keys [] k = refl
contains-keys ((name, b) ∷ m) k = ground (arith, contains-keys m k)

keys-insert-IsDistinct :
    (name : String) (m : Dict Bool) → IsDistinct (keys m) → IsDistinct (keys (insert name true m))
unfolding keys insert
keys-insert-IsDistinct name [] h = (refl, tt)
keys-insert-IsDistinct name ((j, b) ∷ m) h = ground (
  arith,
  eq_iff j name,
  eq_iff name j,
  keys-insert-IsDistinct name m,
  contains-keys (insert name true m) j,
  contains-keys m j,
  has-insert name j m,
)

mark_where-IsDistinct :
    (test : String → Bool) (names : List String) (m : Dict Bool)
    → IsDistinct (keys m)
    → IsDistinct (keys (mark_where test names m))
unfolding mark_where
mark_where-IsDistinct test [] m h = h
mark_where-IsDistinct test (name ∷ names) m h = ground (
  arith,
  mark_where-IsDistinct test names (insert name true m),
  mark_where-IsDistinct test names m,
  keys-insert-IsDistinct name m,
)

module _ (all_namespaces allow_mirrors opt_out : List String) (source : String)
    (nf : NamespaceFilter) where
  -- What one pattern of the annotation stands for, with no regard to the source and the filter:
  -- "all" for every namespace that has not opted out, "all-labeled" for those that opted in, a text
  -- with * or ? for every namespace that it matches, any other text for the namespace of that name.
  abbrev pub stands_for : String → String → Bool
  stands_for pattern ns =
      if pattern == target_namespaces_all
      then contains all_namespaces ns && not (contains opt_out ns)
      else if pattern == target_namespaces_all_labeled
      then contains allow_mirrors ns
      else if has_code b'*' pattern || has_code b'?' pattern
      then contains all_namespaces ns && matches_pattern ns pattern
      else pattern == ns

  abbrev pub some_stands_for : List String → String → Bool
  some_stands_for [] ns = false
  some_stands_for (pattern ∷ patterns) ns = stands_for pattern ns || some_stands_for patterns ns

  abbrev may_receive : String → Bool
  may_receive ns = not (ns == source) && is_allowed nf ns

  has-add_targets :
      (pattern ns : String) (m : Dict Bool)
      → has ns (add_targets all_namespaces allow_mirrors opt_out source nf pattern m)
        ≡ ((may_receive ns && stands_for pattern ns) || has ns m)
  unfolding add_targets
  has-add_targets pattern ns m = elim (Bool-cases (pattern == target_namespaces_all)) [
    | inl all ↦ rw all (simp (has-mark_where, member-mark, member-nil) (ground arith))
    | inr not_all ↦ rw not_all (elim (Bool-cases (pattern == target_namespaces_all_labeled)) [
      | inl labeled ↦ rw labeled (simp has-mark_where (ground arith))
      | inr not_labeled ↦
          rw not_labeled (elim (Bool-cases (has_code b'*' pattern || has_code b'?' pattern)) [
            | inl glob ↦ rw glob (simp has-mark_where (ground arith))
            | inr name ↦ rw name (ground (arith, has-insert pattern ns m, eq_iff pattern ns))
          ])
    ])
  ]

  has-target_map :
      (patterns : List String) (ns : String) (m : Dict Bool)
      → has ns (target_map all_namespaces allow_mirrors opt_out source nf patterns m)
        ≡ ((may_receive ns && some_stands_for patterns ns) || has ns m)
  unfolding target_map
  has-target_map [] ns m = ground arith
  has-target_map (pattern ∷ patterns) ns m = ground (
    arith,
    has-target_map patterns ns
        (add_targets all_namespaces allow_mirrors opt_out source nf pattern m),
    has-add_targets pattern ns m,
  )

  add_targets-IsDistinct :
      (pattern : String) (m : Dict Bool)
      → IsDistinct (keys m)
      → IsDistinct (keys (add_targets all_namespaces allow_mirrors opt_out source nf pattern m))
  unfolding add_targets
  add_targets-IsDistinct pattern m h = ground (
    arith,
    keys-insert-IsDistinct pattern m,
    mark_where-IsDistinct
        (λ k. not (k == source) && is_allowed nf k && not (member k (mark opt_out [])))
        all_namespaces m,
    mark_where-IsDistinct (λ k. not (k == source) && is_allowed nf k) allow_mirrors m,
    mark_where-IsDistinct (λ k. matches_pattern k pattern && not (k == source) && is_allowed nf k)
        all_namespaces m,
  )

  target_map-IsDistinct :
      (patterns : List String) (m : Dict Bool)
      → IsDistinct (keys m)
      → IsDistinct (keys (target_map all_namespaces allow_mirrors opt_out source nf patterns m))
  unfolding target_map
  target_map-IsDistinct [] m h = h
  target_map-IsDistinct (pattern ∷ patterns) m h =
      target_map-IsDistinct patterns
        (add_targets all_namespaces allow_mirrors opt_out source nf pattern m)
        (add_targets-IsDistinct pattern m h)

  pub resolve_target_namespaces-exact :
      (order : List String → List String)
      → ((xs : List String) → Perm (order xs) xs)
      → (patterns : List String) (ns : String)
      → (contains
            (resolve_target_namespaces all_namespaces allow_mirrors opt_out source nf order
              patterns)
            ns
          ≡ (not (ns == source) && is_allowed nf ns && some_stands_for patterns ns))
        × IsDistinct (
            resolve_target_namespaces all_namespaces allow_mirrors opt_out source nf order patterns)
  unfolding resolve_target_namespaces lookup
  resolve_target_namespaces-exact order shuffles [] ns = (ground arith, tt)
  resolve_target_namespaces-exact order shuffles (pattern ∷ patterns) ns =
      let m = target_map all_namespaces allow_mirrors opt_out source nf (pattern ∷ patterns) [] in
      let found = has-target_map (pattern ∷ patterns) ns [] in
      (
        contains-perm ns (shuffles (keys m)) ∙ contains-keys m ns ∙ ground (arith, found),
        IsDistinct-perm (Perm.symm (shuffles (keys m)))
            (target_map-IsDistinct (pattern ∷ patterns) [] tt),
      )

-- what a list of include patterns admits: everything where there are none
abbrev pub included_by : List String → String → Bool
included_by [] ns = true
included_by (pattern ∷ patterns) ns = matches_some ns (pattern ∷ patterns)

-- A filter built from lists allows a name exactly if it is not one of the excluded ones and there
-- are no include patterns or one of them matches it.
pub is_allowed-new_namespace_filter :
    (excluded included : List String) (ns : String)
    → is_allowed (new_namespace_filter excluded included) ns
      ≡ (not (contains excluded ns) && included_by included ns)
unfolding is_allowed new_namespace_filter lookup
is_allowed-new_namespace_filter excluded [] ns = ground (arith, member-mark excluded ns [])
is_allowed-new_namespace_filter excluded (pattern ∷ patterns) ns =
    ground (arith, member-mark excluded ns [])
