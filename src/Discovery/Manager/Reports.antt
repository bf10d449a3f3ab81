-- ===== src/Discovery/Manager/Reports.antt =====
-- The reports of the discovery's rounds account for what it found, pkg/discovery/manager.go.
use mathlib.Core.List.{Perm}
use kubemirror.Prelude.{
  ℕ, String, Bool, false, not, ◌&&◌, ◌||◌, Option, none, some, List, [], ◌∷◌, map, ◌≡◌, refl, sym,
  ap, ◌∙◌, contains, arith, Option-cases, inl, inr,
}
use kubemirror.Prelude.Dict.{Dict}
use kubemirror.ResourceType.{ResourceType, to_text}
use kubemirror.Discovery.{GroupVersion, Answer, discover_mirrorable_resources}
use kubemirror.Discovery.Changes.{detect_changes-exact}
use kubemirror.Discovery.Manager.{
  Manager, Report, discover, run, start, new_manager, get_current_resources,
}

-- whether a type is there after one more report
abbrev pub after_report : String → Bool → Report → Bool
after_report k before report =
    (before && not (contains (map to_text report.removed) k))
    || contains (map to_text report.added) k

-- whether a type is there by the reports alone
abbrev pub by_reports : String → Bool → List Report → Bool
by_reports k before [] = before
by_reports k before (report ∷ rest) = by_reports k (after_report k before report) rest

abbrev is_current : String → Manager → Bool
is_current k m = contains (map to_text (get_current_resources m)) k

put_first :
    (k : String) (o : Option Report) (b c : Bool) (rest : List Report)
    → (elim o as (λ r. Bool) [ none ↦ b | some report ↦ after_report k b report ]) ≡ c
    → by_reports k b (elim o as (λ r. List Report) [ none ↦ rest | some report ↦ report ∷ rest ])
      ≡ by_reports k c rest
put_first k none b c rest h = ap (λ x. by_reports k x rest) h
put_first k (some report) b c rest h = ap (λ x. by_reports k x rest) h

-- what a start that succeeds returns
opened :
    (o : Option Report) (later : List Report × Manager) (reports : List Report) (m : Manager)
    → (elim o as (λ r. Option (List Report × Manager)) [
      | none ↦ none
      | some report ↦ some (report ∷ later.0, later.1)
    ])
      ≡ some (reports, m)
    → (reports ≡ (elim o as (λ r. List Report) [ none ↦ later.0 | some report ↦ report ∷ later.0 ]))
      × (m ≡ later.1)
opened none later reports m h = cc h
opened (some report) later reports m h = (cc h, cc h)

module _ (parse_group_version : String → Option GroupVersion)
    (order : Dict ResourceType → Dict ResourceType)
    (shuffles : (m : Dict ResourceType) → Perm (order m) m) (k : String) where
  discover_reports :
      (m : Manager) (answer : Answer)
      → (elim (discover parse_group_version order m answer).0 as (λ r. Bool) [
        | none ↦ is_current k m
        | some report ↦ after_report k (is_current k m) report
      ])
        ≡ is_current k (discover parse_group_version order m answer).1
  unfolding discover get_current_resources
  discover_reports m answer =
      elim (Option-cases (discover_mirrorable_resources parse_group_version answer)) [
        | inl e ↦ rw (e, discover) refl
        | inr (discovered, e) ↦
            rw (e, discover)
              (let (added, removed) =
                  detect_changes-exact order shuffles m.current_resources discovered k in
                ground (arith, added, removed))
      ]

  -- a round, with what the rounds after it report
  one_more :
      (m : Manager) (answer : Answer) (rest : List Report)
      → by_reports k
          (is_current k m)
          (elim (discover parse_group_version order m answer).0 as (λ r. List Report) [
            | none ↦ rest
            | some report ↦ report ∷ rest
          ])
        ≡ by_reports k (is_current k (discover parse_group_version order m answer).1) rest
  one_more m answer rest =
      put_first k (discover parse_group_version order m answer).0 (is_current k m)
        (is_current k (discover parse_group_version order m answer).1) rest
        (discover_reports m answer)

  run_reports :
      (m : Manager) (answers : List Answer)
      → by_reports k (is_current k m) (run parse_group_version order m answers).0
        ≡ is_current k (run parse_group_version order m answers).1
  unfolding run
  run_reports m [] = refl
  run_reports m (answer ∷ rest) =
      let next : Manager = (discover parse_group_version order m answer).1 in
      one_more m answer (run parse_group_version order next rest).0 ∙ run_reports next rest

  -- The reports of all rounds since the start, the failed rounds left out, account for the types that
  -- the manager holds: a type is there exactly if it is reported as added, and not as removed since.
  pub start-by_reports :
      (interval : ℕ) (first : Answer) (rest : List Answer) (reports : List Report) (m : Manager)
      → start parse_group_version order (new_manager interval) first rest ≡ some (reports, m)
      → contains (map to_text (get_current_resources m)) k ≡ by_reports k false reports
  unfolding start new_manager get_current_resources
  start-by_reports interval first rest reports m h =
      let w : Option Report × Manager =
        discover parse_group_version order (new_manager interval) first in
      let later : List Report × Manager = run parse_group_version order w.1 rest in
      let (all, final) = opened w.0 later reports m h in
      ap (is_current k) final
      ∙ sym (run_reports w.1 rest)
      ∙ sym (one_more (new_manager interval) first later.0)
      ∙ ap (by_reports k false) (sym all)
