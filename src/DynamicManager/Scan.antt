-- ===== src/DynamicManager/Scan.antt =====
-- A whole scan: which types it finds, and what it does with them,
-- pkg/controller/dynamic_manager.go.
use mathlib.Core.List.{Perm, Permᴰ}
use mathlib.Core.Logic.{∥∥₁_elim}
use mathlib.Core.Bool.{Bool-set}
use kubemirror.Prelude.{
  ℕ, String, Bool, true, false, ◌&&◌, ◌||◌, ◌==◌, Option, none, some, List, [], ◌∷◌, ◌≡◌, refl, sym,
  ap, ◌∙◌, subst, arith, eq_iff, eq_refl, Bool-cases, Option-cases, inl, inr, contains, map, ltb,
}
use kubemirror.Prelude.Dict.{Dict, insert}
use kubemirror.ResourceType.{ResourceType, to_text}
use kubemirror.DynamicManager.{
  fully_registered, Manager, get_registration_state, register_each, find_active_resource_types,
  scan_and_register,
}
use kubemirror.DynamicManager.Registry.{IsRegistry, IsInStep, register_each-IsInStep}
use kubemirror.DynamicManager.Completion.{register_each-completes, register_each-other}

-- whether a type of this text is listed with at least one resource
unfoldable pub is_active : (ResourceType → Option ℕ) → String → List ResourceType → Bool
is_active listed key [] = false
is_active listed key (rt ∷ rest) = elim (listed rt) [
  | none ↦ is_active listed key rest
  | some count ↦ (ltb 0 count && (to_text rt == key)) || is_active listed key rest
]

-- an entry's key is the text of its type
own_key : (String × ResourceType) → Bool
own_key e = e.0 == to_text e.1

all_own : Dict ResourceType → Bool
all_own [] = true
all_own (e ∷ es) = own_key e && all_own es

is_at : String → (String × ResourceType) → Bool
is_at key e = e.0 == key

any_at : String → Dict ResourceType → Bool
any_at key [] = false
any_at key (e ∷ es) = is_at key e || any_at key es

all_own-permᴰ : {xs ys : Dict ResourceType} → Permᴰ xs ys → all_own xs ≡ all_own ys
unfolding all_own
all_own-permᴰ Permᴰ.nil = refl
all_own-permᴰ (Permᴰ.cons e d) = ground (arith, ap own_key e, all_own-permᴰ d)
all_own-permᴰ (Permᴰ.swap e f) = ground (arith, ap own_key e, ap own_key f)
all_own-permᴰ (Permᴰ.trans d e) = all_own-permᴰ d ∙ all_own-permᴰ e

any_at-permᴰ :
    {xs ys : Dict ResourceType} (key : String) → Permᴰ xs ys → any_at key xs ≡ any_at key ys
unfolding any_at
any_at-permᴰ key Permᴰ.nil = refl
any_at-permᴰ key (Permᴰ.cons e d) = ground (arith, ap (is_at key) e, any_at-permᴰ key d)
any_at-permᴰ key (Permᴰ.swap e f) = ground (arith, ap (is_at key) e, ap (is_at key) f)
any_at-permᴰ key (Permᴰ.trans d e) = any_at-permᴰ key d ∙ any_at-permᴰ key e

all_own-insert :
    (rt : ResourceType) (m : Dict ResourceType)
    → all_own m ≡ true
    → all_own (insert (to_text rt) rt m) ≡ true
unfolding all_own own_key insert
all_own-insert rt [] h = ground (arith, eq_refl (to_text rt))
all_own-insert rt ((key, other) ∷ m) h =
    ground (arith, h, eq_refl (to_text rt), all_own-insert rt m)

any_at-insert :
    (key j : String) (rt : ResourceType) (m : Dict ResourceType)
    → any_at key (insert j rt m) ≡ ((j == key) || any_at key m)
unfolding any_at is_at insert
any_at-insert key j rt [] = refl
any_at-insert key j rt ((k, other) ∷ m) =
    ground (arith, eq_iff k j, eq_iff k key, eq_iff j key, any_at-insert key j rt m)

find_active-own :
    (listed : ResourceType → Option ℕ) (rts : List ResourceType) (m : Dict ResourceType)
    → all_own m ≡ true
    → all_own (find_active_resource_types listed rts m) ≡ true
unfolding find_active_resource_types
find_active-own listed [] m h = h
find_active-own listed (rt ∷ rest) m h = elim (Option-cases (listed rt)) [
  | inl failed ↦ rw (failed, find_active_resource_types) (find_active-own listed rest m h)
  | inr (count, there) ↦ elim (Bool-cases (ltb 0 count)) [
    | inl some_there ↦
        rw (there, some_there, find_active_resource_types)
          (find_active-own listed rest (insert (to_text rt) rt m) (all_own-insert rt m h))
    | inr no_items ↦
        rw (there, no_items, find_active_resource_types) (find_active-own listed rest m h)
  ]
]

find_active-any :
    (listed : ResourceType → Option ℕ) (key : String) (rts : List ResourceType)
    (m : Dict ResourceType)
    → any_at key (find_active_resource_types listed rts m)
      ≡ (any_at key m || is_active listed key rts)
unfolding find_active_resource_types is_active
find_active-any listed key [] m = ground arith
find_active-any listed key (rt ∷ rest) m = elim (Option-cases (listed rt)) [
  | inl failed ↦
      rw (failed, find_active_resource_types, is_active) (find_active-any listed key rest m)
  | inr (count, there) ↦ elim (Bool-cases (ltb 0 count)) [
    | inl some_there ↦
        rw (there, some_there, find_active_resource_types, is_active)
          (ground (
            arith,
            find_active-any listed key rest (insert (to_text rt) rt m),
            any_at-insert key (to_text rt) rt m,
          ))
    | inr no_items ↦
        rw (there, no_items, find_active_resource_types, is_active)
          (find_active-any listed key rest m)
  ]
]

types_of : Dict ResourceType → List ResourceType
types_of es = map (λ e. e.1) es

-- entries under their own keys are those that the loop's lemmas speak of
own-entries :
    (es : Dict ResourceType) → all_own es ≡ true → es ≡ map (λ r. (to_text r, r)) (types_of es)
unfolding all_own own_key types_of
own-entries [] h = refl
own-entries ((key, rt) ∷ es) h =
    ap (λ k. (k, rt) ∷ es) ((eq_iff key (to_text rt)).0 (ground (arith, h)))
    ∙ ap (λ fs. (to_text rt, rt) ∷ fs) (own-entries es (ground (arith, h)))

contains-types_of :
    (es : Dict ResourceType) (key : String)
    → all_own es ≡ true
    → contains (map to_text (types_of es)) key ≡ any_at key es
unfolding all_own own_key any_at is_at types_of
contains-types_of [] key o = refl
contains-types_of ((k, rt) ∷ es) key o =
    ground (arith, o, eq_iff k (to_text rt), contains-types_of es key)

module _ {M : Type 0} (setup_source setup_mirror : M → ResourceType → M × Bool)
    (listed : ResourceType → Option ℕ) (order : Dict ResourceType → Dict ResourceType)
    (shuffles : (m : Dict ResourceType) → Perm (order m) m) where
  visited_own :
      (rts : List ResourceType) → all_own (order (find_active_resource_types listed rts [])) ≡ true
  unfolding all_own
  visited_own rts =
      let found = find_active_resource_types listed rts [] in
      ∥∥₁_elim (shuffles found) (Bool-set _ _) all_own-permᴰ ∙ find_active-own listed rts [] refl

  visited_any :
      (rts : List ResourceType) (key : String)
      → any_at key (order (find_active_resource_types listed rts [])) ≡ is_active listed key rts
  unfolding any_at
  visited_any rts key =
      let found = find_active_resource_types listed rts [] in
      ∥∥₁_elim (shuffles found) (Bool-set _ _) (any_at-permᴰ key)
      ∙ find_active-any listed key rts []

  -- what holds after the loop over any types under their own texts holds after a scan
  pub scan_and_register-visits :
      (P : Manager × M → Type 0) (d : Manager) (m : M)
      → ((visited : List ResourceType)
          → P (register_each setup_source setup_mirror (map (λ r. (to_text r, r)) visited) d m))
      → P (scan_and_register setup_source setup_mirror listed order d m)
  unfolding scan_and_register
  scan_and_register-visits P d m h =
      let es = order (find_active_resource_types listed d.available []) in
      subst (λ fs. P (register_each setup_source setup_mirror fs d m))
        (sym (own-entries es (visited_own d.available))) (h (types_of es))

  -- A scan whose setups all succeed leaves every type fully registered that is available and that
  -- the reader lists with at least one enabled resource, in whatever order it runs over its map.
  pub scan_and_register-completes :
      (source_ok : (m : M) (r : ResourceType) → (setup_source m r).1 ≡ true)
      (mirror_ok : (m : M) (r : ResourceType) → (setup_mirror m r).1 ≡ true) (d : Manager) (m : M)
      (key : String)
      → is_active listed key d.available ≡ true
      → get_registration_state (scan_and_register setup_source setup_mirror listed order d m).0 key
        ≡ fully_registered
  unfolding scan_and_register
  scan_and_register-completes source_ok mirror_ok d m key active =
      let es = order (find_active_resource_types listed d.available []) in
      let own = visited_own d.available in
      subst
        (λ fs.
          get_registration_state (register_each setup_source setup_mirror fs d m).0 key
          ≡ fully_registered)
        (sym (own-entries es own))
        (register_each-completes setup_source setup_mirror source_ok mirror_ok (types_of es) d m key
          (contains-types_of es key own ∙ (visited_any d.available key ∙ active)))

  -- a scan leaves the state of a type that is not active
  pub scan_and_register-other :
      (d : Manager) (m : M) (key : String)
      → is_active listed key d.available ≡ false
      → get_registration_state (scan_and_register setup_source setup_mirror listed order d m).0 key
        ≡ get_registration_state d key
  unfolding scan_and_register
  scan_and_register-other d m key inactive =
      let es = order (find_active_resource_types listed d.available []) in
      let own = visited_own d.available in
      subst
        (λ fs.
          get_registration_state (register_each setup_source setup_mirror fs d m).0 key
          ≡ get_registration_state d key)
        (sym (own-entries es own))
        (register_each-other setup_source setup_mirror (types_of es) d m key
          (contains-types_of es key own ∙ (visited_any d.available key ∙ inactive)))

  -- A scan keeps the states of registration in step with the setups that have succeeded, whatever the
  -- reader lists, in whatever order it runs over its map, and whichever setups fail.
  pub scan_and_register-IsInStep :
      (sources mirrors : M → String → ℕ)
      (registry : IsRegistry setup_source setup_mirror sources mirrors) (d : Manager) (m : M)
      → IsInStep sources mirrors d m
      → let next = scan_and_register setup_source setup_mirror listed order d m in
        IsInStep sources mirrors next.0 next.1
  unfolding scan_and_register
  scan_and_register-IsInStep sources mirrors registry d m h =
      let es = order (find_active_resource_types listed d.available []) in
      subst
        (λ fs.
          IsInStep sources mirrors (register_each setup_source setup_mirror fs d m).0
            (register_each setup_source setup_mirror fs d m).1)
        (sym (own-entries es (visited_own d.available)))
        (register_each-IsInStep setup_source setup_mirror sources mirrors registry (types_of es) d m
          h)
