-- ===== src/Transformer/Tree/Writes.antt =====
-- What setNestedField of pkg/transformer/transformer.go writes, and what it leaves.
use kubemirror.Prelude.{
  String, true, ◌≡◌, ◌≢◌, refl, sym, ap, ◌∙◌, inl, inr, none, some, List, [], ◌∷◌, if◌then◌else◌,
  arith, Bool-cases,
}
use kubemirror.Object.{Value, text, obj, Fields}
use kubemirror.Transformer.Path.{is_array_index}
use kubemirror.Transformer.Base64.{base64_encode}
use kubemirror.Transformer.Tree.{
  SetError, wrong, step_into, write_at, set_in, is_secret_data_field, set_nested_field,
}
use kubemirror.Transformer.Tree.Segments.{same_place, is_open, is_leaf, is_open-is_leaf, Read-cases}
use kubemirror.Transformer.Tree.Laws.{
  get_path, diverge, get_path_written, set_last_open, set_last_wrong, apart, together, child_of,
  child_path, open_or, some_is, child_some,
}

-- the value that the last segment takes
abbrev pub last_value : Value → Value → String → List String → Value
last_value keyed plain s [] = if is_array_index s then plain else keyed
last_value keyed plain s (next ∷ rest) = last_value keyed plain next rest

module _ (keyed plain : Value) where
  -- the two ways of one step of the loop
  pub set_in_open :
      (s next : String) (rest : List String) (v : Value)
      → is_open (step_into s v) ≡ true
      → set_in keyed plain s (next ∷ rest) v ≡ (
        (set_in keyed plain next rest (child_of next (step_into s v))).0,
        write_at s (set_in keyed plain next rest (child_of next (step_into s v))).1 v,
      )
  unfolding set_in is_open
  set_in_open s next rest v h = elim (Read-cases (step_into s v)) [
    | inl a ↦ rw (a, set_in) refl
    | inr (inl (c, e)) ↦ rw (e, set_in) refl
    | inr (inr (e, w)) ↦ ground (arith, h, w)
  ]

  pub set_in_wrong :
      (s next : String) (rest : List String) (v : Value) (e : SetError)
      → step_into s v ≡ wrong e
      → set_in keyed plain s (next ∷ rest) v ≡ (some e, v)
  unfolding set_in
  set_in_wrong s next rest v e h = rw (h, set_in) refl

  pub end_open :
      (s : String) (v : Value)
      → is_open (step_into s v) ≡ true
      → set_in keyed plain s [] v ≡ (none, write_at s (last_value keyed plain s []) v)
  unfolding set_in
  end_open s v h = set_last_open (last_value keyed plain s []) v s h

  pub end_wrong :
      (s : String) (v : Value) (e : SetError)
      → step_into s v ≡ wrong e
      → set_in keyed plain s [] v ≡ (some e, v)
  unfolding set_in
  end_wrong s v e h = set_last_wrong (last_value keyed plain s []) v s e h

  end_written :
      (s : String) (v : Value)
      → is_open (step_into s v) ≡ true
      → get_path (s ∷ []) (set_in keyed plain s [] v).1 ≡ some (last_value keyed plain s [])
  unfolding get_path
  end_written s v h = rw (end_open s v h) (get_path_written s [] (last_value keyed plain s []) v h)

  -- a write that returns no error is read back along its path
  pub set_in-get_path :
      (s : String) (rest : List String) (v : Value)
      → (set_in keyed plain s rest v).0 ≡ none
      → get_path (s ∷ rest) (set_in keyed plain s rest v).1 ≡ some (last_value keyed plain s rest)
  set_in-get_path s [] v h = elim (open_or s v) [
    | inl o ↦ end_written s v o
    | inr (e, w) ↦ cc (sym (ap (λ w. w.0) (end_wrong s v e w)) ∙ h)
  ]
  set_in-get_path s (next ∷ rest) v h = elim (open_or s v) [
    | inl o ↦
        let child : Value = child_of next (step_into s v) in
        rw (set_in_open s next rest v o) (
          get_path_written s (next ∷ rest) (set_in keyed plain next rest child).1 v o
          ∙ set_in-get_path next rest child (sym (ap (λ w. w.0) (set_in_open s next rest v o)) ∙ h))
    | inr (e, w) ↦ cc (sym (ap (λ w. w.0) (set_in_wrong s next rest v e w)) ∙ h)
  ]

  -- what diverges from a path is read as before
  pub set_in-diverge :
      (s : String) (rest : List String) (t : String) (q : List String) (v : Value)
      → diverge (s ∷ rest) (t ∷ q) ≡ true
      → get_path (t ∷ q) (set_in keyed plain s rest v).1 ≡ get_path (t ∷ q) v
  unfolding diverge
  set_in-diverge s [] t q v d = elim (open_or s v) [
    | inl o ↦
        rw (end_open s v o) (apart s t q (last_value keyed plain s []) v o (ground (arith, d)))
    | inr (e, w) ↦ rw (end_wrong s v e w) refl
  ]
  set_in-diverge s (next ∷ rest) t [] v d = elim (open_or s v) [
    | inl o ↦ rw (set_in_open s next rest v o) (
        apart s t [] (set_in keyed plain next rest (child_of next (step_into s v))).1 v o
          (ground (arith, d)))
    | inr (e, w) ↦ rw (set_in_wrong s next rest v e w) refl
  ]
  set_in-diverge s (next ∷ rest) t (u ∷ q) v d = elim (open_or s v) [
    | inl o ↦
        let child : Value = child_of next (step_into s v) in
        let w : Value = (set_in keyed plain next rest child).1 in
        rw (set_in_open s next rest v o) (elim (Bool-cases (same_place s t)) [
          | inl m ↦
              together s t (u ∷ q) w v o m
              ∙ set_in-diverge next rest u q child (ground (arith, d, m))
              ∙ child_path s t next u q v o m
          | inr n ↦ apart s t (u ∷ q) w v o n
        ])
    | inr (e, w) ↦ rw (set_in_wrong s next rest v e w) refl
  ]

  -- an error loses no leaf
  pub set_in-is_leaf :
      (s : String) (rest q : List String) (v x : Value)
      → (set_in keyed plain s rest v).0 ≢ none
      → is_leaf x ≡ true
      → get_path q v ≡ some x
      → get_path q (set_in keyed plain s rest v).1 ≡ some x
  set_in-is_leaf s [] q v x n l h = elim (open_or s v) [
    | inl o ↦ absurd (n (ap (λ w. w.0) (end_open s v o)))
    | inr (e, w) ↦ rw (end_wrong s v e w) h
  ]
  set_in-is_leaf s (next ∷ rest) [] v x n l h = elim (open_or s v) [
    | inl o ↦
        let lv : is_leaf v ≡ true = ap is_leaf (some_is v x h) ∙ l in
        cc (sym o ∙ is_open-is_leaf s v lv)
    | inr (e, w) ↦ rw (set_in_wrong s next rest v e w) h
  ]
  set_in-is_leaf s (next ∷ rest) (t ∷ q) v x n l h = elim (open_or s v) [
    | inl o ↦
        let child : Value = child_of next (step_into s v) in
        let w : Value = (set_in keyed plain next rest child).1 in
        rw (set_in_open s next rest v o) (elim (Bool-cases (same_place s t)) [
          | inl m ↦
              together s t q w v o m
              ∙ set_in-is_leaf next rest q child x
                  (λ e. n (ap (λ z. z.0) (set_in_open s next rest v o) ∙ e)) l
                  (child_some s t next q v x o m h)
          | inr d ↦ apart s t q w v o d ∙ h
        ])
    | inr (e, w) ↦ rw (set_in_wrong s next rest v e w) h
  ]

-- what the final segment takes: the base64 text in a Secret's data, the text elsewhere
unfoldable pub written_text : Fields → List String → List String → String → String
unfolding is_secret_data_field base64_encode
written_text root path [] value = value
written_text root path (s ∷ []) value =
    if is_array_index s
    then value
    else if is_secret_data_field root path
    then base64_encode value
    else value
written_text root path (s ∷ next ∷ rest) value = written_text root path (next ∷ rest) value

last_text :
    (root : Fields) (path : List String) (value : String) (s : String) (rest : List String)
    → last_value
        (text (if is_secret_data_field root path then base64_encode value else value))
        (text value)
        s
        rest
      ≡ text (written_text root path (s ∷ rest) value)
unfolding written_text
last_text root path value s [] = ground arith
last_text root path value s (next ∷ rest) = last_text root path value next rest

-- A write that returns no error is read back along its path: the text, and in the data of a Secret,
-- but not into an array there, its base64 encoding.
pub set_nested_field-get_path :
    (root : Fields) (path : List String) (value : String)
    → (set_nested_field root path value).0 ≡ none
    → get_path path (set_nested_field root path value).1
      ≡ some (text (written_text root path path value))
unfolding set_nested_field
set_nested_field-get_path root [] value h = cc h
set_nested_field-get_path root (s ∷ rest) value h =
    set_in-get_path
      (text (if is_secret_data_field root (s ∷ rest) then base64_encode value else value))
      (text value) s rest (obj root) h
    ∙ ap some (last_text root (s ∷ rest) value s rest)

-- A write, whether it fails or not, changes nothing at a path that goes to another place of some map
-- or array on the way.
pub set_nested_field-diverge :
    (root : Fields) (path q : List String) (value : String)
    → diverge path q ≡ true
    → get_path q (set_nested_field root path value).1 ≡ get_path q (obj root)
unfolding set_nested_field diverge
set_nested_field-diverge root [] q value d = refl
set_nested_field-diverge root (s ∷ rest) [] value d = cc d
set_nested_field-diverge root (s ∷ rest) (t ∷ q) value d =
    set_in-diverge
      (text (if is_secret_data_field root (s ∷ rest) then base64_encode value else value))
      (text value) s rest t q (obj root) d

-- A write that returns an error, which may have made containers on its way, loses no text, number,
-- Boolean or null: each is read as before.
pub set_nested_field-is_leaf :
    (root : Fields) (path q : List String) (value : String) (x : Value)
    → (set_nested_field root path value).0 ≢ none
    → is_leaf x ≡ true
    → get_path q (obj root) ≡ some x
    → get_path q (set_nested_field root path value).1 ≡ some x
unfolding set_nested_field
set_nested_field-is_leaf root [] q value x n l h = h
set_nested_field-is_leaf root (s ∷ rest) q value x n l h =
    set_in-is_leaf
      (text (if is_secret_data_field root (s ∷ rest) then base64_encode value else value))
      (text value) s rest q (obj root) x n l h
