-- ===== src/ResourceType/RoundTrip.antt =====
-- Parsing of what String() prints, pkg/config/resource_types.go.
use Prim.Native.String.{◌++◌}
use text.Mathlib.TextLemmas.{nil-append, cons-append}
use kubemirror.Prelude.{
  String, ◌≡◌, refl, sym, ap, subst, ◌∙◌, false, ◌==◌, some, List, [], ◌∷◌, eq_iff, Bool-cases, inl,
  inr,
}
use kubemirror.Prelude.Text.{split, join, has_code}
use kubemirror.Prelude.Splits.{split-one, split-append, split-ne-nil, join-split}
use kubemirror.ResourceType.{ResourceType, to_text, of_parts, parse_resource_type}

-- a dot in front of a text
dot-append : (s : String) → "." ++ s ≡ String.◌∷◌ "." s
dot-append s = cons-append "." "" s ∙ ap (String.◌∷◌ ".") (nil-append s)

pub split-dot :
    (s rest : String)
    → has_code b'.' s ≡ false
    → split b'.' (s ++ ("." ++ rest)) ≡ s ∷ split b'.' rest
split-dot s rest h = rw (dot-append rest) (split-append b'.' s "." rest h refl)

of_parts-group :
    (kind version : String) (p : String) (ps : List String)
    → of_parts (kind ∷ version ∷ p ∷ ps)
      ≡ some (record { group = join "." (p ∷ ps); version = version; kind = kind })
unfolding of_parts
of_parts-group kind version p [] = refl
of_parts-group kind version p (next ∷ more) = refl

-- The text of a resource type parses to that type, if its kind and version hold no dot. Its group
-- may be empty or hold any number of dots.
pub parse_resource_type-to_text :
    (r : ResourceType)
    → has_code b'.' r.kind ≡ false
    → has_code b'.' r.version ≡ false
    → parse_resource_type (to_text r) ≡ some r
unfolding parse_resource_type to_text
parse_resource_type-to_text r k v = elim (Bool-cases (r.group == "")) [
  | inl core ↦
      let empty : r.group ≡ "" = (eq_iff r.group "").0 core in
      let parts : split b'.' (r.kind ++ ("." ++ r.version)) ≡ r.kind ∷ r.version ∷ [] =
        split-dot r.kind r.version k ∙ ap (λ ps. r.kind ∷ ps) (split-one b'.' r.version v) in
      rw (core, parts)
        (ap (λ g. some (record { group = g; version = r.version; kind = r.kind })) (sym empty))
  | inr grouped ↦
      let (p, ps, group_parts) = split-ne-nil b'.' r.group in
      let parts : split b'.' (r.kind ++ ("." ++ (r.version ++ ("." ++ r.group))))
          ≡ r.kind ∷ r.version ∷ p ∷ ps =
        split-dot r.kind (r.version ++ ("." ++ r.group)) k
        ∙ ap (λ qs. r.kind ∷ qs) (split-dot r.version r.group v)
        ∙ ap (λ qs. r.kind ∷ r.version ∷ qs) group_parts in
      let joined : join "." (p ∷ ps) ≡ r.group =
        subst (λ qs. join "." qs ≡ r.group) group_parts (join-split "." r.group) in
      rw (grouped, parts)
        (of_parts-group r.kind r.version p ps
          ∙ ap (λ g. some (record { group = g; version = r.version; kind = r.kind })) joined)
]
