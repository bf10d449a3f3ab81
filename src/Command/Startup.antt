-- ===== src/Command/Startup.antt =====
-- What the start of the program settles, cmd/kubemirror/main.go: which namespaces can be targets, that
-- the cache keeps what the reconcilers read, and which controllers run.
use kubemirror.Prelude.{
  ℕ, suc, ◌+◌, String, Bool, true, false, not, ◌&&◌, ◌==◌, Option, none, some, List, [], ◌∷◌,
  if◌then◌else◌, ◌≡◌, refl, ap, ◌∙◌, arith, Option-cases, inl, inr,
}
use kubemirror.Prelude.Dict.{Dict, lookup, read, value_or_empty, delete, lookup-delete}
use kubemirror.Constants.{
  annotation_transform, annotation_source_namespace, annotation_source_name, annotation_source_uid,
  annotation_source_generation, annotation_source_content_hash,
}
use kubemirror.Object.{Unstructured, Object, unstructured, secret, config_map, Meta, meta_of}
use kubemirror.Hash.{
  Content, with_transform, spec_content, extract_unstructured_content, extract_content,
  get_generation, compute_content_hash, hash_differs, needs_sync,
}
use kubemirror.Mirror.{is_managed_by_us, get_source_reference}
use kubemirror.ResourceType.{ResourceType, to_text}
use kubemirror.DynamicManager.Registry.{IsRegistry}
use kubemirror.Command.{kept_annotations, transform_func, register_all}

-- a key that is neither of the two that the cache drops
abbrev pub is_kept : String → Bool
is_kept key =
    not ("deployment.kubernetes.io/revision" == key)
    && not ("kubectl.kubernetes.io/last-applied-configuration" == key)

lookup-kept_annotations :
    (key : String) (a : Dict String)
    → is_kept key ≡ true
    → lookup key (kept_annotations a) ≡ lookup key a
unfolding kept_annotations
lookup-kept_annotations key a h = ground (
  arith,
  h,
  lookup-delete "deployment.kubernetes.io/revision" key
      (delete "kubectl.kubernetes.io/last-applied-configuration" a),
  lookup-delete "kubectl.kubernetes.io/last-applied-configuration" key a,
)

read-kept_annotations :
    (key : String) (a : Dict String)
    → is_kept key ≡ true
    → read key (kept_annotations a) ≡ read key a
unfolding read
read-kept_annotations key a h = ap value_or_empty (lookup-kept_annotations key a h)

same_reference :
    (m : Meta)
    → get_source_reference (record m { annotations = kept_annotations m.annotations })
      ≡ get_source_reference m
unfolding get_source_reference
same_reference m =
    rw
      (
        read-kept_annotations annotation_source_namespace m.annotations refl,
        read-kept_annotations annotation_source_name m.annotations refl,
        read-kept_annotations annotation_source_uid m.annotations refl,
      )
      refl

with_transform-kept_annotations :
    (a : Dict String) (content : Content)
    → with_transform (kept_annotations a) content ≡ with_transform a content
unfolding with_transform
with_transform-kept_annotations a content =
    rw (lookup-kept_annotations annotation_transform a refl, with_transform) refl

same_content : (o : Object) → extract_content (transform_func o) ≡ extract_content o
unfolding extract_content transform_func extract_unstructured_content
same_content (secret s) = refl
same_content (config_map c) = refl
same_content (unstructured u) = elim (Option-cases (spec_content u.fields)) [
  | inl e ↦ rw (e, extract_unstructured_content) refl
  | inr (content, e) ↦
      rw (e, extract_unstructured_content)
        (ap some (with_transform-kept_annotations u.meta.annotations content))
]

same_hash :
    (digest : Content → Option String) (o : Object)
    → compute_content_hash digest (transform_func o) ≡ compute_content_hash digest o
unfolding compute_content_hash
same_hash digest o =
    ap
      (λ (x : Option Content). elim x as (λ x. Option String) [
        | none ↦ none
        | some content ↦ digest content
      ])
      (same_content o)

-- the comparison of a hash with the one that is stored
abbrev differs : Option String → String → Option Bool
differs hash stored = elim hash [
  | none ↦ none
  | some source_hash ↦ some (not (source_hash == stored))
]

same_difference :
    (digest : Content → Option String) (o : Object) (a : Dict String)
    → hash_differs digest (transform_func o) (kept_annotations a) ≡ hash_differs digest o a
unfolding hash_differs
same_difference digest o a =
    ap (λ h. differs h (read annotation_source_content_hash (kept_annotations a)))
      (same_hash digest o)
    ∙ ap (differs (compute_content_hash digest o))
        (read-kept_annotations annotation_source_content_hash a refl)

same_generation : (o : Object) → get_generation (transform_func o) ≡ get_generation o
unfolding get_generation transform_func
same_generation (secret s) = refl
same_generation (config_map c) = refl
same_generation (unstructured u) = refl

same_need :
    (digest : Content → Option String) (o : Object) (a : Dict String)
    → needs_sync digest (transform_func o) (kept_annotations a) ≡ needs_sync digest o a
unfolding needs_sync
same_need digest o a =
    rw
      (
        same_generation o,
        read-kept_annotations annotation_source_generation a refl,
        same_difference digest o a,
      )
      refl

-- What the cache drops of a source and of a mirror makes no difference to whether the mirror is one of
-- kubemirror's, to the source that it names, and to whether it needs a sync.
pub needs_sync-transform_func :
    (digest : Content → Option String) (source : Object) (mirror : Unstructured)
    → let cached = meta_of (transform_func (unstructured mirror)) in
      (is_managed_by_us cached ≡ is_managed_by_us mirror.meta)
      × (get_source_reference cached ≡ get_source_reference mirror.meta)
      × (needs_sync digest (transform_func source) cached.annotations
          ≡ needs_sync digest source mirror.meta.annotations)
unfolding transform_func is_managed_by_us
needs_sync-transform_func digest source mirror =
    (refl, same_reference mirror.meta, same_need digest source mirror.meta.annotations)

-- how many types of a list have a text
abbrev pub occurrences : String → List ResourceType → ℕ
occurrences key [] = 0
occurrences key (rt ∷ rest) = let n = occurrences key rest in if to_text rt == key then suc n else n

both_set :
    {M : Type 0} (a b : Bool) (later : Option M) (final : M)
    → (if not a then none else if not b then none else later) ≡ some final
    → (a ≡ true) × (b ≡ true) × (later ≡ some final)
both_set true true later final h = (refl, refl, h)
both_set true false later final h = cc h
both_set false b later final h = cc h

-- Where the start of the eager mode succeeds, it has added to the controllers that run just one source
-- controller and one mirror controller of each type for every time that the type is configured.
pub register_all-occurrences :
    {M : Type 0} (setup_source setup_mirror : M → ResourceType → M × Bool)
    (sources mirrors : M → String → ℕ)
    (registry : IsRegistry setup_source setup_mirror sources mirrors) (rts : List ResourceType)
    (m final : M) (key : String)
    → register_all setup_source setup_mirror rts m ≡ some final
    → (sources final key ≡ sources m key + occurrences key rts)
      × (mirrors final key ≡ mirrors m key + occurrences key rts)
unfolding register_all
register_all-occurrences setup_source setup_mirror sources mirrors registry [] m final key h =
    let same : m ≡ final = cc h in
    (ground (arith, ap (λ x. sources x key) same), ground (arith, ap (λ x. mirrors x key) same))
register_all-occurrences setup_source setup_mirror sources mirrors registry (rt ∷ rest) m final key
      h =
    let m1 = (setup_source m rt).0 in
    let m2 = (setup_mirror m1 rt).0 in
    let (a, b, later) = both_set (setup_source m rt).1 (setup_mirror m1 rt).1 _ final h in
    let (s, t) =
      register_all-occurrences setup_source setup_mirror sources mirrors registry rest m2 final key
        later in
    (
      ground (arith, a, b, s, registry.source_adds m rt key, registry.mirror_keeps m1 rt key),
      ground (arith, a, b, t, registry.source_keeps m rt key, registry.mirror_adds m1 rt key),
    )
