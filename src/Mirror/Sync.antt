-- ===== src/Mirror/Sync.antt =====
-- A mirror that was just made or brought up to date needs no sync: the loop of pkg/controller over
-- NeedsSync of pkg/hash/content.go comes to rest.
use kubemirror.Prelude.{
  ◌≡◌, refl, String, true, false, Option, some, ltb, arith, eq_iff, Option-cases, inl, inr, sym, ap,
  ◌∙◌, ◌⊎◌,
}
use kubemirror.Prelude.Dict.{Dict, lookup, insert_all, read, read_lem, dict_laws, lookup-insert_all}
use kubemirror.Prelude.Decimal.{decimal}
use kubemirror.Constants.{
  annotation_source_generation, annotation_source_content_hash, annotation_transform,
}
use kubemirror.Object.{Meta, Object, secret, config_map, unstructured, meta_of}
use kubemirror.Hash.{Content, compute_content_hash, needs_sync}
use kubemirror.Transformer.{TransformContext}
use kubemirror.Mirror.{
  Failure, hash_failed, Result, ok, err, ◌>>=◌, or_fail, build_mirror_annotations,
  update_mirror_annotations, make_mirror, create_mirror, update_mirror, update_content,
  apply_transformations, copy_back,
}

-- The annotations record a source: its hash, and its generation where it has one.
record IsRecorded (source : Meta) (hash : String) (annotations : Dict String) : Type 0 where
  hash_there : lookup annotation_source_content_hash annotations ≡ some hash
  generation_there :
      ltb 0 source.generation ≡ true
      → lookup annotation_source_generation annotations ≡ some (decimal source.generation)

build-IsRecorded :
    (source : Meta) (hash now : String)
    → IsRecorded source hash (build_mirror_annotations source hash now)
unfolding build_mirror_annotations
build-IsRecorded source hash now = record {
  hash_there = simp dict_laws (ground arith);
  generation_there = λ h. simp dict_laws (ground arith);
}

update-IsRecorded :
    (a : Dict String) (source : Meta) (hash now : String)
    → IsRecorded source hash (update_mirror_annotations a source hash now)
unfolding update_mirror_annotations
update-IsRecorded a source hash now = record {
  hash_there = simp dict_laws (ground arith);
  generation_there = λ h. simp dict_laws (ground arith);
}

overlay-IsRecorded :
    (source : Meta) (hash : String) (a under : Dict String)
    → IsRecorded source hash a
    → IsRecorded source hash (insert_all a under)
overlay-IsRecorded source hash a under r = record {
  hash_there =
      ground (arith, r.hash_there, lookup-insert_all annotation_source_content_hash a under);
  generation_there = λ h.
      ground (arith, r.generation_there h, lookup-insert_all annotation_source_generation a under);
}

Result-cases {ℓ} :
    {A : Type ℓ} (r : Result A) → ((a : A) × (r ≡ ok a)) ⊎ ((e : Failure) × (r ≡ err e))
Result-cases (ok a) = inl (a, refl)
Result-cases (err e) = inr (e, refl)

or_self : Object → Result Object → Object
or_self o (ok a) = a
or_self o (err e) = o

ok_injective : {a b : Object} → ok a ≡ ok b → a ≡ b
unfolding or_self
ok_injective {a} h = ap (or_self a) h

module _ (digest : Content → Option String) where
  IsRecorded-synced :
      (source : Object) (hash : String) (a : Dict String)
      → compute_content_hash digest source ≡ some hash
      → IsRecorded (meta_of source) hash a
      → needs_sync digest source a ≡ some false
  unfolding needs_sync
  IsRecorded-synced source hash a h r = ground (
    arith,
    r.hash_there,
    r.generation_there,
    read_lem annotation_source_content_hash a,
    read_lem annotation_source_generation a,
    eq_iff hash hash,
    eq_iff (decimal (meta_of source).generation) (decimal (meta_of source).generation),
  )

  module _ (transform : Object → TransformContext → Option Object) where
    make_mirror-IsRecorded :
        (source : Object) (ns hash now : String)
        → IsRecorded (meta_of source) hash (meta_of (make_mirror source ns hash now)).annotations
    unfolding make_mirror
    make_mirror-IsRecorded (secret s) ns hash now = build-IsRecorded s.meta hash now
    make_mirror-IsRecorded (config_map c) ns hash now = build-IsRecorded c.meta hash now
    make_mirror-IsRecorded (unstructured u) ns hash now =
        overlay-IsRecorded u.meta hash _ _ (build-IsRecorded u.meta hash now)

    -- with no rules the mirror is left as it is
    no_rules :
        (source mirror : Object) (ns : String)
        → read annotation_transform (meta_of source).annotations ≡ ""
        → apply_transformations transform source mirror ns ≡ ok mirror
    unfolding apply_transformations
    no_rules source mirror ns h =
        ground (arith, h, eq_iff (read annotation_transform (meta_of source).annotations) "")

    create_mirror_lem :
        (source : Object) (ns now : String)
        → create_mirror transform digest source ns now ≡ (
            or_fail (compute_content_hash digest source) hash_failed >>= λ h.
            apply_transformations transform source (make_mirror source ns h now) ns)
    unfolding create_mirror
    create_mirror_lem source ns now = refl

    -- A mirror that CreateMirror made of a source with no transformation rules needs no sync with
    -- that source.
    pub needs_sync-create_mirror :
        (source mirror : Object) (ns now : String)
        → read annotation_transform (meta_of source).annotations ≡ ""
        → create_mirror transform digest source ns now ≡ ok mirror
        → needs_sync digest source (meta_of mirror).annotations ≡ some false
    needs_sync-create_mirror source mirror ns now plain made =
        elim (Option-cases (compute_content_hash digest source)) [
          | inl failed ↦ cc (made, create_mirror_lem source ns now, failed)
          | inr (hash, hashed) ↦
              let fresh = make_mirror source ns hash now in
              let same : ok mirror ≡ ok fresh =
                sym made
                ∙ create_mirror_lem source ns now
                ∙ rw hashed (no_rules source fresh ns plain) in
              let recorded = make_mirror-IsRecorded source ns hash now in
              rw (ok_injective same)
                (IsRecorded-synced source hash (meta_of fresh).annotations hashed recorded)
        ]

    update_mirror_lem :
        (mirror source : Object) (now : String)
        → update_mirror transform digest mirror source now ≡ (
            or_fail (compute_content_hash digest source) hash_failed >>= λ h.
            update_content mirror source h now >>= λ updated.
            apply_transformations transform source updated (meta_of updated).namespace
            >>= λ transformed. ok (copy_back updated transformed))
    unfolding update_mirror
    update_mirror_lem mirror source now = refl

    copy_back_self : (m : Object) → copy_back m m ≡ m
    unfolding copy_back
    copy_back_self (secret s) = refl
    copy_back_self (config_map c) = refl
    copy_back_self (unstructured u) = refl

    update_content-IsRecorded :
        (mirror source updated : Object) (hash now : String)
        → update_content mirror source hash now ≡ ok updated
        → IsRecorded (meta_of source) hash (meta_of updated).annotations
    unfolding update_content
    update_content-IsRecorded (secret m) (secret s) updated hash now h =
        rw (← ok_injective h) (update-IsRecorded m.meta.annotations s.meta hash now)
    update_content-IsRecorded (config_map m) (config_map s) updated hash now h =
        rw (← ok_injective h) (update-IsRecorded m.meta.annotations s.meta hash now)
    update_content-IsRecorded (unstructured m) (unstructured s) updated hash now h =
        rw (← ok_injective h) (update-IsRecorded m.meta.annotations s.meta hash now)
    update_content-IsRecorded mirror source updated hash now h = cc h

    -- A mirror that UpdateMirror brought up to date with a source that has no transformation rules
    -- needs no sync with that source, whatever the mirror was before.
    pub needs_sync-update_mirror :
        (mirror source updated : Object) (now : String)
        → read annotation_transform (meta_of source).annotations ≡ ""
        → update_mirror transform digest mirror source now ≡ ok updated
        → needs_sync digest source (meta_of updated).annotations ≡ some false
    needs_sync-update_mirror mirror source updated now plain made =
        elim (Option-cases (compute_content_hash digest source)) [
          | inl failed ↦ cc (made, update_mirror_lem mirror source now, failed)
          | inr (hash, hashed) ↦ elim (Result-cases (update_content mirror source hash now)) [
            | inr (e, failed) ↦
                let gone : update_mirror transform digest mirror source now ≡ err e =
                  update_mirror_lem mirror source now ∙ rw (hashed, failed) refl in
                cc (made, gone)
            | inl (m, content) ↦
                let same : ok updated ≡ ok m =
                  sym made
                  ∙ update_mirror_lem mirror source now
                  ∙ rw (hashed, content)
                      (rw (no_rules source m (meta_of m).namespace plain)
                        (ap ok (copy_back_self m))) in
                rw (ok_injective same) (
                  IsRecorded-synced source hash (meta_of m).annotations hashed
                    (update_content-IsRecorded mirror source m hash now content))
          ]
        ]
