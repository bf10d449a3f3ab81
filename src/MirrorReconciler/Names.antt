-- ===== src/MirrorReconciler/Names.antt =====
-- The names under which the controllers of pkg/controller/source_reconciler.go and
-- pkg/controller/mirror_reconciler.go are registered.
use Prim.Native.String.{◌++◌}
use kubemirror.Prelude.{String, ◌≡◌, sym, ap, ◌∙◌, false, List, ◌∷◌}
use kubemirror.Prelude.Text.{split, join, has_code}
use kubemirror.Prelude.Splits.{join-split}
use kubemirror.ResourceType.{ResourceType}
use kubemirror.ResourceType.RoundTrip.{split-dot}
use kubemirror.SourceReconciler.Watch.{source_controller_name}
use kubemirror.MirrorReconciler.{mirror_controller_name}

first_two :
    (k v k' v' : String) (g g' : List String)
    → k ∷ v ∷ g ≡ k' ∷ v' ∷ g'
    → (k ≡ k') × (v ≡ v') × (g ≡ g')
first_two k v k' v' g g' e = (cc e, cc e, cc e)

parts_of_name :
    (r : ResourceType) (group : String)
    → has_code b'.' r.kind ≡ false
    → has_code b'.' r.version ≡ false
    → split b'.' (r.kind ++ ("." ++ (r.version ++ ("." ++ group))))
      ≡ r.kind ∷ r.version ∷ split b'.' group
parts_of_name r group k v =
    split-dot r.kind (r.version ++ ("." ++ group)) k
    ∙ ap (λ ps. r.kind ∷ ps) (split-dot r.version group v)

same_name :
    (r s : ResourceType) (g h : String)
    → has_code b'.' r.kind ≡ false
    → has_code b'.' r.version ≡ false
    → has_code b'.' s.kind ≡ false
    → has_code b'.' s.version ≡ false
    → r.kind ++ ("." ++ (r.version ++ ("." ++ g))) ≡ s.kind ++ ("." ++ (s.version ++ ("." ++ h)))
    → (r.kind ≡ s.kind) × (r.version ≡ s.version) × (g ≡ h)
same_name r s g h rk rv sk sv e =
    let (kinds, versions, groups) =
      first_two r.kind r.version s.kind s.version (split b'.' g) (split b'.' h)
        (sym (parts_of_name r g rk rv) ∙ (ap (split b'.') e ∙ parts_of_name s h sk sv)) in
    (kinds, versions, sym (join-split "." g) ∙ (ap (join ".") groups ∙ join-split "." h))

rebuild :
    (r s : ResourceType) (g : String)
    → (r.kind ≡ s.kind) × (r.version ≡ s.version) × (r.group ≡ g)
    → r ≡ record s { group = g }
rebuild r s g (k, v, e) =
    ap (λ x. record r { kind = x }) k
    ∙ ap (λ x. record r { kind = s.kind; version = x }) v
    ∙ ap (λ x. record s { group = x }) e

-- Two types whose kinds and versions hold no dot have the same name for their source controllers only
-- if they are one type.
pub source_controller_name-injective :
    (r s : ResourceType)
    → has_code b'.' r.kind ≡ false
    → has_code b'.' r.version ≡ false
    → has_code b'.' s.kind ≡ false
    → has_code b'.' s.version ≡ false
    → source_controller_name r ≡ source_controller_name s
    → r ≡ s
unfolding source_controller_name
source_controller_name-injective r s rk rv sk sv e =
    rebuild r s s.group (same_name r s r.group s.group rk rv sk sv e)

-- A source controller has the name of a mirror controller only if its type has the group of the other's
-- with "-mirror" behind it, and kinds and versions hold no dot.
pub source_controller_name-mirror_controller_name :
    (r s : ResourceType)
    → has_code b'.' r.kind ≡ false
    → has_code b'.' r.version ≡ false
    → has_code b'.' s.kind ≡ false
    → has_code b'.' s.version ≡ false
    → source_controller_name r ≡ mirror_controller_name s
    → r ≡ record s { group = s.group ++ "-mirror" }
unfolding source_controller_name mirror_controller_name
source_controller_name-mirror_controller_name r s rk rv sk sv e =
    rebuild r s (s.group ++ "-mirror") (same_name r s r.group (s.group ++ "-mirror") rk rv sk sv e)
