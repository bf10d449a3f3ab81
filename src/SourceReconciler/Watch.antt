-- ===== src/SourceReconciler/Watch.antt =====
-- What the watch of mirrors enqueues, SetupWithManagerForResourceType and mapMirrorToSource of
-- pkg/controller/source_reconciler.go.
use Prim.Native.String.{◌++◌}
use kubemirror.ResourceType.{ResourceType}
use kubemirror.Prelude.{
  String, Bool, true, false, List, [], ◌∷◌, ◌≡◌, ◌≢◌, refl, none, some, if◌then◌else◌, not,
}
use kubemirror.Object.{Meta, Object, meta_of}
use kubemirror.Mirror.{is_mirror_resource, get_source_reference, make_mirror}
use kubemirror.Mirror.Ownership.{make_mirror-IsMirrorOf}

-- the name that the source controller of a type is registered under
unfoldable pub source_controller_name : ResourceType → String
source_controller_name gvk = gvk.kind ++ ("." ++ (gvk.version ++ ("." ++ gvk.group)))

-- an event of a watched object
pub data Event : Type 0 where
  created : Meta → Event
  updated : Meta → Event
  deleted : Meta → Event
  generic : Meta → Event

unfoldable pub mirror_delete_predicate : Event → Bool
unfolding is_mirror_resource
mirror_delete_predicate (created m) = false
mirror_delete_predicate (updated m) = false
mirror_delete_predicate (deleted m) = is_mirror_resource m
mirror_delete_predicate (generic m) = false

-- the namespace and the name of each request
unfoldable pub map_mirror_to_source : Meta → List (String × String)
unfolding is_mirror_resource get_source_reference
map_mirror_to_source m =
    if not (is_mirror_resource m)
    then []
    else elim (get_source_reference m) [ none ↦ [] | some (ns, name, uid) ↦ (ns, name) ∷ [] ]

-- When a mirror is deleted that CreateMirror made, before any transformation, of a source with a
-- namespace and a name, the event passes the predicate of the watch and enqueues one request: that
-- for the source.
pub map_mirror_to_source-make_mirror :
    (source : Object) (ns hash now : String)
    → (meta_of source).namespace ≢ ""
    → (meta_of source).name ≢ ""
    → (mirror_delete_predicate (deleted (meta_of (make_mirror source ns hash now))) ≡ true)
      × (map_mirror_to_source (meta_of (make_mirror source ns hash now))
          ≡ ((meta_of source).namespace, (meta_of source).name) ∷ [])
unfolding mirror_delete_predicate map_mirror_to_source
map_mirror_to_source-make_mirror source ns hash now namespaced named =
    let is_mirror = make_mirror-IsMirrorOf source ns hash now namespaced named in
    (is_mirror.marked, rw (is_mirror.marked, is_mirror.refers, map_mirror_to_source) refl)
