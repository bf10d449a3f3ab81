-- ===== src/MirrorReconciler.antt =====
-- pkg/controller/mirror_reconciler.go: the reconciler that removes mirrors whose source is gone.
pub mod Orphans
pub mod Names
pub mod Made
pub mod Tests
use Prim.Native.String.{◌++◌}
use kubemirror.ResourceType.{ResourceType}
use kubemirror.Prelude.{
  String, Bool, true, false, not, ◌==◌, Option, none, some, if◌then◌else◌, is_some,
}
use kubemirror.Prelude.Dict.{lookup}
use kubemirror.Constants.{
  label_managed_by, controller_name, annotation_source_namespace, annotation_source_name,
  annotation_source_uid,
}
use kubemirror.Object.{Meta, Unstructured}
use kubemirror.Cluster.{Key, ApiError, Fetch, found, missing, failed, Client}

-- the error that Reconcile returns, if any
pub data Outcome : Type 0 where
  done : Outcome
  mirror_get_failed : String → Outcome
  source_get_failed : String → Outcome
  delete_failed : ApiError → Outcome

-- the source that the annotations name: all three have to be there, empty or not
unfoldable pub source_named : Meta → Option (String × String × String)
source_named m = elim (lookup annotation_source_namespace m.annotations) [
  | none ↦ none
  | some ns ↦ elim (lookup annotation_source_name m.annotations) [
    | none ↦ none
    | some name ↦ elim (lookup annotation_source_uid m.annotations) [
      | none ↦ none
      | some uid ↦ some (ns, name, uid)
    ]
  ]
]

abbrev pub at : Key → String → String → Key
at k ns name = record k { namespace = ns; name = name }

module _ (c : Client) where
  open c use {S, get}

  unfoldable pub delete_mirror : Key → S → Outcome × S
  delete_mirror k s =
      let w = c.delete k s in (elim w.0 [ none ↦ done | some e ↦ delete_failed e ], w.1)

  -- Reconcile of a mirror that names its source
  unfoldable pub check_source : Key → String → Fetch → S → Outcome × S
  unfolding delete_mirror
  check_source k uid missing s = delete_mirror k s
  check_source k uid (failed e) s = (source_get_failed e, s)
  check_source k uid (found source) s =
      if is_some source.meta.deletion_timestamp
      then (done, s)
      else if not (source.meta.uid == uid)
      then delete_mirror k s
      else (done, s)

  unfoldable pub reconcile : Key → S → Outcome × S
  unfolding source_named check_source
  reconcile k s = elim (get k s) [
    | missing ↦ (done, s)
    | failed e ↦ (mirror_get_failed e, s)
    | found mirror ↦ elim (source_named mirror.meta) [
      | none ↦ (done, s)
      | some (ns, name, uid) ↦ check_source k uid (get (at k ns name) s) s
    ]
  ]

-- the predicate of SetupWithManager: which events reach Reconcile
unfoldable pub managed_by_predicate : Meta → Bool
managed_by_predicate m = elim (lookup label_managed_by m.labels) [
  | none ↦ false
  | some managed_by ↦ managed_by == controller_name
]

-- the name that the mirror controller of a type is registered under
unfoldable pub mirror_controller_name : ResourceType → String
mirror_controller_name gvk = gvk.kind ++ ("." ++ (gvk.version ++ ("." ++ (gvk.group ++ "-mirror"))))
