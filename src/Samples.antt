-- ===== src/Samples.antt =====
-- Concrete data for the tests: a cluster in memory, a source, and a mirror of it.
pub mod Store
use kubemirror.Prelude.{
  String, Bool, true, ◌&&◌, ◌==◌, none, some, List, [], ◌∷◌, ◌≡◌, ◌≢◌, refl, ap, ◌∙◌, if◌then◌else◌,
  arith, eq_iff, eq_refl, Bool-cases, inl, inr,
}
use kubemirror.Prelude.Dict.{read, insert}
use kubemirror.PathMatch.{path_match}
use kubemirror.Filter.{validate_pattern, resolve_target_namespaces, matches_pattern, is_allowed}
use kubemirror.Object.{Meta, Unstructured, text}
use kubemirror.Cluster.{Key, Fetch, found, missing, Namespace, Client, list_namespaces_with_labels}
use kubemirror.Cluster.Laws.{IsLocal}
use kubemirror.Cluster.Store.{same_key, same_key_refl, same_key-path}
use kubemirror.SourceReconciler.{Settings, resolve_targets}

-- what stands at each key
abbrev pub Objects : Type 0
Objects = Key → Fetch

abbrev pub without : Key → Objects → Objects
without k s j = if same_key k j then missing else s j

abbrev pub namespaces : List Namespace
namespaces =
    record { name = "prod"; labels = [] }
    ∷ record { name = "app-1"; labels = ("kubemirror.raczylo.com/allow-mirrors", "true") ∷ [] }
    ∷ record { name = "app-2"; labels = ("kubemirror.raczylo.com/allow-mirrors", "false") ∷ [] }
    ∷ []

-- a client whose reads are fresh and whose deletes take effect; it stores no new object
abbrev pub memory : Client
memory = record {
  S = Objects;
  get = λ k s. s k;
  api_get = λ k s. s k;
  list_cached = λ s. some namespaces;
  list_fresh = λ s. some namespaces;
  list_enabled = λ api_version kind s. some [];
  create = λ o s. (none, s);
  update = λ o s. (none, s);
  delete = λ k s. (none, without k s);
  time_stamp = λ s. "2025-01-01T00:00:00Z";
  nanos = λ s. 0;
}

delete_local : (k other : Key) (s : Objects) → k ≢ other → without k s other ≡ s other
delete_local k other s apart = elim (Bool-cases (same_key k other)) [
  | inl same ↦ elim (apart (same_key-path k other same)) [ ]
  | inr differs ↦ rw differs refl
]

pub memory-IsLocal : IsLocal memory
memory-IsLocal = record { delete_local = delete_local }

abbrev pub settings : Settings
settings = record {
  verify_source_freshness = true;
  max_targets_per_resource = 2;
  has_api_reader = true;
  filter = record { excluded_namespaces = ("kube-system", true) ∷ []; included_patterns = [] };
  digest = λ content. some "digest";
  transform = λ object context. some object;
  order = λ keys. keys;
}

abbrev pub source_meta : Meta
source_meta = record {
  name = "token";
  namespace = "prod";
  uid = "u1";
  resource_version = "7";
  generation = 3;
  labels = ("kubemirror.raczylo.com/enabled", "true") ∷ ("team", "core") ∷ [];
  annotations =
      ("kubemirror.raczylo.com/sync", "true")
      ∷ ("kubemirror.raczylo.com/target-namespaces", "app-*, prod")
      ∷ [];
  finalizers = "kubemirror.raczylo.com/finalizer" ∷ [];
  owner_references = "deployment" ∷ [];
  creation_timestamp = some 1;
  deletion_timestamp = none;
}

abbrev pub source : Unstructured
source = record {
  api_version = "v1";
  kind = "Secret";
  meta = source_meta;
  fields = ("data", text "x") ∷ [];
}

abbrev pub mirror_meta_in : String → Meta
mirror_meta_in ns = record source_meta {
  namespace = ns;
  uid = "m1";
  labels =
      ("kubemirror.raczylo.com/managed-by", "kubemirror")
      ∷ ("kubemirror.raczylo.com/mirror", "true")
      ∷ [];
  annotations =
      ("kubemirror.raczylo.com/source-namespace", "prod")
      ∷ ("kubemirror.raczylo.com/source-name", "token")
      ∷ ("kubemirror.raczylo.com/source-uid", "u1")
      ∷ [];
  finalizers = [];
  owner_references = [];
}

-- the mirror of the source in a namespace
abbrev pub mirror_in : String → Unstructured
mirror_in ns = record source { meta = mirror_meta_in ns }

-- an object of the source's name that is not managed
abbrev pub foreign : Unstructured
foreign = record source { meta = record (mirror_meta_in "app-2") { labels = [] } }

abbrev pub key_at : String → Key
key_at ns = record { api_version = "v1"; kind = "Secret"; namespace = ns; name = "token" }

-- the source, its mirror in app-1, and a foreign object of its name in app-2
abbrev pub cluster : Objects
cluster k =
    if same_key k (key_at "prod")
    then found source
    else if same_key k (key_at "app-1")
    then found (mirror_in "app-1")
    else if same_key k (key_at "app-2")
    then found foreign
    else missing

abbrev pub targets : List String
targets = "app-1" ∷ "app-2" ∷ []

pub cluster-targets : resolve_targets memory settings source cluster ≡ some targets
unfolding resolve_targets read validate_pattern path_match list_namespaces_with_labels
    resolve_target_namespaces matches_pattern is_allowed insert
cluster-targets = refl
