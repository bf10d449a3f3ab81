-- ===== src/Samples/Store.antt =====
-- A cluster in memory that keeps what is written, and the laws of a client for it.
use kubemirror.Prelude.{
  ℕ, Option, none, some, [], ◌≡◌, ◌≢◌, refl, sym, ap, ◌∙◌, subst, if◌then◌else◌, Bool-cases, inl,
  inr,
}
use kubemirror.Object.{Unstructured, Object, secret, config_map, unstructured, meta_of}
use kubemirror.Cluster.{Key, Fetch, found, missing, Client}
use kubemirror.Cluster.Laws.{IsLocal, IsReliable, IsClearing}
use kubemirror.Cluster.Store.{
  same_key, same_key_refl, same_key-path, key_of_object, IsTight, IsFresh, IsSteady, IsKeyed,
  HasFinalizers, kept, IsStoring, is_found, is_leaving, IsLasting,
}
use kubemirror.Samples.{namespaces, source, mirror_in, foreign, key_at}

abbrev pub Stored : Type 0
Stored = Key → Option Unstructured

-- an object is read under the key that it is stored at
abbrev pub placed : Key → Option Unstructured → Fetch
placed k none = missing
placed k (some u) = found (record u {
  api_version = k.api_version;
  kind = k.kind;
  meta = record u.meta { namespace = k.namespace; name = k.name };
})

abbrev pub as_unstructured : Object → Unstructured
as_unstructured (secret s) = record {
  api_version = "v1";
  kind = "Secret";
  meta = s.meta;
  fields = [];
}
as_unstructured (config_map c) = record {
  api_version = "v1";
  kind = "ConfigMap";
  meta = c.meta;
  fields = [];
}
as_unstructured (unstructured u) = u

abbrev pub set_at : Key → Option Unstructured → Stored → Stored
set_at k o s j = if same_key k j then o else s j

-- whether an object is being deleted is the server's to say: a write of it does not change that
abbrev pub deletion_of : Option Unstructured → Option ℕ
deletion_of none = none
deletion_of (some u) = u.meta.deletion_timestamp

abbrev pub written : Option Unstructured → Object → Unstructured
written old o = record (as_unstructured o) {
  meta = record (as_unstructured o).meta { deletion_timestamp = deletion_of old };
}

abbrev pub put : Option Unstructured → Object → Stored → Stored
put old o = set_at (key_of_object o) (some (written old o))

abbrev pub store : Client
store = record {
  S = Stored;
  get = λ k s. placed k (s k);
  api_get = λ k s. placed k (s k);
  list_cached = λ s. some namespaces;
  list_fresh = λ s. some namespaces;
  list_enabled = λ api_version kind s. some [];
  create = λ o s. (none, put none o s);
  update = λ o s. (none, put (s (key_of_object o)) o s);
  delete = λ k s. (none, set_at k none s);
  time_stamp = λ s. "2025-01-01T00:00:00Z";
  nanos = λ s. 0;
}

set_elsewhere :
    (k other : Key) (o : Option Unstructured) (s : Stored)
    → k ≢ other
    → placed other (set_at k o s other) ≡ placed other (s other)
set_elsewhere k other o s apart = elim (Bool-cases (same_key k other)) [
  | inl same ↦ absurd (apart (same_key-path k other same))
  | inr differs ↦ rw differs refl
]

set_there : (k : Key) (o : Option Unstructured) (s : Stored) → set_at k o s k ≡ o
set_there k o s = rw (same_key_refl k) refl

pub store-IsLocal : IsLocal store
store-IsLocal = record { delete_local = λ k other s apart. set_elsewhere k other none s apart }

pub store-IsTight : IsTight store
store-IsTight = record {
  create_local = λ o other s apart. set_elsewhere (key_of_object o) other _ s apart;
  update_local = λ o other s apart. set_elsewhere (key_of_object o) other _ s apart;
}

creates_nothing :
    (k other : Key) (s : Stored)
    → placed other (s other) ≡ missing
    → placed other (set_at k none s other) ≡ missing
creates_nothing k other s h = elim (Bool-cases (same_key k other)) [
  | inl same ↦ rw same refl
  | inr differs ↦ rw differs h
]

pub store-IsReliable : IsReliable store
store-IsReliable = record { creates_nothing = creates_nothing }

pub store-IsClearing : IsClearing store
store-IsClearing = record { clears = λ k s u got free ok. ap (placed k) (set_there k none s) }

pub store-IsFresh : IsFresh store
store-IsFresh k s = refl

pub store-IsSteady : IsSteady store
store-IsSteady = record {
  create_cached = λ o s. refl;
  create_fresh = λ o s. refl;
  update_cached = λ o s. refl;
  update_fresh = λ o s. refl;
}

placed-key :
    (k : Key) (o : Option Unstructured) (u : Unstructured)
    → placed k o ≡ found u
    → key_of_object (unstructured u) ≡ k
placed-key k none u h = cc h
placed-key k (some v) u h =
    let same : record v {
      api_version = k.api_version;
      kind = k.kind;
      meta = record v.meta { namespace = k.namespace; name = k.name };
    }
        ≡ u =
      cc h in
    ap (λ (x : Unstructured). key_of_object (unstructured x)) (sym same)

pub store-IsKeyed : IsKeyed store
store-IsKeyed = record {
  keyed = λ k s u h. placed-key k (s k) u h;
  api_keyed = λ k s u h. placed-key k (s k) u h;
}

has_written :
    (k : Key) (old : Option Unstructured) (o : Object)
    → HasFinalizers (meta_of o).finalizers (placed k (some (written old o)))
has_written k old (secret s) = kept _ refl
has_written k old (config_map c) = kept _ refl
has_written k old (unstructured u) = kept _ refl

stores :
    (old : Option Unstructured) (o : Object) (s : Stored)
    → HasFinalizers
        (meta_of o).finalizers
        (placed (key_of_object o) (put old o s (key_of_object o)))
stores old o s =
    subst (λ x. HasFinalizers (meta_of o).finalizers (placed (key_of_object o) x))
      (sym (set_there (key_of_object o) (some (written old o)) s))
      (has_written (key_of_object o) old o)

pub store-IsStoring : IsStoring store
store-IsStoring = record {
  stores = λ o s h. stores (s (key_of_object o)) o s;
  api_stores = λ o s h. stores (s (key_of_object o)) o s;
}

deleted_before :
    (k : Key) (old : Option Unstructured) (o : Object)
    → is_leaving (placed k (some (written old o))) ≡ is_leaving (placed k old)
deleted_before k none o = refl
deleted_before k (some u) o = refl

put_there :
    (old : Option Unstructured) (o : Object) (s : Stored)
    → placed (key_of_object o) (put old o s (key_of_object o))
      ≡ placed (key_of_object o) (some (written old o))
put_there old o s =
    ap (placed (key_of_object o)) (set_there (key_of_object o) (some (written old o)) s)

pub store-IsLasting : IsLasting store
store-IsLasting = record {
  create_stays = λ o s ok. ap is_leaving (put_there none o s);
  update_stays = λ o s ok there stays. (
    ap is_found (put_there (s (key_of_object o)) o s),
    ap is_leaving (put_there (s (key_of_object o)) o s)
        ∙ deleted_before (key_of_object o) (s (key_of_object o)) o
        ∙ stays,
  );
}

-- the source, its mirror in app-1, and a foreign object of its name in app-2
abbrev pub contents : Stored
contents k =
    if same_key k (key_at "prod")
    then some source
    else if same_key k (key_at "app-1")
    then some (mirror_in "app-1")
    else if same_key k (key_at "app-2")
    then some foreign
    else none
