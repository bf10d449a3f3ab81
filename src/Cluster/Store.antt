-- ===== src/Cluster/Store.antt =====
-- What a client does with a write: which objects it touches, and what is read of an object afterwards.
use kubemirror.Prelude.{
  Bool, true, false, ◌&&◌, ◌==◌, refl, ap, ◌∙◌, eq_refl, eq_iff, arith, String, ◌≡◌, ◌≢◌, none,
  List, is_some,
}
use kubemirror.Object.{Unstructured, Object, secret, config_map, unstructured, meta_of}
use kubemirror.Cluster.{Key, Fetch, found, missing, failed, Client}

abbrev pub same_key : Key → Key → Bool
same_key j k =
    j.api_version == k.api_version
    && j.kind == k.kind
    && j.namespace == k.namespace
    && j.name == k.name

pub same_key_refl : (k : Key) → same_key k k ≡ true
same_key_refl k =
    rw (eq_refl k.api_version, eq_refl k.kind, eq_refl k.namespace, eq_refl k.name) refl

pub same_key-path : (j k : Key) → same_key j k ≡ true → j ≡ k
same_key-path j k h =
    let a : j.api_version ≡ k.api_version =
      (eq_iff j.api_version k.api_version).0 (ground (arith, h)) in
    let b : j.kind ≡ k.kind = (eq_iff j.kind k.kind).0 (ground (arith, h)) in
    let c : j.namespace ≡ k.namespace = (eq_iff j.namespace k.namespace).0 (ground (arith, h)) in
    let d : j.name ≡ k.name = (eq_iff j.name k.name).0 (ground (arith, h)) in
    ap (λ x. record j { api_version = x }) a
    ∙ ap (λ x. record j { api_version = k.api_version; kind = x }) b
    ∙ ap (λ x. record j { api_version = k.api_version; kind = k.kind; namespace = x }) c
    ∙ ap (λ x. record k { name = x }) d

-- the key that an object is written under
abbrev pub key_of_object : Object → Key
key_of_object (secret s) = record {
  api_version = "v1";
  kind = "Secret";
  namespace = s.meta.namespace;
  name = s.meta.name;
}
key_of_object (config_map m) = record {
  api_version = "v1";
  kind = "ConfigMap";
  namespace = m.meta.namespace;
  name = m.meta.name;
}
key_of_object (unstructured u) = record {
  api_version = u.api_version;
  kind = u.kind;
  namespace = u.meta.namespace;
  name = u.meta.name;
}

-- A create or an update of one object, whether it succeeds or not, changes no read of another.
pub record IsTight (c : Client) : Type 0 where
  pub create_local :
      (o : Object) (other : Key) (s : c.S)
      → key_of_object o ≢ other
      → c.get other (c.create o s).1 ≡ c.get other s
  pub update_local :
      (o : Object) (other : Key) (s : c.S)
      → key_of_object o ≢ other
      → c.get other (c.update o s).1 ≡ c.get other s

-- The cache is up to date: it reads what the API server reads.
abbrev pub IsFresh : Client → Type 0
IsFresh c = (k : Key) (s : c.S) → c.api_get k s ≡ c.get k s

-- No write of an object adds or removes a namespace.
pub record IsSteady (c : Client) : Type 0 where
  pub create_cached : (o : Object) (s : c.S) → c.list_cached (c.create o s).1 ≡ c.list_cached s
  pub create_fresh : (o : Object) (s : c.S) → c.list_fresh (c.create o s).1 ≡ c.list_fresh s
  pub update_cached : (o : Object) (s : c.S) → c.list_cached (c.update o s).1 ≡ c.list_cached s
  pub update_fresh : (o : Object) (s : c.S) → c.list_fresh (c.update o s).1 ≡ c.list_fresh s

-- what is read has these finalizers, if there is anything
pub data HasFinalizers (finalizers : List String) : Fetch → Type 0 where
  kept : (u : Unstructured) → u.meta.finalizers ≡ finalizers → HasFinalizers finalizers (found u)
  gone : HasFinalizers finalizers missing
  unread : (e : String) → HasFinalizers finalizers (failed e)

-- An object is read under its own key.
pub record IsKeyed (c : Client) : Type 0 where
  pub keyed :
      (k : Key) (s : c.S) (u : Unstructured)
      → c.get k s ≡ found u
      → key_of_object (unstructured u) ≡ k
  pub api_keyed :
      (k : Key) (s : c.S) (u : Unstructured)
      → c.api_get k s ≡ found u
      → key_of_object (unstructured u) ≡ k

-- An update that succeeds leaves an object with the finalizers that were written; the server may remove
-- one that is deleted when it has no finalizer left.
pub record IsStoring (c : Client) : Type 0 where
  pub stores :
      (o : Object) (s : c.S)
      → (c.update o s).0 ≡ none
      → HasFinalizers (meta_of o).finalizers (c.get (key_of_object o) (c.update o s).1)
  pub api_stores :
      (o : Object) (s : c.S)
      → (c.update o s).0 ≡ none
      → HasFinalizers (meta_of o).finalizers (c.api_get (key_of_object o) (c.update o s).1)

abbrev pub is_found : Fetch → Bool
is_found (found u) = true
is_found missing = false
is_found (failed e) = false

-- what is read is an object on its way out, with a deletion timestamp
abbrev pub is_leaving : Fetch → Bool
is_leaving (found u) = is_some u.meta.deletion_timestamp
is_leaving missing = false
is_leaving (failed e) = false

-- An object that is not being deleted stays: a create makes one, if it is read back, and an update that
-- succeeds leaves one.
pub record IsLasting (c : Client) : Type 0 where
  pub create_stays :
      (o : Object) (s : c.S)
      → (c.create o s).0 ≡ none
      → is_leaving (c.get (key_of_object o) (c.create o s).1) ≡ false
  pub update_stays :
      (o : Object) (s : c.S)
      → (c.update o s).0 ≡ none
      → is_found (c.get (key_of_object o) s) ≡ true
      → is_leaving (c.get (key_of_object o) s) ≡ false
      → (is_found (c.get (key_of_object o) (c.update o s).1) ≡ true)
        × (is_leaving (c.get (key_of_object o) (c.update o s).1) ≡ false)
