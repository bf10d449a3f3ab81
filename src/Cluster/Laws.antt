-- ===== src/Cluster/Laws.antt =====
-- What the controllers rely on in a client, and the lister's three queries against its one.
use kubemirror.Prelude.{
  String, ◌≡◌, ◌≢◌, refl, Bool, true, false, ◌==◌, Option, none, some, List, [], ◌∷◌, if◌then◌else◌,
  arith, Option-cases, inl, inr,
}
use kubemirror.Prelude.Dict.{Dict, lookup, read, value_or_empty}
use kubemirror.Constants.{label_allow_mirrors}
use kubemirror.Object.{Unstructured}
use kubemirror.Cluster.{
  Key, Fetch, found, missing, Namespace, Client, NamespaceInfo, names_of, categorize,
  with_allow_mirrors, is_label, list_namespaces_with_labels, list_allow_mirrors_namespaces,
  list_opt_out_namespaces, get_reader,
}

-- A delete of one object, whether it succeeds or not, changes no read of another.
pub record IsLocal (c : Client) : Type 0 where
  pub delete_local :
      (k other : Key) (s : c.S) → k ≢ other → c.get other (c.delete k s).1 ≡ c.get other s

-- A delete, whether it succeeds or not, makes no object appear.
pub record IsReliable (c : Client) : Type 0 where
  pub creates_nothing :
      (k other : Key) (s : c.S) → c.get other s ≡ missing → c.get other (c.delete k s).1 ≡ missing

-- An object without finalizers is gone once a delete of it has succeeded, for a cache that is up to date.
pub record IsClearing (c : Client) : Type 0 where
  pub clears :
      (k : Key) (s : c.S) (u : Unstructured)
      → c.get k s ≡ found u
      → u.meta.finalizers ≡ []
      → (c.delete k s).0 ≡ none
      → c.get k (c.delete k s).1 ≡ missing

-- What a delete takes away, of what is read at a key: nothing, or an object without finalizers of which
-- the API server accepts a delete.
pub data IsDeletable (c : Client) (k : Key) : Fetch → Type 0 where
  absent : IsDeletable c k missing
  accepted :
      (u : Unstructured)
      → u.meta.finalizers ≡ []
      → ((s : c.S) → c.get k s ≡ found u → (c.delete k s).0 ≡ none)
      → IsDeletable c k (found u)

pub delete-missing :
    (c : Client) (reliable : IsReliable c) (clearing : IsClearing c) (k : Key) (s : c.S) (f : Fetch)
    → IsDeletable c k f
    → c.get k s ≡ f
    → c.get k (c.delete k s).1 ≡ missing
delete-missing c reliable clearing k s missing absent got = reliable.creates_nothing k k s got
delete-missing c reliable clearing k s _ (accepted u free ok) got =
    clearing.clears k s u got free (ok s got)

is_label-true :
    (m : Dict String)
    → is_label "true" (lookup label_allow_mirrors m) ≡ (read label_allow_mirrors m == "true")
unfolding read
is_label-true m = by_value (lookup label_allow_mirrors m)
  where
    by_value : (o : Option String) → is_label "true" o ≡ (value_or_empty o == "true")
    by_value none = refl
    by_value (some v) = refl

is_label-false :
    (m : Dict String)
    → is_label "false" (lookup label_allow_mirrors m) ≡ (read label_allow_mirrors m == "false")
unfolding read
is_label-false m = by_value (lookup label_allow_mirrors m)
  where
    by_value : (o : Option String) → is_label "false" o ≡ (value_or_empty o == "false")
    by_value none = refl
    by_value (some v) = refl

names_of-if :
    (b : Bool) (ns : Namespace) (xs : List Namespace)
    → names_of (if b then ns ∷ xs else xs) ≡ (if b then ns.name ∷ names_of xs else names_of xs)
unfolding names_of
names_of-if true ns xs = refl
names_of-if false ns xs = refl

categorize-names :
    (items : List Namespace)
    → ((categorize items).every ≡ names_of items)
      × ((categorize items).allow_mirrors ≡ names_of (with_allow_mirrors "true" items))
      × ((categorize items).opt_out ≡ names_of (with_allow_mirrors "false" items))
unfolding categorize names_of with_allow_mirrors
categorize-names [] = (refl, refl, refl)
categorize-names (ns ∷ rest) =
    let (a, b, c) = categorize-names rest in
    simp (is_label-true, is_label-false, names_of-if) (ground (arith, a, b, c))

-- The one listing gives what the three separate queries give: the namespaces that opted in and
-- those that opted out by their labels, of the same reader.
pub list_namespaces_with_labels-agrees :
    (c : Client) (has_api_reader : Bool) (s : c.S) (info : NamespaceInfo)
    → list_namespaces_with_labels c has_api_reader s ≡ some info
    → (list_allow_mirrors_namespaces c has_api_reader s ≡ some info.allow_mirrors)
      × (list_opt_out_namespaces c has_api_reader s ≡ some info.opt_out)
unfolding list_namespaces_with_labels list_allow_mirrors_namespaces list_opt_out_namespaces
list_namespaces_with_labels-agrees c has_api_reader s info h =
    elim (Option-cases (get_reader c has_api_reader s)) [
      | inl gone ↦ cc (gone, h)
      | inr (items, got) ↦ ground (arith, got, h, categorize-names items)
    ]
