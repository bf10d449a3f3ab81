-- ===== src/Object.antt =====
-- The Kubernetes objects that the program handles: metadata, the typed Secret and ConfigMap, and
-- the unstructured object of any other type. The API types are those of k8s.io; this is the part of
-- them that the program reads or writes. A nil map and an empty map are one.
use kubemirror.Prelude.{ℕ, String, Bool, Option, List}
use kubemirror.Prelude.Dict.{Dict}

-- A value of a JSON document; a number is kept as its text.
mutual
  pub data Value : Type 0 where
    null : Value
    boolean : Bool → Value
    number : String → Value
    text : String → Value
    obj : Fields → Value
    arr : Items → Value

  pub data Fields : Type 0 where
    end : Fields
    field : String → Value → Fields → Fields

  pub data Items : Type 0 where
    nil : Items
    cons : Value → Items → Items

-- `metav1.ObjectMeta`; no deletion timestamp is the zero time
pub record Meta : Type 0 where
  pub name : String
  pub namespace : String
  pub uid : String
  pub resource_version : String
  pub generation : ℕ
  pub labels : Dict String
  pub annotations : Dict String
  pub finalizers : List String
  pub owner_references : List String
  pub creation_timestamp : Option ℕ
  pub deletion_timestamp : Option ℕ

pub record Secret : Type 0 where
  pub meta : Meta
  pub secret_type : String
  pub contents : Dict String
  pub string_data : Dict String

pub record ConfigMap : Type 0 where
  pub meta : Meta
  pub contents : Dict String
  pub binary_data : Dict String

-- `fields` holds the top-level fields other than apiVersion, kind and metadata.
pub record Unstructured : Type 0 where
  pub api_version : String
  pub kind : String
  pub meta : Meta
  pub fields : Dict Value

-- `runtime.Object`
pub data Object : Type 0 where
  secret : Secret → Object
  config_map : ConfigMap → Object
  unstructured : Unstructured → Object

abbrev pub meta_of : Object → Meta
meta_of (secret s) = s.meta
meta_of (config_map c) = c.meta
meta_of (unstructured u) = u.meta

abbrev pub with_annotations : Object → Dict String → Object
with_annotations (secret s) a = secret (record s { meta = record s.meta { annotations = a } })
with_annotations (config_map c) a =
    config_map (record c { meta = record c.meta { annotations = a } })
with_annotations (unstructured u) a =
    unstructured (record u { meta = record u.meta { annotations = a } })
