-- ===== src/ResourceType.antt =====
-- pkg/config/resource_types.go: the types of resources and their texts.
pub mod RoundTrip
pub mod Tests
use Prim.Native.String.{◌++◌}
use kubemirror.Prelude.{
  ℕ, String, Bool, true, false, ◌==◌, Option, none, some, List, [], ◌∷◌, if◌then◌else◌,
}
use kubemirror.Prelude.Text.{split, join, trim_space}

pub record ResourceType : Type 0 where
  pub group : String
  pub version : String
  pub kind : String

-- `String()`: kind.version, or kind.version.group
unfoldable pub to_text : ResourceType → String
to_text r =
    if r.group == ""
    then r.kind ++ ("." ++ r.version)
    else r.kind ++ ("." ++ (r.version ++ ("." ++ r.group)))

-- ParseResourceType on the parts; `none` is an error
unfoldable pub of_parts : List String → Option ResourceType
unfolding join
of_parts [] = none
of_parts (kind ∷ []) = none
of_parts (kind ∷ version ∷ []) = some (record { group = ""; version = version; kind = kind })
of_parts (kind ∷ version ∷ group ∷ []) =
    some (record { group = group; version = version; kind = kind })
of_parts (kind ∷ version ∷ group ∷ more) =
    some (record { group = join "." (group ∷ more); version = version; kind = kind })

unfoldable pub parse_resource_type : String → Option ResourceType
unfolding split of_parts
parse_resource_type s = of_parts (split b'.' s)

unfoldable pub default_resource_types : List ResourceType
default_resource_types =
    record { group = ""; version = "v1"; kind = "Secret" }
    ∷ record { group = ""; version = "v1"; kind = "ConfigMap" }
    ∷ []

-- the loop of ParseResourceTypes: empty parts are skipped, and the first error ends it
unfoldable pub parse_each : List String → Option (List ResourceType)
unfolding parse_resource_type trim_space
parse_each [] = some []
parse_each (part ∷ parts) =
    let p = trim_space part in
    let rest = parse_each parts in
    if p == "" then rest else elim (parse_resource_type p) [
      | none ↦ none
      | some r ↦ elim rest [ none ↦ none | some rs ↦ some (r ∷ rs) ]
    ]

unfoldable pub parse_resource_types : String → Option (List ResourceType)
unfolding parse_each split default_resource_types
parse_resource_types s = if s == "" then some default_resource_types else parse_each (split b',' s)
