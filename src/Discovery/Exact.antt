-- ===== src/Discovery/Exact.antt =====
-- Which types a discovery returns, pkg/discovery/discovery.go.
use kubemirror.Prelude.{
  String, Bool, false, not, ◌&&◌, ◌||◌, ◌==◌, Option, none, some, List, [], ◌∷◌, map, ◌≡◌, contains,
  IsDistinct,
}
use kubemirror.Prelude.Text.{has_code}
use kubemirror.ResourceType.{ResourceType, to_text}
use kubemirror.Discovery.{
  ApiResource, ApiResourceList, GroupVersion, supports_required_verbs, is_denied_resource_type,
  Found,
}

-- A resource that is offered as a type whose text is `key` and that can be mirrored: it is
-- namespaced, not a subresource, has the verbs that mirroring takes and is of no denied kind.
unfoldable pub is_mirrorable_as : String → GroupVersion → ApiResource → Bool
is_mirrorable_as key gv r =
    not (has_code b'/' r.name)
    && r.namespaced
    && supports_required_verbs r.verbs
    && not (is_denied_resource_type r.kind)
    && (to_text (record { group = gv.group; version = gv.version; kind = r.kind }) == key)

unfoldable pub some_mirrorable_as : String → GroupVersion → List ApiResource → Bool
some_mirrorable_as key gv [] = false
some_mirrorable_as key gv (r ∷ rest) = is_mirrorable_as key gv r || some_mirrorable_as key gv rest

unfoldable pub is_offered : (String → Option GroupVersion) → String → List ApiResourceList → Bool
is_offered parse key [] = false
is_offered parse key (l ∷ rest) = elim (parse l.group_version) [
  | none ↦ is_offered parse key rest
  | some gv ↦ some_mirrorable_as key gv l.api_resources || is_offered parse key rest
]

-- the texts of what is found are those that are seen, each once
pub IsConsistent : Found → Type 0
IsConsistent found =
    ((k : String) → contains (map to_text found.resources) k ≡ contains found.seen k)
    × IsDistinct (map to_text found.resources)

guard : ApiResource → Bool
guard r =
    not (has_code b'/' r.name)
    && r.namespaced
    && supports_required_verbs r.verbs
    && not (is_denied_resource_type r.kind)
