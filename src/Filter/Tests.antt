-- ===== src/Filter/Tests.antt =====
-- Namespaces resolved from concrete patterns.
use mathlib.Core.List.Permᴰ
use kubemirror.Prelude.{true, String, List, [], ◌∷◌}
use kubemirror.Filter.{NamespaceFilter}

abbrev nf : NamespaceFilter
nf = record { excluded_namespaces = ("kube-system", true) ∷ []; included_patterns = "app-*" ∷ [] }

abbrev every : List String
every = "prod" ∷ "app-1" ∷ "app-2" ∷ "kube-system" ∷ []

abbrev patterns : List String
patterns = "all" ∷ "app-?" ∷ []
