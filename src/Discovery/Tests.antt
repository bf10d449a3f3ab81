-- ===== src/Discovery/Tests.antt =====
-- A discovery over three resources, two of which cannot be mirrored.
use mathlib.Core.List.Permᴰ
use kubemirror.Prelude.{◌≡◌, refl, String, true, false, Option, some, List, [], ◌∷◌, map, contains}
use kubemirror.ResourceType.{ResourceType, to_text}
use kubemirror.Discovery.{
  ApiResourceList, GroupVersion, required_verbs, complete, failed, visit_resource,
}
use kubemirror.Discovery.Manager.{start, run, discover, new_manager, get_current_resources}
use kubemirror.Discovery.Manager.Reports.{by_reports, start-by_reports}

abbrev core : String → Option GroupVersion
core s = some (record { group = ""; version = s })

abbrev lists : List ApiResourceList
lists =
    record {
      group_version = "v1";
      api_resources =
          record { name = "secrets"; namespaced = true; kind = "Secret"; verbs = required_verbs }
          ∷ record { name = "pods"; namespaced = true; kind = "Pod"; verbs = required_verbs }
          ∷ record { name = "services/status"; namespaced = true; kind = "Service"; verbs = [] }
          ∷ [];
    }
    ∷ []

abbrev secrets : List ResourceType
secrets = record { group = ""; version = "v1"; kind = "Secret" } ∷ []

abbrev config_maps : List ResourceType
config_maps = record { group = ""; version = "v1"; kind = "ConfigMap" } ∷ []

start-by_reports_example :
    contains
      (map to_text (get_current_resources (record { current_resources = secrets; interval = 60 })))
      "Secret.v1"
    ≡ by_reports "Secret.v1" false (record { added = secrets; removed = [] } ∷ [])
unfolding start run discover new_manager visit_resource to_text
start-by_reports_example =
    start-by_reports core (λ m. m) (λ m. ∣ Permᴰ.refl m ∣₁) "Secret.v1" 60 (complete lists)
      (failed ∷ []) (record { added = secrets; removed = [] } ∷ [])
      (record { current_resources = secrets; interval = 60 }) refl
