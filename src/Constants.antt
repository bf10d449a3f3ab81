-- ===== src/Constants.antt =====
-- pkg/constants/constants.go: the label and annotation keys and the special values.
use kubemirror.Prelude.{String, List, [], ◌∷◌}

abbrev pub domain_prefix : String
domain_prefix = "kubemirror.raczylo.com/"

abbrev pub label_enabled : String
label_enabled = "kubemirror.raczylo.com/enabled"

abbrev pub label_managed_by : String
label_managed_by = "kubemirror.raczylo.com/managed-by"

abbrev pub label_mirror : String
label_mirror = "kubemirror.raczylo.com/mirror"

abbrev pub label_allow_mirrors : String
label_allow_mirrors = "kubemirror.raczylo.com/allow-mirrors"

abbrev pub annotation_sync : String
annotation_sync = "kubemirror.raczylo.com/sync"

abbrev pub annotation_target_namespaces : String
annotation_target_namespaces = "kubemirror.raczylo.com/target-namespaces"

abbrev pub annotation_source_namespace : String
annotation_source_namespace = "kubemirror.raczylo.com/source-namespace"

abbrev pub annotation_source_name : String
annotation_source_name = "kubemirror.raczylo.com/source-name"

abbrev pub annotation_source_uid : String
annotation_source_uid = "kubemirror.raczylo.com/source-uid"

abbrev pub annotation_source_generation : String
annotation_source_generation = "kubemirror.raczylo.com/source-generation"

abbrev pub annotation_source_content_hash : String
annotation_source_content_hash = "kubemirror.raczylo.com/source-content-hash"

abbrev pub annotation_source_resource_version : String
annotation_source_resource_version = "kubemirror.raczylo.com/source-resource-version"

abbrev pub annotation_last_sync_time : String
annotation_last_sync_time = "kubemirror.raczylo.com/last-sync-time"

abbrev pub annotation_sync_status : String
annotation_sync_status = "kubemirror.raczylo.com/sync-status"

abbrev pub annotation_transform : String
annotation_transform = "kubemirror.raczylo.com/transform"

abbrev pub annotation_transform_strict : String
annotation_transform_strict = "kubemirror.raczylo.com/transform-strict"

abbrev pub finalizer_name : String
finalizer_name = "kubemirror.raczylo.com/finalizer"

abbrev pub controller_name : String
controller_name = "kubemirror"

abbrev pub target_namespaces_all : String
target_namespaces_all = "all"

abbrev pub target_namespaces_all_labeled : String
target_namespaces_all_labeled = "all-labeled"

abbrev pub leader_election_id : String
leader_election_id = "kubemirror-controller-leader"

abbrev pub default_excluded_namespaces : List String
default_excluded_namespaces = "kube-system" ∷ "kube-public" ∷ "kube-node-lease" ∷ []
