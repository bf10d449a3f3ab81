-- ===== src/Lib.antt =====
-- kubemirror: a controller that copies Kubernetes resources from their namespace to others.
--
-- The program. A source is a resource with the enabled label and the sync annotation; its mirrors
-- are copies in other namespaces. SourceReconciler makes, updates and deletes the mirrors of one
-- source; MirrorReconciler deletes a mirror that lost its source; NamespaceReconciler reacts to a
-- namespace; DynamicControllerManager registers a pair of controllers for each type of resource
-- that is in use, and the discovery lists those types. A transformer changes a mirror by the rules
-- that an annotation of its source carries; the command puts the parts together. They share the
-- builder of mirrors, the content hash that says when a mirror is behind, the filter of namespaces,
-- the lister of namespaces, and a circuit breaker.
--
-- The files, and what each models:
--   Prelude        lists, Go maps as association lists, texts: what the other files share
--   Constants      pkg/constants/constants.go
--   CircuitBreaker pkg/circuitbreaker/circuitbreaker.go: the state of one resource (`allow`,
--                  `success`, `failure`), and the methods over the map of states (`allow_request`,
--                  `record_success`, `record_failure`, `get_state`, `reset`, `get_stats`)
--   PathMatch      filepath.Match, as its documentation describes it: patterns with *, ?, classes
--                  and escapes
--   Filter         pkg/filter/namespace.go: `validate_patterns`, `is_allowed`,
--                  `parse_target_namespaces`, `resolve_target_namespaces`
--   Object         the parts of the Kubernetes objects that the program reads and writes
--   Hash           pkg/hash/content.go: `compute_content_hash`, `needs_sync`
--   Mirror         pkg/controller/mirror.go: `create_mirror`, `update_mirror` and their helpers
--   Cluster        the client as an interface, and pkg/controller/namespace_lister.go
--   SourceReconciler     pkg/controller/source_reconciler.go, `reconcile` in its child Reconcile;
--                  what whole reconciliations do is in Foreign, Fate, Complete, Release, Settling
--   MirrorReconciler     pkg/controller/mirror_reconciler.go
--   NamespaceReconciler  pkg/controller/namespace_reconciler.go
--   System         the calls of the three reconcilers on one cluster, in any order, as steps
--   ResourceType   pkg/config/resource_types.go
--   DynamicManager pkg/controller/dynamic_manager.go, `start` and the loop in its child Loop
--   Discovery      pkg/discovery/discovery.go, and in its child Manager pkg/discovery/manager.go
--   Transformer    pkg/transformer/types.go and pkg/transformer/transformer.go: the rules and the glob
--                  of namespaces here, and in the children Path the paths (`parse_path`,
--                  `parse_array_index`), Tree the writes of fields (`set_nested_field`), Base64 the
--                  encoding of a Secret's data, Apply the rest of the way from an annotation to a
--                  transformed object (`transform`, `apply_rules`, `apply_rule`)
--   Config         pkg/config/config.go
--   Command        cmd/kubemirror/main.go: `namespace_filter`, `source_settings`,
--                  `mirrored_resources`, `transform_func`, `register_all`, and in its child Run the
--                  defaults of the flags (`default_flags`), the configuration (`new_config`) and the
--                  start (`start_up`)
--   Samples        a cluster in memory and its objects, for the Tests modules
--
-- How code and model correspond. A function of the code is a function of the model under the same
-- name in snake case. A method that changes state takes the state and gives it back. An error is a
-- value: `none`, or a constructor of a type of failures; of its text only what the program keeps is
-- modelled. Logging changes nothing and is left out. A lock makes a method one step. A map is an
-- association list, and where the program runs over a map, the order of the run is a parameter
-- (`order`), which a theorem restricts to permutations at most; one call of a handler has one such
-- order, and two calls have two. Times are nanoseconds since some
-- start, given as an argument; the intervals of Config and of the flags are in milliseconds. Loops are structural recursion; the print of a decimal alone takes
-- fuel, which is the number and one more, so more than its digits.
--
-- What is a parameter. The client of controller-runtime (`Cluster.Client`: a state, reads of the
-- cache and of the API server, and writes, each of which may fail), the digest (JSON, SHA-256 and
-- the hexadecimal print), the setups of controllers, the parser of a group and a version, and for
-- the transformer the record `Transformer.Apply.Library` of functions of other packages: the YAML
-- parser, a template's rendering within a time, and the functions of the unstructured package. The
-- builder of mirrors takes the transformer as a parameter, and Mirror.Rejection gives it that of
-- Transformer. Cluster.Laws and Cluster.Store name what theorems rely on in a client, and Samples
-- and its child Store have clients for which it holds; Transformer.Apply.Locality names what a
-- theorem relies on in the functions of the unstructured package.
--
-- Loops over ticks. The loops that wait on a ticker are functions of a list of ticks, or of what
-- the API server answers at each of them; a wait with a timeout is one of the states at the ticks
-- before it.
--
-- Not modelled. A panic of a function of another package, the registration of controllers with
-- controller-runtime (their predicates, maps and names are modelled), and of cmd/kubemirror/main.go
-- the parsing of flags, the options and the making of controller-runtime's manager, and the logs. A
-- conflict of two writers is an error of a write of the client; what stands between two calls of a
-- handler is the state that the next one is given. Objects are values: that an unstructured mirror
-- which is updated shares its nested maps with the source, which a transformation in place would
-- then change, is not modelled (`update_unstructured_mirror` copies); the theorems on what whole
-- reconciliations write are about sources without transformation rules, for which nothing is
-- changed in place.
pub mod Prelude
pub mod Config
pub mod Constants
pub mod CircuitBreaker
pub mod ResourceType
pub mod DynamicManager
pub mod Discovery
pub mod PathMatch
pub mod Filter
pub mod Object
pub mod Hash
pub mod Mirror
pub mod Cluster
pub mod SourceReconciler
pub mod MirrorReconciler
pub mod NamespaceReconciler
pub mod Transformer
pub mod System
pub mod Command
pub mod Samples
