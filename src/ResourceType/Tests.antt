-- ===== src/ResourceType/Tests.antt =====
-- Runs of the parser of resource types.
use kubemirror.Prelude.{◌≡◌, refl, some}
use kubemirror.Prelude.Text.{has_code}
use kubemirror.ResourceType.{ResourceType, to_text, parse_resource_type}
use kubemirror.ResourceType.RoundTrip.{parse_resource_type-to_text}

abbrev ingress : ResourceType
ingress = record { group = "networking.k8s.io"; version = "v1"; kind = "Ingress" }

parse_resource_type-to_text_example : parse_resource_type (to_text ingress) ≡ some ingress
unfolding has_code
parse_resource_type-to_text_example = parse_resource_type-to_text ingress refl refl

to_text_example : to_text ingress ≡ "Ingress.v1.networking.k8s.io"
unfolding to_text
to_text_example = refl
