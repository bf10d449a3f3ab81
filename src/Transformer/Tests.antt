-- ===== src/Transformer/Tests.antt =====
-- A rule and a glob, on concrete data.
use kubemirror.Prelude.{◌≡◌, ◌↔◌, refl, true, false, some, none, [], ◌∷◌, map}
use kubemirror.Prelude.Text.{codes, has_code}
use kubemirror.Transformer.{Rule, match_glob}
use kubemirror.Transformer.Path.{parse_path}
use kubemirror.Transformer.Path.RoundTrip.{key, index, text_of, print, parse_path-print}
use kubemirror.Transformer.Glob.{Matches, match_glob-Matches}

abbrev rule : Rule
rule = record {
  value = some "x";
  template = none;
  merge = none;
  namespace_pattern = some (codes "app-*");
  path = "data.key";
  delete = false;
}

match_glob-Matches_example :
    (match_glob (codes "app-*") (codes "app-12") ≡ true) ↔ Matches (codes "app-*") (codes "app-12")
match_glob-Matches_example = match_glob-Matches (codes "app-*") (codes "app-12")

match_glob_example : match_glob (codes "app-*-?") (codes "app-1-2") ≡ true
unfolding match_glob
match_glob_example = refl

parse_path-print_example :
    parse_path (print (key "spec" ∷ key "containers" ∷ index "0" ∷ key "image" ∷ []))
    ≡ map text_of (key "spec" ∷ key "containers" ∷ index "0" ∷ key "image" ∷ [])
unfolding has_code
parse_path-print_example =
    parse_path-print (key "spec" ∷ key "containers" ∷ index "0" ∷ key "image" ∷ []) (
      (refl, refl, refl, refl),
      ((refl, refl, refl, refl), ((refl, refl), ((refl, refl, refl, refl), tt))),
    )
