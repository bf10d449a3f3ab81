-- ===== src/Prelude/Text.antt =====
-- The parts of Go's strings package that the program uses, over native texts: Split, Join,
-- TrimSpace, and the code points that the byte walks read (the bytes, where a text is ASCII).
use Prim.Native.Nat.{ℕ}
use Prim.Native.Char.{Char, code}
use Prim.Native.String.{String, ◌++◌}
use mathlib.Core.Path.{◌≡◌, refl}
use mathlib.Core.Bool.{Bool, false, ◌&&◌, ◌||◌}
use mathlib.Core.List.{List, [], ◌∷◌}
use text.Mathlib.Text.{◌==◌}
use kubemirror.Prelude.Tests.{if◌then◌else◌, nat_eq, leb}

abbrev pub codes : String → List ℕ
codes String.[] = []
codes (String.◌∷◌ c s) = code c ∷ codes s

-- `unicode.IsSpace`
unfoldable pub is_space : ℕ → Bool
is_space c =
    (leb 9 c && leb c 13)
    || nat_eq c 32
    || nat_eq c 0x85
    || nat_eq c 0xa0
    || nat_eq c 0x1680
    || (leb 0x2000 c && leb c 0x200a)
    || nat_eq c 0x2028
    || nat_eq c 0x2029
    || nat_eq c 0x202f
    || nat_eq c 0x205f
    || nat_eq c 0x3000

unfoldable pub trim_left : String → String
unfolding is_space
trim_left String.[] = ""
trim_left (String.◌∷◌ c s) =
    let rest = trim_left s in if is_space (code c) then rest else String.◌∷◌ c s

unfoldable pub trim_right : String → String
unfolding is_space
trim_right String.[] = ""
trim_right (String.◌∷◌ c s) =
    let rest = trim_right s in if rest == "" && is_space (code c) then "" else String.◌∷◌ c rest

-- `strings.TrimSpace`
unfoldable pub trim_space : String → String
unfolding trim_left trim_right
trim_space s = trim_right (trim_left s)

-- one more character before the first part
unfoldable pub on_first : Char → List String → List String
on_first c [] = String.◌∷◌ c "" ∷ []
on_first c (part ∷ parts) = String.◌∷◌ c part ∷ parts

-- `strings.Split` by a separator of one character
unfoldable pub split : ℕ → String → List String
unfolding on_first
split sep String.[] = "" ∷ []
split sep (String.◌∷◌ c s) =
    let parts = split sep s in if nat_eq (code c) sep then "" ∷ parts else on_first c parts

-- `strings.Join`
unfoldable pub join : String → List String → String
join sep [] = ""
join sep (part ∷ []) = part
join sep (part ∷ parts) = part ++ (sep ++ join sep parts)

unfoldable pub has_code : ℕ → String → Bool
has_code k String.[] = false
has_code k (String.◌∷◌ c s) = nat_eq (code c) k || has_code k s

split_example : split b',' "a,,b" ≡ "a" ∷ "" ∷ "b" ∷ []
unfolding split
split_example = refl

trim_example : trim_space " \ta b\n " ≡ "a b"
unfolding trim_space
trim_example = refl

-- texts one after another, as `+` and Sprintf put them together
unfoldable pub concat : List String → String
concat [] = ""
concat (s ∷ ss) = s ++ concat ss
