-- ===== src/Transformer/Base64.antt =====
-- base64.StdEncoding.EncodeToString over the UTF-8 bytes of a text, as
-- pkg/transformer/transformer.go calls it.
use Prim.Native.Nat.{◌/◌, ◌%◌}
use Prim.Native.Char.{Char, code}
use Prim.Native.String.{char_at}
use kubemirror.Prelude.{ℕ, ◌+◌, ◌*◌, ◌≡◌, refl, String, List, [], ◌∷◌, ◌++◌, if◌then◌else◌, ltb}

-- the bytes of one character
unfoldable pub utf8 : ℕ → List ℕ
utf8 c =
    if ltb c 0x80
    then c ∷ []
    else if ltb c 0x800
    then (0xc0 + c / 64) ∷ (0x80 + c % 64) ∷ []
    else if ltb c 0x10000
    then (0xe0 + c / 4096) ∷ (0x80 + c / 64 % 64) ∷ (0x80 + c % 64) ∷ []
    else (0xf0 + c / 262144) ∷ (0x80 + c / 4096 % 64) ∷ (0x80 + c / 64 % 64) ∷ (0x80 + c % 64) ∷ []

unfoldable pub bytes_of : String → List ℕ
unfolding utf8
bytes_of String.[] = []
bytes_of (String.◌∷◌ c rest) = utf8 (code c) ++ bytes_of rest

abbrev pub alphabet : String
alphabet = "ABCDEFGHIJKLMNOPQRSTUVWXYZabcdefghijklmnopqrstuvwxyz0123456789+/"

-- the character of six bits
abbrev pub sextet : ℕ → Char
sextet v = char_at alphabet v

-- four characters before a text
abbrev pub four : Char → Char → Char → Char → String → String
four a b c d rest = String.◌∷◌ a (String.◌∷◌ b (String.◌∷◌ c (String.◌∷◌ d rest)))

-- three bytes become four characters; one or two bytes at the end are filled up with `=`
unfoldable pub encode : List ℕ → String
encode [] = ""
encode (a ∷ []) = four (sextet (a / 4)) (sextet (a % 4 * 16)) "=" "=" ""
encode (a ∷ b ∷ []) =
    four (sextet (a / 4)) (sextet (a % 4 * 16 + b / 16)) (sextet (b % 16 * 4)) "=" ""
encode (a ∷ b ∷ c ∷ rest) =
    four (sextet (a / 4)) (sextet (a % 4 * 16 + b / 16)) (sextet (b % 16 * 4 + c / 64))
      (sextet (c % 64)) (encode rest)

unfoldable pub base64_encode : String → String
unfolding bytes_of encode
base64_encode s = encode (bytes_of s)

base64_encode_example : base64_encode "páss" ≡ "cMOhc3M="
unfolding base64_encode
base64_encode_example = refl
