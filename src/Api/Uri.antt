-- ===== src/Api/Uri.antt =====
-- `encodeURIComponent` of the language, as frontend/src/api.ts calls it in `deleteUser` and
-- `updateUserRole`: the code points of the text, each kept or written as its UTF-8 bytes.
pub mod Decode
pub mod Reader
use Prim.Native.Nat.{zero}
use mirraura.Base.{
  ℕ, ◌+◌, ◌-◌, ◌*◌, ◌/◌, ◌%◌, Bool, ◌&&◌, ◌||◌, List, [], ◌∷◌, ◌++◌, map, Text, ltb, leb, ◌==◌,
  if◌then◌else◌, Option, none, some, flatten, map_some,
}

unfoldable pub is_high : ℕ → Bool
is_high c = leb 55296 c && ltb c 56320

unfoldable pub is_low : ℕ → Bool
is_low c = leb 56320 c && ltb c 57344

-- The code point of a surrogate pair.
abbrev pub pair : ℕ → ℕ → ℕ
pair h l = 65536 + (h - 55296) * 1024 + (l - 56320)

-- The code points of a text; a surrogate half that stands alone is refused. The option holds the
-- high half that was read last.
unfoldable pub code_points : Option ℕ → Text → Option (List ℕ)
unfolding is_high is_low
code_points none [] = some []
code_points (some h) [] = none
code_points none (c ∷ s) =
    let high = code_points (some c) s in
    let plain = map_some (◌∷◌ c) (code_points none s) in
    if is_high c then high else if is_low c then none else plain
code_points (some h) (c ∷ s) =
    let both = map_some (◌∷◌ (pair h c)) (code_points none s) in if is_low c then both else none

unfoldable pub utf8 : ℕ → List ℕ
utf8 c =
    if ltb c 128
    then c ∷ []
    else if ltb c 2048
    then (192 + c / 64) ∷ (128 + c % 64) ∷ []
    else if ltb c 65536
    then (224 + c / 4096) ∷ (128 + c / 64 % 64) ∷ (128 + c % 64) ∷ []
    else (240 + c / 262144) ∷ (128 + c / 4096 % 64) ∷ (128 + c / 64 % 64) ∷ (128 + c % 64) ∷ []

-- Letters, digits and `- _ . ! ~ * ' ( )`; the last four are the codes 39 to 42.
unfoldable pub is_unreserved : ℕ → Bool
is_unreserved c =
    (leb b'a' c && leb c b'z')
    || (leb b'A' c && leb c b'Z')
    || (leb b'0' c && leb c b'9')
    || (leb 39 c && leb c b'*')
    || c == b'-'
    || c == b'.'
    || c == b'_'
    || c == b'!'
    || c == b'~'

abbrev pub upper_hex : ℕ → ℕ
upper_hex n = if ltb n 10 then b'0' + n else 55 + n

abbrev pub percent : ℕ → Text
percent b = b'%' ∷ upper_hex (b / 16) ∷ upper_hex (b % 16) ∷ []

unfoldable pub encode_point : ℕ → Text
encode_point c = if is_unreserved c then c ∷ [] else flatten (map percent (utf8 c))

-- `none` is the `URIError` of a text that is not well formed.
unfoldable pub encode_uri_component : Text → Option Text
encode_uri_component s = map_some (λ ps. flatten (map encode_point ps)) (code_points none s)
