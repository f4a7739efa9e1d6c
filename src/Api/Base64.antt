-- ===== src/Api/Base64.antt =====
-- frontend/src/api.ts, lines 125 to 132: the base64 text of a sample. The loop over
-- `String.fromCharCode` gives a text whose code units are the bytes, and `btoa` is the browser's.
use mathlib.Core.Path.{ap₂, sym}
use mirraura.Base.{
  ℕ, ◌+◌, ◌-◌, ◌*◌, ◌/◌, ◌%◌, ◌<◌, ◌≡◌, refl, List, [], ◌∷◌, ◌++◌, Text, ltb, ◌==◌, if◌then◌else◌,
  All, arith, ◌≢◌, append-nil, ◌∙◌, append_assoc,
}

unfoldable pub symbol : ℕ → ℕ
symbol n =
    if ltb n 26
    then 65 + n
    else if ltb n 52
    then 71 + n
    else if ltb n 62
    then n - 4
    else if n == 62
    then b'+'
    else b'/'

unfoldable pub btoa : Text → Text
unfolding symbol
btoa [] = []
btoa (a ∷ []) = symbol (a / 4) ∷ symbol (a % 4 * 16) ∷ b'=' ∷ b'=' ∷ []
btoa (a ∷ b ∷ []) = symbol (a / 4) ∷ symbol (a % 4 * 16 + b / 16) ∷ symbol (b % 16 * 4) ∷ b'=' ∷ []
btoa (a ∷ b ∷ c ∷ s) =
    symbol (a / 4)
    ∷ symbol (a % 4 * 16 + b / 16)
    ∷ symbol (b % 16 * 4 + c / 64)
    ∷ symbol (c % 64)
    ∷ btoa s

-- The loop over the bytes, from the text so far.
unfoldable pub binary_from : Text → List ℕ → Text
binary_from binary [] = binary
binary_from binary (b ∷ bytes) = binary_from (binary ++ b ∷ []) bytes

unfoldable pub content_b64 : List ℕ → Text
content_b64 bytes = btoa (binary_from [] bytes)

symbol_value : ℕ → ℕ
symbol_value c =
    if c == b'+'
    then 62
    else if c == b'/'
    then 63
    else if ltb c b'A'
    then c + 4
    else if ltb c b'a'
    then c - 65
    else c - 71

-- The bytes of one group of four symbols.
abbrev group : ℕ → ℕ → ℕ → ℕ → List ℕ
group p q r s =
    let x = symbol_value p * 4 + symbol_value q / 16 in
    let y = symbol_value q % 16 * 16 + symbol_value r / 4 in
    let z = symbol_value r % 4 * 64 + symbol_value s in
    if r == b'=' then x ∷ [] else if s == b'=' then x ∷ y ∷ [] else x ∷ y ∷ z ∷ []

-- A decoder of base64 text.
pub atob : Text → List ℕ
atob (p ∷ q ∷ r ∷ s ∷ t) = group p q r s ++ atob t
atob _ = []

symbol_lem : (n : ℕ) → n < 64 → (symbol_value (symbol n) ≡ n) × (symbol n ≢ b'=')
unfolding symbol symbol_value
symbol_lem n h = ground arith

group_three :
    (a b c : ℕ)
    → a < 256
    → b < 256
    → c < 256
    → group
        (symbol (a / 4))
        (symbol (a % 4 * 16 + b / 16))
        (symbol (b % 16 * 4 + c / 64))
        (symbol (c % 64))
      ≡ a ∷ b ∷ c ∷ []
group_three a b c ha hb hc = ground (
  arith,
  symbol_lem (a / 4),
  symbol_lem (a % 4 * 16 + b / 16),
  symbol_lem (b % 16 * 4 + c / 64),
  symbol_lem (c % 64),
)

group_two :
    (a b : ℕ)
    → a < 256
    → b < 256
    → group (symbol (a / 4)) (symbol (a % 4 * 16 + b / 16)) (symbol (b % 16 * 4)) b'=' ≡ a ∷ b ∷ []
group_two a b ha hb =
    ground (arith, symbol_lem (a / 4), symbol_lem (a % 4 * 16 + b / 16), symbol_lem (b % 16 * 4))

group_one : (a : ℕ) → a < 256 → group (symbol (a / 4)) (symbol (a % 4 * 16)) b'=' b'=' ≡ a ∷ []
group_one a ha = ground (arith, symbol_lem (a / 4), symbol_lem (a % 4 * 16))

atob-btoa : (bs : List ℕ) → All (λ b. b < 256) bs → atob (btoa bs) ≡ bs
unfolding atob btoa
atob-btoa [] h = refl
atob-btoa (a ∷ []) h = rw append-nil (group_one a h.0)
atob-btoa (a ∷ b ∷ []) h = rw append-nil (group_two a b h.0 h.1.0)
atob-btoa (a ∷ b ∷ c ∷ bs) h = ap₂ ◌++◌ (group_three a b c h.0 h.1.0 h.1.1.0) (atob-btoa bs h.1.1.1)

binary_from_lem : (binary : Text) (bs : List ℕ) → binary_from binary bs ≡ binary ++ bs
unfolding binary_from
binary_from_lem binary [] = sym (append-nil binary)
binary_from_lem binary (b ∷ bs) =
    binary_from_lem (binary ++ b ∷ []) bs ∙ append_assoc binary (b ∷ []) bs

-- Decoding the base64 text that is sent for a sample gives back every byte of the sample.
pub atob-content_b64 :
    (bytes : List ℕ) → All (λ b. b < 256) bytes → atob (content_b64 bytes) ≡ bytes
unfolding content_b64
atob-content_b64 bytes h = rw (binary_from_lem [] bytes) (atob-btoa bytes h)
