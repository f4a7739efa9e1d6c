-- ===== src/Api/Hex.antt =====
-- frontend/src/api.ts, lines 53 to 66: the SHA-256 text of a file and its format.
pub mod Format
use mirraura.Base.{
  ℕ, zero, suc, ◌+◌, ◌-◌, ◌/◌, ◌%◌, Bool, ◌&&◌, ◌||◌, List, [], ◌∷◌, ◌++◌, map, Text, text, ltb,
  leb, ◌==◌, if◌then◌else◌, length, all, join,
}
use mirraura.Api.Request.{Outcome, fulfilled, rejected, ◌>>=◌}

-- A hexadecimal digit, in lower case.
abbrev pub hex_digit : ℕ → ℕ
hex_digit n = if ltb n 10 then b'0' + n else 87 + n

-- `b.toString(16)` for a byte.
unfoldable pub to_string_16 : ℕ → Text
to_string_16 b = if ltb b 16 then hex_digit b ∷ [] else hex_digit (b / 16) ∷ hex_digit (b % 16) ∷ []

abbrev pub replicate : ℕ → ℕ → Text
replicate zero c = []
replicate (suc n) c = c ∷ replicate n c

-- `s.padStart(n, c)` for one character.
unfoldable pub pad_start : ℕ → ℕ → Text → Text
pad_start n c s = replicate (n - length s) c ++ s

unfoldable pub hex_byte : ℕ → Text
unfolding to_string_16 pad_start
hex_byte b = pad_start 2 b'0' (to_string_16 b)

unfoldable pub hex_of : List ℕ → Text
unfolding join hex_byte
hex_of bytes = join [] (map hex_byte bytes)

-- `digest` stands for `crypto.subtle.digest("SHA-256", …)`, and `bytes` for what reading the file
-- gives.
unfoldable pub sha256_hex : (List ℕ → Outcome (List ℕ)) → Outcome (List ℕ) → Outcome Text
sha256_hex digest bytes = do buf ← bytes; d ← digest buf; fulfilled (hex_of d)

-- One character of `[a-f0-9]`.
abbrev pub is_hex : ℕ → Bool
is_hex c = (leb b'a' c && leb c b'f') || (leb b'0' c && leb c b'9')

-- `/^[a-f0-9]{64}$/`
unfoldable pub is_valid_sha256 : Text → Bool
is_valid_sha256 value = length value == 64 && all is_hex value
