-- ===== src/Api/Hex/Format.antt =====
-- The text that `sha256Hex` of frontend/src/api.ts makes is read back, and passes `isValidSha256`.
use mirraura.Base.{
  ℕ, ◌+◌, ◌-◌, ◌*◌, ◌/◌, ◌%◌, ◌<◌, ◌≡◌, ◌↔◌, refl, ap, true, List, ◌⊎◌, [], ◌∷◌, Text, ltb,
  if◌then◌else◌, length, all, All, arith, Option, none, some, ◌≤◌,
}
use mirraura.Api.Request.{Outcome, fulfilled}
use mirraura.Api.Hex.{hex_digit, hex_byte, hex_of, sha256_hex, is_hex, is_valid_sha256}

hex_byte_lem : (b : ℕ) → b < 256 → hex_byte b ≡ hex_digit (b / 16) ∷ hex_digit (b % 16) ∷ []
unfolding hex_byte
hex_byte_lem b h = ground arith

hex_of_cons :
    (b : ℕ) (bs : List ℕ)
    → b < 256
    → hex_of (b ∷ bs) ≡ hex_digit (b / 16) ∷ hex_digit (b % 16) ∷ hex_of bs
unfolding hex_of
hex_of_cons b [] h = rw (hex_byte_lem b h) refl
hex_of_cons b (c ∷ bs) h = rw (hex_byte_lem b h) refl

hex_digit-is_hex : (n : ℕ) → n < 16 → is_hex (hex_digit n) ≡ true
hex_digit-is_hex n h = ground arith

hex_of-is_hex : (bs : List ℕ) → All (λ b. b < 256) bs → all is_hex (hex_of bs) ≡ true
hex_of-is_hex [] h = unfold hex_of in refl
hex_of-is_hex (b ∷ bs) h =
    rw
      (
        hex_of_cons b bs h.0,
        hex_digit-is_hex (b / 16) (omega arith),
        hex_digit-is_hex (b % 16) (omega arith),
      )
      (hex_of-is_hex bs h.1)

length-hex_of : (bs : List ℕ) → All (λ b. b < 256) bs → length (hex_of bs) ≡ 2 * length bs
length-hex_of [] h = unfold hex_of in refl
length-hex_of (b ∷ bs) h = rw (hex_of_cons b bs h.0) (omega (arith, length-hex_of bs h.1))

-- The value of a digit, and the bytes that a text of digits spells, as a reader takes them.
abbrev pub digit_value : ℕ → ℕ
digit_value c = if ltb c b'a' then c - b'0' else c - 87

abbrev cons_byte : ℕ → ℕ → Option (List ℕ) → Option (List ℕ)
cons_byte h l none = none
cons_byte h l (some bs) = some ((digit_value h * 16 + digit_value l) ∷ bs)

abbrev pub read_hex : Text → Option (List ℕ)
read_hex [] = some []
read_hex (_ ∷ []) = none
read_hex (h ∷ l ∷ s) = cons_byte h l (read_hex s)

digit_value-hex_digit : (n : ℕ) → n < 16 → digit_value (hex_digit n) ≡ n
digit_value-hex_digit n h = ground arith

read_hex-hex_of : (bs : List ℕ) → All (λ b. b < 256) bs → read_hex (hex_of bs) ≡ some bs
read_hex-hex_of [] h = unfold hex_of in refl
read_hex-hex_of (b ∷ bs) h =
    rw
      (
        hex_of_cons b bs h.0,
        read_hex-hex_of bs h.1,
        digit_value-hex_digit (b / 16) (omega arith),
        digit_value-hex_digit (b % 16) (omega arith),
      )
      (ap (λ c. some (c ∷ bs)) (omega arith))

-- If the digest of the file is a list of bytes, the hash text spells exactly these bytes, and it
-- passes `isValidSha256` exactly when there are 32 of them.
pub sha256_hex-valid :
    (digest : List ℕ → Outcome (List ℕ)) (bytes d : List ℕ)
    → digest bytes ≡ fulfilled d
    → All (λ b. b < 256) d
    → (h : Text) × (sha256_hex digest (fulfilled bytes) ≡ fulfilled h)
      × (read_hex h ≡ some d)
      × ((is_valid_sha256 h ≡ true) ↔ (length d ≡ 32))
unfolding sha256_hex is_valid_sha256
sha256_hex-valid digest bytes d e h = (
  hex_of d,
  rw e refl,
  read_hex-hex_of d h,
  rw (hex_of-is_hex d h, length-hex_of d h) (ground arith),
)

abbrev pub IsHexDigit : ℕ → Type 0
IsHexDigit c = ((b'0' ≤ c) × (c ≤ b'9')) ⊎ ((b'a' ≤ c) × (c ≤ b'f'))

all-is_hex_iff : (s : Text) → (all is_hex s ≡ true) ↔ All IsHexDigit s
all-is_hex_iff [] = ((λ _. tt), λ _. refl)
all-is_hex_iff (c ∷ s) = ground (arith, all-is_hex_iff s)

-- `isValidSha256` accepts exactly the texts of 64 lower-case hexadecimal digits.
pub is_valid_sha256_iff :
    (s : Text) → (is_valid_sha256 s ≡ true) ↔ ((length s ≡ 64) × All IsHexDigit s)
unfolding is_valid_sha256
is_valid_sha256_iff s = ground (arith, all-is_hex_iff s)
