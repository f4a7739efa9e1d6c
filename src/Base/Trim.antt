-- ===== src/Base/Trim.antt =====
-- `s.trim()` of the language: white space and line ends go from both sides.
use Prim.Native.Nat.{ℕ}
use mathlib.Core.Path.{◌≡◌, refl}
use mathlib.Core.Bool.{Bool, false, ◌&&◌, ◌||◌, true}
use mathlib.Core.List.{[], ◌∷◌, reverse, ◌++◌, reverse-cons, reverse-append, reverse-reverse}
use native.Mathlib.Omega.{arith}
use mirraura.Base.Tests.{leb, ◌==◌, if◌then◌else◌}
use mirraura.Base.Texts.{Text}

-- Tab, line ends, space, and the space characters of Unicode.
unfoldable pub is_space : ℕ → Bool
is_space c =
    (leb 9 c && leb c 13)
    || c == 32
    || c == 160
    || c == 0x1680
    || (leb 0x2000 c && leb c 0x200a)
    || c == 0x2028
    || c == 0x2029
    || c == 0x202f
    || c == 0x205f
    || c == 0x3000
    || c == 0xfeff

unfoldable pub trim_start : Text → Text
trim_start [] = []
trim_start (c ∷ s) = if is_space c then trim_start s else c ∷ s

unfoldable pub trim : Text → Text
trim s = reverse (trim_start (reverse (trim_start s)))

-- The first character, if there is one, is no space.
abbrev pub IsTrimmed : Text → Type 0
IsTrimmed [] = Unit
IsTrimmed (c ∷ s) = is_space c ≡ false

trim_start-IsTrimmed : (s : Text) → IsTrimmed (trim_start s)
unfolding trim_start
trim_start-IsTrimmed [] = tt
trim_start-IsTrimmed (c ∷ s) = ground (arith, trim_start-IsTrimmed s)

unfoldable pub all_space : Text → Bool
all_space [] = true
all_space (c ∷ s) = is_space c && all_space s

trim_start-append : (a s : Text) → all_space a ≡ true → trim_start (a ++ s) ≡ trim_start s
unfolding all_space trim_start
trim_start-append [] s h = refl
trim_start-append (c ∷ a) s h = ground (arith, trim_start-append a s)

trim_start_same : (s : Text) → IsTrimmed s → trim_start s ≡ s
unfolding trim_start
trim_start_same [] h = refl
trim_start_same (c ∷ s) h = ground arith

all_space-append : (a b : Text) → all_space (a ++ b) ≡ all_space a && all_space b
unfolding all_space
all_space-append [] b = refl
all_space-append (c ∷ a) b = ground (arith, all_space-append a b)

all_space-reverse : (s : Text) → all_space s ≡ true → all_space (reverse s) ≡ true
unfolding all_space
all_space-reverse [] h = refl
all_space-reverse (c ∷ s) h =
    rw (reverse-cons c s, all_space-append (reverse s) (c ∷ []))
      (ground (arith, all_space-reverse s))

-- White space around a text whose ends are no space is what `trim` takes away.
pub trim_padded :
    (a b : Text) (c : ℕ) (s : Text)
    → all_space a ≡ true
    → all_space b ≡ true
    → IsTrimmed (c ∷ s)
    → IsTrimmed (reverse (c ∷ s))
    → trim (a ++ ((c ∷ s) ++ b)) ≡ c ∷ s
unfolding trim
trim_padded a b c s ha hb hs hr =
    rw
      (
        trim_start-append a ((c ∷ s) ++ b) ha,
        trim_start_same ((c ∷ s) ++ b) hs,
        reverse-append (c ∷ s) b,
        trim_start-append (reverse b) (reverse (c ∷ s)) (all_space-reverse b hb),
        trim_start_same (reverse (c ∷ s)) hr,
      )
      (reverse-reverse (c ∷ s))
