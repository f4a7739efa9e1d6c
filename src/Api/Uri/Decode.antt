-- ===== src/Api/Uri/Decode.antt =====
-- What `encodeURIComponent` makes holds only characters that cannot end a path segment, and is
-- read back by a decoder.
use mirraura.Base.{
  ℕ, ◌/◌, ◌%◌, ◌<◌, ◌≡◌, refl, ap, true, ◌||◌, List, [], ◌∷◌, ◌++◌, map, Text, ◌==◌, Option, none,
  some, flatten, All, arith, code_units, IfSome, Bool-cases, inl, inr, IfSome-map,
}
use mirraura.Api.Uri.{
  is_high, is_low, code_points, utf8, is_unreserved, upper_hex, percent, encode_point, pair,
}

-- A character that is kept, or one of an escape.
abbrev pub IsUriChar : ℕ → Type 0
IsUriChar c = (is_unreserved c || c == b'%') ≡ true

upper_hex-IsUriChar : (n : ℕ) → n < 16 → IsUriChar (upper_hex n)
unfolding is_unreserved
upper_hex-IsUriChar n h = ground arith

abbrev IsByte : ℕ → Type 0
IsByte b = b < 256

pub utf8-IsByte : (c : ℕ) → c < 1114112 → All IsByte (utf8 c)
unfolding utf8
utf8-IsByte c h = ground arith

percent_sign : IsUriChar b'%'
unfolding is_unreserved
percent_sign = refl

percents-IsUriChar : (bs : List ℕ) → All IsByte bs → All IsUriChar (flatten (map percent bs))
percents-IsUriChar [] h = tt
percents-IsUriChar (b ∷ bs) h = (
  percent_sign,
  (
    upper_hex-IsUriChar (b / 16) (omega arith),
    (upper_hex-IsUriChar (b % 16) (omega arith), percents-IsUriChar bs h.1),
  ),
)

pub encode_point-IsUriChar : (c : ℕ) → c < 1114112 → All IsUriChar (encode_point c)
unfolding encode_point
encode_point-IsUriChar c h = ground (arith, percents-IsUriChar (utf8 c), utf8-IsByte c)

abbrev pub IsUnit16 : ℕ → Type 0
IsUnit16 c = c < 65536

abbrev pub IsPoint : ℕ → Type 0
IsPoint c = c < 1114112

abbrev IsPending : Option ℕ → Type 0
IsPending = IfSome (λ h. is_high h ≡ true)

pair-IsPoint : (h l : ℕ) → is_high h ≡ true → is_low l ≡ true → IsPoint (pair h l)
unfolding is_high is_low
pair-IsPoint h l p q = ground arith

pub code_points-IsPoint :
    (o : Option ℕ) (s : Text)
    → IsPending o
    → All IsUnit16 s
    → IfSome (All IsPoint) (code_points o s)
unfolding code_points
code_points-IsPoint none [] p h = tt
code_points-IsPoint (some x) [] p h = tt
code_points-IsPoint none (c ∷ s) p h = elim (Bool-cases (is_high c)) [
  | inl e ↦ rw e (code_points-IsPoint (some c) s e h.1)
  | inr e ↦ elim (Bool-cases (is_low c)) [
    | inl l ↦ rw (e, l) tt
    | inr l ↦
        rw (e, l)
          (IfSome-map (All IsPoint) (All IsPoint) (◌∷◌ c) (code_points none s)
            (λ ps r. (omega (arith, h.0), r)) (code_points-IsPoint none s tt h.1))
  ]
]
code_points-IsPoint (some x) (c ∷ s) p h = elim (Bool-cases (is_low c)) [
  | inl l ↦ rw l (
      IfSome-map (All IsPoint) (All IsPoint) (◌∷◌ (pair x c)) (code_points none s)
        (λ ps r. (pair-IsPoint x c p l, r)) (code_points-IsPoint none s tt h.1))
  | inr l ↦ rw l tt
]

abbrev held : Option ℕ → Text
held none = []
held (some h) = h ∷ []

abbrev pub units_of : List ℕ → Text
units_of ps = flatten (map code_units ps)

code_units-pair :
    (h l : ℕ) → is_high h ≡ true → is_low l ≡ true → code_units (pair h l) ≡ h ∷ l ∷ []
unfolding is_high is_low code_units
code_units-pair h l p q = ground arith

code_units_plain : (c : ℕ) → c < 65536 → code_units c ≡ c ∷ []
unfolding code_units
code_units_plain c h = ground arith

-- The code points stand for the units that were read.
pub units_of-code_points :
    (o : Option ℕ) (s : Text)
    → IsPending o
    → All IsUnit16 s
    → IfSome (λ ps. units_of ps ≡ held o ++ s) (code_points o s)
unfolding code_points
units_of-code_points none [] p h = refl
units_of-code_points (some x) [] p h = tt
units_of-code_points none (c ∷ s) p h = elim (Bool-cases (is_high c)) [
  | inl e ↦ rw e (units_of-code_points (some c) s e h.1)
  | inr e ↦ elim (Bool-cases (is_low c)) [
    | inl l ↦ rw (e, l) tt
    | inr l ↦
        rw (e, l)
          (IfSome-map (λ ps. units_of ps ≡ s) (λ ps. units_of ps ≡ c ∷ s) (◌∷◌ c)
            (code_points none s) (λ ps r. rw (code_units_plain c h.0) (ap (◌∷◌ c) r))
            (units_of-code_points none s tt h.1))
  ]
]
units_of-code_points (some x) (c ∷ s) p h = elim (Bool-cases (is_low c)) [
  | inl l ↦ rw l (
      IfSome-map (λ ps. units_of ps ≡ s) (λ ps. units_of ps ≡ x ∷ c ∷ s) (◌∷◌ (pair x c))
        (code_points none s) (λ ps r. rw (code_units-pair x c p l) (ap (λ t. x ∷ c ∷ t) r))
        (units_of-code_points none s tt h.1))
  | inr l ↦ rw l tt
]
