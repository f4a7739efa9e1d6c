-- ===== src/Api/Uri/Reader.antt =====
-- A decoder for the text that `encodeURIComponent` makes, and the round trip.
use mirraura.Base.{
  Option-cases, inl, inr, false, zero, suc, Bool-cases, ◌∙◌, All-append, ℕ, ◌+◌, ◌-◌, ◌*◌, ◌<◌, ◌≡◌,
  refl, ap, List, [], ◌∷◌, ◌++◌, map, Text, ltb, ◌==◌, if◌then◌else◌, none, some, flatten, All,
  arith, suc, ◌∙◌, true, false, inl, inr,
}
use mirraura.Api.Uri.{code_points, utf8, is_unreserved, percent, encode_point, encode_uri_component}
use mirraura.Api.Uri.Decode.{
  IsUriChar, IsUnit16, units_of, IsPoint, utf8-IsByte, code_points-IsPoint, units_of-code_points,
  encode_point-IsUriChar,
}

data Scan : Type 0 where
  plain start : Scan
  digit : ℕ → Scan

abbrev hex_value : ℕ → ℕ
hex_value c = if ltb c b'A' then c - b'0' else c - 55

unpercent : Scan → Text → List ℕ
unpercent _ [] = []
unpercent plain (c ∷ s) =
    let escape = unpercent start s in
    let kept = c ∷ unpercent plain s in if c == b'%' then escape else kept
unpercent start (c ∷ s) = unpercent (digit (hex_value c)) s
unpercent (digit h) (c ∷ s) = (h * 16 + hex_value c) ∷ unpercent plain s

-- The bytes still to come of a code point, and the value so far.
data Need : Type 0 where
  ready : Need
  more : ℕ → ℕ → Need

read_utf8 : Need → List ℕ → List ℕ
read_utf8 _ [] = []
read_utf8 ready (b ∷ s) =
    let one = b ∷ read_utf8 ready s in
    let two = read_utf8 (more 0 (b - 192)) s in
    let three = read_utf8 (more 1 (b - 224)) s in
    let four = read_utf8 (more 2 (b - 240)) s in
    if ltb b 128 then one else if ltb b 224 then two else if ltb b 240 then three else four
read_utf8 (more zero v) (b ∷ s) = (v * 64 + (b - 128)) ∷ read_utf8 ready s
read_utf8 (more (suc k) v) (b ∷ s) = read_utf8 (more k (v * 64 + (b - 128))) s

unpercent_byte :
    (b : ℕ) (s : Text) → b < 256 → unpercent plain (percent b ++ s) ≡ b ∷ unpercent plain s
unfolding unpercent
unpercent_byte b s h = ground arith

unpercent_bytes :
    (bs : List ℕ) (s : Text)
    → All (λ b. b < 256) bs
    → unpercent plain (flatten (map percent bs) ++ s) ≡ bs ++ unpercent plain s
unpercent_bytes [] s h = refl
unpercent_bytes (b ∷ bs) s h =
    unpercent_byte b (flatten (map percent bs) ++ s) h.0 ∙ ap (◌∷◌ b) (unpercent_bytes bs s h.1)

utf8_unreserved : (c : ℕ) → is_unreserved c ≡ true → (utf8 c ≡ c ∷ []) × ((c == b'%') ≡ false)
unfolding utf8 is_unreserved
utf8_unreserved c h = ground arith

unpercent_kept :
    (c : ℕ) (s : Text) → (c == b'%') ≡ false → unpercent plain (c ∷ s) ≡ c ∷ unpercent plain s
unfolding unpercent
unpercent_kept c s h = ground arith

unpercent_point :
    (c : ℕ) (s : Text)
    → IsPoint c
    → unpercent plain (encode_point c ++ s) ≡ utf8 c ++ unpercent plain s
unfolding encode_point
unpercent_point c s h = elim (Bool-cases (is_unreserved c)) [
  | inl e ↦ let (alone, other) = utf8_unreserved c e in rw (e, alone) (unpercent_kept c s other)
  | inr e ↦ rw e (unpercent_bytes (utf8 c) s (utf8-IsByte c h))
]

read_utf8_point :
    (c : ℕ) (s : List ℕ) → IsPoint c → read_utf8 ready (utf8 c ++ s) ≡ c ∷ read_utf8 ready s
unfolding utf8 read_utf8
read_utf8_point c s h = ground arith

unpercent_points :
    (ps : List ℕ)
    → All IsPoint ps
    → unpercent plain (flatten (map encode_point ps)) ≡ flatten (map utf8 ps)
unpercent_points [] h = unfold unpercent in refl
unpercent_points (c ∷ ps) h =
    unpercent_point c (flatten (map encode_point ps)) h.0
    ∙ ap (◌++◌ (utf8 c)) (unpercent_points ps h.1)

read_utf8_points : (ps : List ℕ) → All IsPoint ps → read_utf8 ready (flatten (map utf8 ps)) ≡ ps
read_utf8_points [] h = unfold read_utf8 in refl
read_utf8_points (c ∷ ps) h =
    read_utf8_point c (flatten (map utf8 ps)) h.0 ∙ ap (◌∷◌ c) (read_utf8_points ps h.1)

points-IsUriChar : (ps : List ℕ) → All IsPoint ps → All IsUriChar (flatten (map encode_point ps))
points-IsUriChar [] h = tt
points-IsUriChar (c ∷ ps) h =
    All-append IsUriChar (encode_point c) (flatten (map encode_point ps))
      (encode_point-IsUriChar c h.0) (points-IsUriChar ps h.1)

-- The text that a reader makes of an encoded one.
pub decode_uri_component : Text → Text
decode_uri_component t = units_of (read_utf8 ready (unpercent plain t))

-- A text of UTF-16 code units that `encodeURIComponent` accepts becomes a text of unreserved
-- characters and `%` alone, which decodes to the text that was given.
pub encode_uri_component-round_trip :
    (s t : Text)
    → All IsUnit16 s
    → encode_uri_component s ≡ some t
    → All IsUriChar t × (decode_uri_component t ≡ s)
unfolding encode_uri_component decode_uri_component
encode_uri_component-round_trip s t h e = elim (Option-cases (code_points none s)) [
  | inl refused ↦ cc (rw refused at e)
  | inr (ps, found) ↦
      let points : All IsPoint ps = rw found at (code_points-IsPoint none s tt h) in
      let units : units_of ps ≡ s = rw found at (units_of-code_points none s tt h) in
      let same : flatten (map encode_point ps) ≡ t = cc (rw found at e) in
      rw (← same, unpercent_points ps points, read_utf8_points ps points)
        (points-IsUriChar ps points, units)
]
