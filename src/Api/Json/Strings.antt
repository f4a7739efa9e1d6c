-- ===== src/Api/Json/Strings.antt =====
-- The strings of JSON, read one code unit at a time by a machine whose states are a parameter, and that
-- it reads what `JSON.stringify` makes of a string.
use mirraura.Base.{
  ℕ, suc, ◌+◌, ◌*◌, ◌<◌, ◌≡◌, refl, ◌∙◌, Bool, true, false, [], ◌∷◌, ◌++◌, Text, ltb, ◌==◌,
  if◌then◌else◌, Option, none, some, map_some, All, arith, append_assoc, append-nil, ◌-◌, leb, ◌||◌,
  ◌≤◌, inl, inr, Bool-cases, ◌/◌, ap, ◌%◌,
}
use mirraura.Api.Json.{
  short_escape, unicode_escape, quote_unit, quote_from, quote, is_lone, pairs, escape_by,
}
use mirraura.Api.Hex.{is_hex, hex_digit}

-- Inside a string: where an escape has come to, with the digits read so far and their value.
pub data Escape : Type 0 where
  plain escaped : Escape
  hex : (digits value : ℕ) → Escape

abbrev pub unescape : ℕ → Option ℕ
unescape x =
    if x == b'b'
    then some 8
    else if x == b't'
    then some 9
    else if x == b'n'
    then some 10
    else if x == b'f'
    then some 12
    else if x == b'r'
    then some 13
    else if x == b'"' || x == 92 || x == b'/'
    then some x
    else none

abbrev pub value_of : ℕ → ℕ
value_of c = if ltb c 58 then c - 48 else c - 87

abbrev pub follow {ℓ κ} : {A : Type ℓ} {B : Type κ} → Option A → (A → Option B) → Option B
follow none go = none
follow (some next) go = go next

abbrev pub when {ℓ} : {A : Type ℓ} → Bool → A → Option A
when b st = if b then some st else none

-- A machine on a text.
unfoldable pub run : {S : Type 0} → (S → ℕ → Option S) → S → Text → Option S
run step st [] = some st
run step st (c ∷ s) = follow (step st c) (λ next. run step next s)

-- Inside a string, which `close` ends.
abbrev pub string_step :
    {S : Type 0} → (Escape → Text → S) → (Text → S) → Escape → Text → ℕ → Option S
string_step inside close plain cur c =
    if c == b'"'
    then some (close cur)
    else if c == 92
    then some (inside escaped cur)
    else when (leb 32 c) (inside plain (cur ++ c ∷ []))
string_step inside close escaped cur c =
    if c == b'u'
    then some (inside (hex 0 0) cur)
    else map_some (λ d. inside plain (cur ++ d ∷ [])) (unescape c)
string_step inside close (hex digits value) cur c =
    let v = value * 16 + value_of c in
    when (is_hex c)
      (if digits == 3 then inside plain (cur ++ v ∷ []) else inside (hex (suc digits) v) cur)

short_escape_lem :
    (c letter : ℕ)
    → short_escape c ≡ some letter
    → (unescape letter ≡ some c) × ((letter == b'u') ≡ false)
short_escape_lem c letter e = ground arith

hex_digit_lem : (n : ℕ) → n < 16 → (is_hex (hex_digit n) ≡ true) × (value_of (hex_digit n) ≡ n)
hex_digit_lem n h = ground arith

module _ {S : Type 0} (step : S → ℕ → Option S) (inside : Escape → Text → S) (close : Text → S)
    (law : (e : Escape) (cur : Text) (c : ℕ)
      → step (inside e cur) c ≡ string_step inside close e cur c) where
  run-inside :
      (e : Escape) (cur : Text) (c : ℕ) (s : Text)
      → run step (inside e cur) (c ∷ s)
        ≡ follow (string_step inside close e cur c) (λ next. run step next s)
  unfolding run
  run-inside e cur c s = ap (λ o. follow o (λ next. run step next s)) (law e cur c)

  module _ (cur : Text) where
    -- One digit more, and the last one.
    run_digit :
        (digits value n : ℕ) (s : Text)
        → n < 16
        → digits < 3
        → run step (inside (hex digits value) cur) (hex_digit n ∷ s)
          ≡ run step (inside (hex (suc digits) (value * 16 + n)) cur) s
    run_digit digits value n s h d =
        let l = hex_digit_lem n h in
        let e : (digits == 3) ≡ false = ground arith in
        run-inside (hex digits value) cur (hex_digit n) s ∙ rw (l.0, l.1, e) refl

    run_last_digit :
        (value n : ℕ) (s : Text)
        → n < 16
        → run step (inside (hex 3 value) cur) (hex_digit n ∷ s)
          ≡ run step (inside plain (cur ++ (value * 16 + n) ∷ [])) s
    run_last_digit value n s h =
        let l = hex_digit_lem n h in
        run-inside (hex 3 value) cur (hex_digit n) s ∙ rw (l.0, l.1) refl

    run_backslash :
        (s : Text) → run step (inside plain cur) (92 ∷ s) ≡ run step (inside escaped cur) s
    run_backslash s = run-inside plain cur 92 s

    run_u :
        (s : Text) → run step (inside escaped cur) (b'u' ∷ s) ≡ run step (inside (hex 0 0) cur) s
    run_u s = run-inside escaped cur b'u' s

    run_unicode :
        (c : ℕ) (rest : Text)
        → c < 65536
        → run step (inside plain cur) (unicode_escape c ++ rest)
          ≡ run step (inside plain (cur ++ c ∷ [])) rest
    run_unicode c rest h =
        run_backslash _
        ∙ run_u _
        ∙ run_digit 0 0 (c / 4096) _ (omega arith) (omega arith)
        ∙ run_digit 1 (0 * 16 + c / 4096) (c / 256 % 16) _ (omega arith) (omega arith)
        ∙ run_digit 2 ((0 * 16 + c / 4096) * 16 + c / 256 % 16) (c / 16 % 16) _ (omega arith)
            (omega arith)
        ∙ run_last_digit (((0 * 16 + c / 4096) * 16 + c / 256 % 16) * 16 + c / 16 % 16) (c % 16)
            rest (omega arith)
        ∙ ap (λ v. run step (inside plain (cur ++ v ∷ [])) rest) (omega arith)

    -- A short escape, an escape by number, or the unit itself.
    run_short :
        (c letter : ℕ) (rest : Text)
        → short_escape c ≡ some letter
        → run step (inside plain cur) (92 ∷ letter ∷ rest)
          ≡ run step (inside plain (cur ++ c ∷ [])) rest
    run_short c letter rest e =
        let l = short_escape_lem c letter e in
        run_backslash (letter ∷ rest) ∙ run-inside escaped cur letter rest ∙ rw (l.1, l.0) refl

    run_itself :
        (c : ℕ) (rest : Text)
        → short_escape c ≡ none
        → 32 ≤ c
        → run step (inside plain cur) (c ∷ rest) ≡ run step (inside plain (cur ++ c ∷ [])) rest
    run_itself c rest e h =
        let (q, b, l) : ((c == b'"') ≡ false) × ((c == 92) ≡ false) × (leb 32 c ≡ true) =
          ground arith in
        run-inside plain cur c rest ∙ rw (q, b, l) refl

    run-escape_by :
        (o : Option ℕ) (lone : Bool) (c : ℕ) (rest : Text)
        → short_escape c ≡ o
        → c < 65536
        → run step (inside plain cur) (escape_by o lone c ++ rest)
          ≡ run step (inside plain (cur ++ c ∷ [])) rest
    run-escape_by (some letter) lone c rest e h = run_short c letter rest e
    run-escape_by none lone c rest e h = elim (Bool-cases (ltb c 32 || lone)) [
      | inl t ↦ rw t (run_unicode c rest h)
      | inr f ↦ rw f (run_itself c rest e (ground arith))
    ]

    run_unit :
        (lone : Bool) (c : ℕ) (rest : Text)
        → c < 65536
        → run step (inside plain cur) (quote_unit lone c ++ rest)
          ≡ run step (inside plain (cur ++ c ∷ [])) rest
    unfolding quote_unit
    run_unit lone c rest h = run-escape_by (short_escape c) lone c rest refl h

    run-close :
        (rest : Text) → run step (inside plain cur) (b'"' ∷ rest) ≡ run step (close cur) rest
    run-close rest = run-inside plain cur b'"' rest

  run-quote_from :
      (cur : Text) (paired : Bool) (s rest : Text)
      → All (λ c. c < 65536) s
      → run step (inside plain cur) (quote_from paired s ++ rest) ≡ run step (close (cur ++ s)) rest
  unfolding quote_from
  run-quote_from cur paired [] rest h = rw (append-nil cur) (run-close cur rest)
  run-quote_from cur paired (c ∷ s) rest h =
      let unit = quote_unit (is_lone paired c s) c in
      let tail = quote_from (pairs paired c s) s in
      ap (run step (inside plain cur)) (append_assoc unit tail rest)
      ∙ run_unit cur (is_lone paired c s) c (tail ++ rest) h.0
      ∙ run-quote_from (cur ++ c ∷ []) (pairs paired c s) s rest h.1
      ∙ ap (λ t. run step (close t) rest) (append_assoc cur (c ∷ []) s)

  -- A quoted string, from a state that goes into one at a quote.
  pub run-quote :
      (st : S) (s rest : Text)
      → step st b'"' ≡ some (inside plain [])
      → All (λ c. c < 65536) s
      → run step st (quote s ++ rest) ≡ run step (close s) rest
  unfolding run quote
  run-quote st s rest e h =
      ap (λ o. follow o (λ next. run step next (quote_from false s ++ rest))) e
      ∙ run-quote_from [] false s rest h
