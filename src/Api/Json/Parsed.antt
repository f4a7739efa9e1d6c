-- ===== src/Api/Json/Parsed.antt =====
-- The reader of JSON on the parts of the text that `JSON.stringify(value, null, 2)` makes.
use mirraura.Base.{
  ℕ, zero, suc, ◌<◌, ◌≡◌, ◌≢◌, refl, sym, ap, ◌∙◌, Bool, true, false, List, [], ◌∷◌, ◌++◌, Text,
  Option, some, All, append_assoc, append-nil, arith,
}
use mirraura.Types.{Double}
use mirraura.Api.Json.{quote}
use mirraura.Api.Json.Pretty.{
  Json, null, boolean, number, string, array, object, Items, no_items, item, Members, no_members,
  member, spaces, line, boolean_text,
}
use mirraura.Api.Json.Strings.{run, follow, run-quote}
use mirraura.Api.Json.Parser.{
  Frame, in_array, in_object, State, value, first_key, next_key, in_string, in_key, before_colon,
  in_number, items_of, members_of, done, is_number_char, step, after_step,
}

-- The text of a number is read back and holds only characters of numbers.
abbrev pub IsReadNumber : (Double → Text) → (Text → Option Double) → Double → Type 0
IsReadNumber number_text read_number n =
    (read_number (number_text n) ≡ some n)
    × All (λ c. is_number_char c ≡ true) (number_text n)
    × (number_text n ≢ [])

-- The strings and the names of a value are texts of UTF-16 code units, and its numbers are read back.
module _ (number_text : Double → Text) (read_number : Text → Option Double) where
  unfoldable mutual
    pub IsReadable : Json → Type 0
    IsReadable null = Unit
    IsReadable (boolean b) = Unit
    IsReadable (number n) = IsReadNumber number_text read_number n
    IsReadable (string s) = All (λ c. c < 65536) s
    IsReadable (array vs) = ItemsAreReadable vs
    IsReadable (object ms) = MembersAreReadable ms

    pub ItemsAreReadable : Items → Type 0
    ItemsAreReadable no_items = Unit
    ItemsAreReadable (item v vs) = IsReadable v × ItemsAreReadable vs

    pub MembersAreReadable : Members → Type 0
    MembersAreReadable no_members = Unit
    MembersAreReadable (member k v ms) =
        All (λ c. c < 65536) k × IsReadable v × MembersAreReadable ms

abbrev pub list_of : Items → List Json
list_of no_items = []
list_of (item v vs) = v ∷ list_of vs

abbrev pub pairs_of : Members → List (Text × Json)
pairs_of no_members = []
pairs_of (member k v ms) = (k, v) ∷ pairs_of ms

pub items_of-list_of : (vs : Items) → items_of (list_of vs) ≡ vs
items_of-list_of no_items = refl
items_of-list_of (item v vs) = ap (item v) (items_of-list_of vs)

pub members_of-pairs_of : (ms : Members) → members_of (pairs_of ms) ≡ ms
members_of-pairs_of no_members = refl
members_of-pairs_of (member k v ms) = ap (member k v) (members_of-pairs_of ms)

-- What stands behind a number is no part of it.
abbrev pub IsEnd : Text → Type 0
IsEnd [] = ⊥
IsEnd (c ∷ s) = is_number_char c ≡ false

abbrev pub Ends : Json → Text → Type 0
Ends (number n) rest = IsEnd rest
Ends _ rest = Unit

module _ (number_text : Double → Text) (read_number : Text → Option Double) where
  abbrev pub go : State → Text → Option State
  go = run (step read_number)

  pub run-step :
      (st next : State) (c : ℕ) (s : Text)
      → step read_number st c ≡ some next
      → go st (c ∷ s) ≡ go next s
  unfolding run
  run-step st next c s e = ap (λ o. follow o (λ n. go n s)) e

  skip_spaces :
      (st : State) (d : ℕ) (s : Text)
      → step read_number st b' ' ≡ some st
      → go st (spaces d ++ s) ≡ go st s
  skip_spaces st zero s e = refl
  skip_spaces st (suc d) s e =
      run-step st st b' ' (b' ' ∷ (spaces d ++ s)) e
      ∙ run-step st st b' ' (spaces d ++ s) e
      ∙ skip_spaces st d s e

  pub skip_line :
      (st : State) (d : ℕ) (s : Text)
      → step read_number st 10 ≡ some st
      → step read_number st b' ' ≡ some st
      → go st (line d ++ s) ≡ go st s
  skip_line st d s n e = run-step st st 10 (spaces d ++ s) n ∙ skip_spaces st d s e

  run_number_chars :
      (cur : Text) (fs : List Frame) (s rest : Text)
      → All (λ c. is_number_char c ≡ true) s
      → go (in_number cur fs) (s ++ rest) ≡ go (in_number (cur ++ s) fs) rest
  unfolding run step
  run_number_chars cur fs [] rest h = rw (append-nil cur) refl
  run_number_chars cur fs (c ∷ s) rest h = rw (h.0) (
      run_number_chars (cur ++ c ∷ []) fs s rest h.1
      ∙ ap (λ t. go (in_number t fs) rest) (append_assoc cur (c ∷ []) s))

  step-done :
      (v : Json) (fs : List Frame) (c : ℕ)
      → step read_number (done v fs) c ≡ after_step (done v fs) c
  unfolding step
  step-done v [] c = refl
  step-done v (in_array vs ∷ fs) c = refl
  step-done v (in_object ms k ∷ fs) c = refl

  run_number_end :
      (n : Double) (fs : List Frame) (rest : Text)
      → read_number (number_text n) ≡ some n
      → IsEnd rest
      → go (in_number (number_text n) fs) rest ≡ go (done (number n) fs) rest
  unfolding run step
  run_number_end n fs [] r h = elim h [ ]
  run_number_end n fs (c ∷ rest) r h =
      rw (h, r) (ap (λ o. follow o (λ next. go next rest)) (sym (step-done (number n) fs c)))

  step_number_char :
      (fs : List Frame) (c : ℕ)
      → is_number_char c ≡ true
      → step read_number (value fs) c ≡ some (in_number (c ∷ []) fs)
  unfolding step
  step_number_char fs c h = ground arith

  run_number_start :
      (fs : List Frame) (s rest : Text)
      → s ≢ []
      → All (λ c. is_number_char c ≡ true) s
      → go (value fs) (s ++ rest) ≡ go (in_number s fs) rest
  run_number_start fs [] rest e h = absurd (e refl)
  run_number_start fs (c ∷ s) rest e h =
      run-step (value fs) (in_number (c ∷ []) fs) c (s ++ rest) (step_number_char fs c h.0)
      ∙ run_number_chars (c ∷ []) fs s rest h.1

  pub run_number :
      (n : Double) (fs : List Frame) (rest : Text)
      → IsReadNumber number_text read_number n
      → IsEnd rest
      → go (value fs) (number_text n ++ rest) ≡ go (done (number n) fs) rest
  run_number n fs rest (r, chars, nonempty) h =
      run_number_start fs (number_text n) rest nonempty chars ∙ run_number_end n fs rest r h

  pub run_boolean :
      (b : Bool) (fs : List Frame) (rest : Text)
      → go (value fs) (boolean_text b ++ rest) ≡ go (done (boolean b) fs) rest
  unfolding run step
  run_boolean true fs rest = refl
  run_boolean false fs rest = refl

  pub run_null :
      (fs : List Frame) (rest : Text)
      → go (value fs) (b'n' ∷ b'u' ∷ b'l' ∷ b'l' ∷ rest) ≡ go (done null fs) rest
  unfolding run step
  run_null fs rest = refl

  pub run_string :
      (s : Text) (fs : List Frame) (rest : Text)
      → All (λ c. c < 65536) s
      → go (value fs) (quote s ++ rest) ≡ go (done (string s) fs) rest
  unfolding step
  run_string s fs rest h =
      run-quote (step read_number) (λ e t. in_string e t fs) (λ t. done (string t) fs)
        (λ e cur c. refl) (value fs) s rest refl h

  -- A name up to its value, from the first member or from another.
  run_colon :
      (k : Text) (ms : List (Text × Json)) (fs : List Frame) (rest : Text)
      → go (before_colon k ms fs) (b':' ∷ b' ' ∷ rest) ≡ go (value (in_object ms k ∷ fs)) rest
  unfolding run step
  run_colon k ms fs rest = refl

  pub run_next_key :
      (k : Text) (ms : List (Text × Json)) (fs : List Frame) (rest : Text)
      → All (λ c. c < 65536) k
      → go (next_key ms fs) (quote k ++ b':' ∷ b' ' ∷ rest) ≡ go (value (in_object ms k ∷ fs)) rest
  unfolding step
  run_next_key k ms fs rest h =
      run-quote (step read_number) (λ e t. in_key e t ms fs) (λ t. before_colon t ms fs)
        (λ e cur c. refl) (next_key ms fs) k (b':' ∷ b' ' ∷ rest) refl h
      ∙ run_colon k ms fs rest

  pub run_first_key :
      (k : Text) (fs : List Frame) (rest : Text)
      → All (λ c. c < 65536) k
      → go (first_key fs) (quote k ++ b':' ∷ b' ' ∷ rest) ≡ go (value (in_object [] k ∷ fs)) rest
  unfolding step
  run_first_key k fs rest h =
      run-quote (step read_number) (λ e t. in_key e t [] fs) (λ t. before_colon t [] fs)
        (λ e cur c. refl) (first_key fs) k (b':' ∷ b' ' ∷ rest) refl h
      ∙ run_colon k [] fs rest
