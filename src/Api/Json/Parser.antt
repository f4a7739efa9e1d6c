-- ===== src/Api/Json/Parser.antt =====
-- A reader of JSON, one code unit at a time, with the open arrays and objects on a stack.
use mirraura.Base.{
  ℕ, Bool, true, false, ◌||◌, ◌&&◌, leb, ◌==◌, List, [], ◌∷◌, ◌++◌, Text, Option, none, some,
  if◌then◌else◌,
}
use mirraura.Types.{Double}
use mirraura.Api.Json.Pretty.{
  Json, null, boolean, number, string, array, object, Items, no_items, item, Members, no_members,
  member,
}
use mirraura.Api.Json.Strings.{Escape, plain, when, run, string_step, follow}

-- An open array with its items, or an open object with its members and the key of the next.
pub data Frame : Type 0 where
  in_array : List Json → Frame
  in_object : List (Text × Json) → Text → Frame

pub data State : Type 0 where
  value : List Frame → State
  first_item first_key : List Frame → State
  next_key : List (Text × Json) → List Frame → State
  in_string : Escape → Text → List Frame → State
  in_key : Escape → Text → List (Text × Json) → List Frame → State
  before_colon : Text → List (Text × Json) → List Frame → State
  in_number : Text → List Frame → State
  in_word : Text → Json → List Frame → State
  after_item : List Json → List Frame → State
  after_member : List (Text × Json) → List Frame → State
  finished : Json → State

abbrev pub items_of : List Json → Items
items_of [] = no_items
items_of (v ∷ vs) = item v (items_of vs)

abbrev pub members_of : List (Text × Json) → Members
members_of [] = no_members
members_of ((k, v) ∷ ms) = member k v (members_of ms)

-- A value is complete.
abbrev pub done : Json → List Frame → State
done v [] = finished v
done v (in_array vs ∷ fs) = after_item (vs ++ v ∷ []) fs
done v (in_object ms k ∷ fs) = after_member (ms ++ (k, v) ∷ []) fs

abbrev pub is_space : ℕ → Bool
is_space c = c == b' ' || c == 10 || c == 13 || c == 9

abbrev pub is_number_char : ℕ → Bool
is_number_char c =
    (leb b'0' c && leb c b'9') || c == b'-' || c == b'+' || c == b'.' || c == b'e' || c == b'E'

-- The rest of a literal.
abbrev word_step : Text → Json → List Frame → ℕ → Option State
word_step [] v fs c = none
word_step (x ∷ []) v fs c = when (c == x) (done v fs)
word_step (x ∷ y ∷ s) v fs c = when (c == x) (in_word (y ∷ s) v fs)

abbrev pub value_step : List Frame → ℕ → Option State
value_step fs c =
    if is_space c
    then some (value fs)
    else if c == b'['
    then some (first_item fs)
    else if c == b'{'
    then some (first_key fs)
    else if c == b'"'
    then some (in_string plain [] fs)
    else if c == b't'
    then some (in_word (b'r' ∷ b'u' ∷ b'e' ∷ []) (boolean true) fs)
    else if c == b'f'
    then some (in_word (b'a' ∷ b'l' ∷ b's' ∷ b'e' ∷ []) (boolean false) fs)
    else if c == b'n'
    then some (in_word (b'u' ∷ b'l' ∷ b'l' ∷ []) null fs)
    else when (is_number_char c) (in_number (c ∷ []) fs)

abbrev pub key_step : List (Text × Json) → List Frame → ℕ → Option State
key_step ms fs c =
    if is_space c then some (next_key ms fs) else when (c == b'"') (in_key plain [] ms fs)

-- Behind a value.
abbrev pub after_step : State → ℕ → Option State
after_step (after_item vs fs) c =
    if is_space c
    then some (after_item vs fs)
    else if c == b','
    then some (value (in_array vs ∷ fs))
    else when (c == b']') (done (array (items_of vs)) fs)
after_step (after_member ms fs) c =
    if is_space c
    then some (after_member ms fs)
    else if c == b','
    then some (next_key ms fs)
    else when (c == b'}') (done (object (members_of ms)) fs)
after_step (finished v) c = when (is_space c) (finished v)
after_step _ c = none

module _ (read_number : Text → Option Double) where
  unfoldable pub step : State → ℕ → Option State
  step (value fs) c = value_step fs c
  step (first_item fs) c =
      if is_space c
      then some (first_item fs)
      else if c == b']'
      then some (done (array no_items) fs)
      else value_step (in_array [] ∷ fs) c
  step (first_key fs) c =
      if is_space c
      then some (first_key fs)
      else if c == b'}'
      then some (done (object no_members) fs)
      else key_step [] fs c
  step (next_key ms fs) c = key_step ms fs c
  step (in_string e cur fs) c =
      string_step (λ e' t. in_string e' t fs) (λ t. done (string t) fs) e cur c
  step (in_key e cur ms fs) c =
      string_step (λ e' t. in_key e' t ms fs) (λ t. before_colon t ms fs) e cur c
  step (before_colon k ms fs) c =
      if is_space c
      then some (before_colon k ms fs)
      else when (c == b':') (value (in_object ms k ∷ fs))
  step (in_number cur fs) c =
      let ends = follow (read_number cur) (λ n. after_step (done (number n) fs) c) in
      if is_number_char c then some (in_number (cur ++ c ∷ []) fs) else ends
  step (in_word s v fs) c = word_step s v fs c
  step (after_item vs fs) c = after_step (after_item vs fs) c
  step (after_member ms fs) c = after_step (after_member ms fs) c
  step (finished v) c = after_step (finished v) c

  abbrev pub result : Option State → Option Json
  result none = none
  result (some (finished v)) = some v
  result (some _) = none

  unfoldable pub parse : Text → Option Json
  unfolding run step
  parse s = result (run step (value []) s)
