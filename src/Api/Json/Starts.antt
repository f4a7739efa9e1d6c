-- ===== src/Api/Json/Starts.antt =====
-- The reader of JSON at the start and at the end of arrays and objects as
-- `JSON.stringify(value, null, 2)` lays them out.
use mirraura.Api.Json.Parser.{
  done, Frame, in_array, State, value, first_item, is_number_char, step, after_item, after_member,
  items_of, members_of, in_object, first_key, next_key,
}
use mirraura.Api.Json.Parsed.{
  IsEnd, Ends, go, run-step, skip_line, run_first_key, run_next_key, IsReadable,
}
use mirraura.Base.{
  ℕ, ◌≡◌, ◌≢◌, refl, ap, true, false, List, [], ◌∷◌, ◌++◌, Text, Option, some, All, arith,
  append_assoc, ◌<◌, ◌∙◌, suc,
}
use mirraura.Types.{Double}
use mirraura.Api.Json.{quote}
use mirraura.Api.Json.Pretty.{
  Json, null, boolean, number, string, array, object, Items, no_items, item, Members, no_members,
  member, pretty, pretty_items, pretty_members, line,
}
use mirraura.Api.Json.Strings.{run, follow}

pub ends : (v : Json) (rest : Text) → IsEnd rest → Ends v rest
ends null rest h = tt
ends (boolean b) rest h = tt
ends (number n) rest h = h
ends (string s) rest h = tt
ends (array vs) rest h = tt
ends (object ms) rest h = tt

pub pretty_items-IsEnd :
    (number_text : Double → Text) (d : ℕ) (vs : Items) (rest : Text)
    → IsEnd (pretty_items number_text d vs ++ rest)
unfolding pretty
pretty_items-IsEnd number_text d no_items rest = refl
pretty_items-IsEnd number_text d (item v vs) rest = refl

pub pretty_members-IsEnd :
    (number_text : Double → Text) (d : ℕ) (ms : Members) (rest : Text)
    → IsEnd (pretty_members number_text d ms ++ rest)
unfolding pretty
pretty_members-IsEnd number_text d no_members rest = refl
pretty_members-IsEnd number_text d (member k v ms) rest = refl

module _ (number_text : Double → Text) (read_number : Text → Option Double) where
  abbrev pub goes : State → Text → Option State
  goes = go number_text read_number

  step_first :
      (fs : List Frame) (c : ℕ)
      → is_number_char c ≡ true
      → step read_number (first_item fs) c ≡ step read_number (value (in_array [] ∷ fs)) c
  unfolding step
  step_first fs c h = ground arith

  first_number :
      (fs : List Frame) (s rest : Text)
      → s ≢ []
      → All (λ c. is_number_char c ≡ true) s
      → goes (first_item fs) (s ++ rest) ≡ goes (value (in_array [] ∷ fs)) (s ++ rest)
  unfolding run
  first_number fs [] rest e h = absurd (e refl)
  first_number fs (c ∷ s) rest e h =
      ap (λ o. follow o (λ next. goes next (s ++ rest))) (step_first fs c h.0)

  -- A value is no bracket, so that it is the first item.
  first_value :
      (d : ℕ) (v : Json) (fs : List Frame) (rest : Text)
      → IsReadable number_text read_number v
      → goes (first_item fs) (pretty number_text d v ++ rest)
        ≡ goes (value (in_array [] ∷ fs)) (pretty number_text d v ++ rest)
  unfolding run step pretty quote IsReadable
  first_value d null fs rest u = refl
  first_value d (boolean true) fs rest u = refl
  first_value d (boolean false) fs rest u = refl
  first_value d (number n) fs rest u = first_number fs (number_text n) rest (u.2) (u.1)
  first_value d (string s) fs rest u = refl
  first_value d (array no_items) fs rest u = refl
  first_value d (array (item v vs)) fs rest u = refl
  first_value d (object no_members) fs rest u = refl
  first_value d (object (member k v ms)) fs rest u = refl

  skips :
      (st : State) (d : ℕ) (s t : Text)
      → step read_number st 10 ≡ some st
      → step read_number st b' ' ≡ some st
      → goes st ((line d ++ s) ++ t) ≡ goes st (s ++ t)
  skips st d s t n e =
      ap (goes st) (append_assoc (line d) s t) ∙ skip_line number_text read_number st d (s ++ t) n e

  steps :
      (st next : State) (c : ℕ) (s : Text)
      → step read_number st c ≡ some next
      → goes st (c ∷ s) ≡ goes next s
  steps = run-step number_text read_number

  pub first_item_starts :
      (d : ℕ) (v : Json) (fs : List Frame) (behind rest : Text)
      → IsReadable number_text read_number v
      → goes
          (value fs)
          (b'[' ∷ ((line (suc d) ++ (pretty number_text (suc d) v ++ behind)) ++ rest))
        ≡ goes (value (in_array [] ∷ fs)) (pretty number_text (suc d) v ++ (behind ++ rest))
  unfolding step
  first_item_starts d v fs behind rest u =
      let shown = pretty number_text (suc d) v in
      steps (value fs) (first_item fs) b'[' _ refl
      ∙ skips (first_item fs) (suc d) (shown ++ behind) rest refl refl
      ∙ ap (goes (first_item fs)) (append_assoc shown behind rest)
      ∙ first_value (suc d) v fs (behind ++ rest) u

  pub item_starts :
      (d : ℕ) (acc : List Json) (v : Json) (fs : List Frame) (behind rest : Text)
      → goes
          (after_item acc fs)
          (b',' ∷ ((line (suc d) ++ (pretty number_text (suc d) v ++ behind)) ++ rest))
        ≡ goes (value (in_array acc ∷ fs)) (pretty number_text (suc d) v ++ (behind ++ rest))
  unfolding step
  item_starts d acc v fs behind rest =
      let shown = pretty number_text (suc d) v in
      let st = value (in_array acc ∷ fs) in
      steps (after_item acc fs) st b',' _ refl
      ∙ skips st (suc d) (shown ++ behind) rest refl refl
      ∙ ap (goes st) (append_assoc shown behind rest)

  pub items_end :
      (d : ℕ) (acc : List Json) (fs : List Frame) (rest : Text)
      → goes (after_item acc fs) ((line d ++ b']' ∷ []) ++ rest)
        ≡ goes (done (array (items_of acc)) fs) rest
  unfolding step
  items_end d acc fs rest =
      skips (after_item acc fs) d (b']' ∷ []) rest refl refl
      ∙ steps (after_item acc fs) (done (array (items_of acc)) fs) b']' rest refl

  -- The text of a member behind its name.
  named :
      (st next : State) (k shown behind rest : Text)
      → ((s : Text) → goes st (quote k ++ b':' ∷ b' ' ∷ s) ≡ goes next s)
      → goes st ((quote k ++ b':' ∷ b' ' ∷ (shown ++ behind)) ++ rest)
        ≡ goes next (shown ++ (behind ++ rest))
  named st next k shown behind rest h =
      ap (goes st) (append_assoc (quote k) (b':' ∷ b' ' ∷ (shown ++ behind)) rest)
      ∙ h ((shown ++ behind) ++ rest)
      ∙ ap (goes next) (append_assoc shown behind rest)

  pub first_member_starts :
      (d : ℕ) (k : Text) (v : Json) (fs : List Frame) (behind rest : Text)
      → All (λ c. c < 65536) k
      → goes (value fs) (
          b'{'
          ∷ ((line (suc d) ++ (quote k ++ b':' ∷ b' ' ∷ (pretty number_text (suc d) v ++ behind)))
              ++ rest))
        ≡ goes (value (in_object [] k ∷ fs)) (pretty number_text (suc d) v ++ (behind ++ rest))
  unfolding step
  first_member_starts d k v fs behind rest h =
      let shown = pretty number_text (suc d) v in
      steps (value fs) (first_key fs) b'{' _ refl
      ∙ skips (first_key fs) (suc d) (quote k ++ b':' ∷ b' ' ∷ (shown ++ behind)) rest refl refl
      ∙ named (first_key fs) (value (in_object [] k ∷ fs)) k shown behind rest
          (λ s. run_first_key number_text read_number k fs s h)

  pub member_starts :
      (d : ℕ) (acc : List (Text × Json)) (k : Text) (v : Json) (fs : List Frame)
      (behind rest : Text)
      → All (λ c. c < 65536) k
      → goes (after_member acc fs) (
          b','
          ∷ ((line (suc d) ++ (quote k ++ b':' ∷ b' ' ∷ (pretty number_text (suc d) v ++ behind)))
              ++ rest))
        ≡ goes (value (in_object acc k ∷ fs)) (pretty number_text (suc d) v ++ (behind ++ rest))
  unfolding step
  member_starts d acc k v fs behind rest h =
      let shown = pretty number_text (suc d) v in
      steps (after_member acc fs) (next_key acc fs) b',' _ refl
      ∙ skips (next_key acc fs) (suc d) (quote k ++ b':' ∷ b' ' ∷ (shown ++ behind)) rest refl refl
      ∙ named (next_key acc fs) (value (in_object acc k ∷ fs)) k shown behind rest
          (λ s. run_next_key number_text read_number k acc fs s h)

  pub members_end :
      (d : ℕ) (acc : List (Text × Json)) (fs : List Frame) (rest : Text)
      → goes (after_member acc fs) ((line d ++ b'}' ∷ []) ++ rest)
        ≡ goes (done (object (members_of acc)) fs) rest
  unfolding step
  members_end d acc fs rest =
      skips (after_member acc fs) d (b'}' ∷ []) rest refl refl
      ∙ steps (after_member acc fs) (done (object (members_of acc)) fs) b'}' rest refl

  pub no_items_lem :
      (fs : List Frame) (rest : Text)
      → goes (value fs) (b'[' ∷ b']' ∷ rest) ≡ goes (done (array no_items) fs) rest
  unfolding run step
  no_items_lem fs rest = refl

  pub no_members_lem :
      (fs : List Frame) (rest : Text)
      → goes (value fs) (b'{' ∷ b'}' ∷ rest) ≡ goes (done (object no_members) fs) rest
  unfolding run step
  no_members_lem fs rest = refl
