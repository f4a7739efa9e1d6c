-- ===== src/Api/Json/Reader.antt =====
-- A reader of JSON objects whose fields are strings, and that it reads what `JSON.stringify` makes of
-- the fields that frontend/src/api.ts sends.
use mirraura.Base.{
  ℕ, ◌<◌, ◌≡◌, refl, ◌∙◌, List, [], ◌∷◌, ◌++◌, map, Text, join, ◌==◌, if◌then◌else◌, Option, none,
  some, All, append_assoc, ap, sym,
}
use mirraura.Api.Json.{quote, stringify_field, stringify}
use mirraura.Api.Json.Strings.{Escape, plain, when, run, string_step, run-quote}

-- What has been read. `none` in the place of a key stands for the key itself being read.
pub data State : Type 0 where
  opening opened : State
  before : Option Text → List (Text × Text) → State
  inside : Option Text → Escape → Text → List (Text × Text) → State
  before_colon : Text → List (Text × Text) → State
  behind finished : List (Text × Text) → State

abbrev close : Option Text → List (Text × Text) → Text → State
close none fields cur = before_colon cur fields
close (some key) fields cur = behind (fields ++ (key, cur) ∷ [])

unfoldable pub step : State → ℕ → Option State
step opening c = when (c == b'{') opened
step opened c = if c == b'"' then some (inside none plain [] []) else when (c == b'}') (finished [])
step (before key fields) c = when (c == b'"') (inside key plain [] fields)
step (inside key escape cur fields) c =
    string_step (λ e t. inside key e t fields) (close key fields) escape cur c
step (before_colon key fields) c = when (c == b':') (before (some key) fields)
step (behind fields) c =
    if c == b',' then some (before none fields) else when (c == b'}') (finished fields)
step (finished fields) c = none

abbrev result : Option State → Option (List (Text × Text))
result none = none
result (some (finished fields)) = some fields
result (some _) = none

pub read_object : Text → Option (List (Text × Text))
unfolding run step
read_object s = result (run step opening s)

run_string :
    (key : Option Text) (fields : List (Text × Text)) (s rest : Text)
    → All (λ c. c < 65536) s
    → run step (before key fields) (quote s ++ rest) ≡ run step (close key fields s) rest
unfolding step
run_string key fields s rest h =
    run-quote step (λ e t. inside key e t fields) (close key fields) (λ e cur c. refl)
      (before key fields) s rest refl h

abbrev pub AreUnits : Text × Text → Type 0
AreUnits (name, value) = All (λ c. c < 65536) name × All (λ c. c < 65536) value

run_colon :
    (name : Text) (fields : List (Text × Text)) (rest : Text)
    → run step (before_colon name fields) (b':' ∷ rest) ≡ run step (before (some name) fields) rest
unfolding run step
run_colon name fields rest = refl

run_field :
    (fields : List (Text × Text)) (f : Text × Text) (rest : Text)
    → AreUnits f
    → run step (before none fields) (stringify_field f ++ rest)
      ≡ run step (behind (fields ++ f ∷ [])) rest
unfolding stringify_field
run_field fields (name, value) rest (n, v) =
    ap (run step (before none fields)) (append_assoc (quote name) (b':' ∷ quote value) rest)
    ∙ run_string none fields name (b':' ∷ (quote value ++ rest)) n
    ∙ run_colon name fields (quote value ++ rest)
    ∙ run_string (some name) fields value rest v

abbrev joined : List (Text × Text) → Text
joined fields = join (b',' ∷ []) (map stringify_field fields)

joined_one : (f : Text × Text) → joined (f ∷ []) ≡ stringify_field f
unfolding join
joined_one f = refl

joined_more :
    (f g : Text × Text) (fields : List (Text × Text)) (rest : Text)
    → joined (f ∷ g ∷ fields) ++ rest ≡ stringify_field f ++ b',' ∷ (joined (g ∷ fields) ++ rest)
unfolding join
joined_more f g fields rest = append_assoc (stringify_field f) (b',' ∷ joined (g ∷ fields)) rest

run_end :
    (fields : List (Text × Text)) → run step (behind fields) (b'}' ∷ []) ≡ some (finished fields)
unfolding run step
run_end fields = refl

run_comma :
    (fields : List (Text × Text)) (s : Text)
    → run step (behind fields) (b',' ∷ s) ≡ run step (before none fields) s
unfolding run step
run_comma fields s = refl

run_fields :
    (read : List (Text × Text)) (f : Text × Text) (fields : List (Text × Text))
    → All AreUnits (f ∷ fields)
    → run step (before none read) (joined (f ∷ fields) ++ b'}' ∷ [])
      ≡ some (finished (read ++ f ∷ fields))
run_fields read f [] (h, _) =
    ap (λ s. run step (before none read) (s ++ b'}' ∷ [])) (joined_one f)
    ∙ run_field read f (b'}' ∷ []) h
    ∙ run_end (read ++ f ∷ [])
run_fields read f (g ∷ fields) (h, hs) =
    let rest = joined (g ∷ fields) ++ b'}' ∷ [] in
    ap (run step (before none read)) (joined_more f g fields (b'}' ∷ []))
    ∙ run_field read f (b',' ∷ rest) h
    ∙ run_comma (read ++ f ∷ []) rest
    ∙ run_fields (read ++ f ∷ []) g fields hs
    ∙ ap (λ fs. some (finished fs)) (append_assoc read (f ∷ []) (g ∷ fields))

run_brace :
    (f : Text × Text) (s : Text)
    → run step opening (b'{' ∷ (stringify_field f ++ s))
      ≡ run step (before none []) (stringify_field f ++ s)
unfolding run step stringify_field quote
run_brace (name, value) s = refl

run_open :
    (f : Text × Text) (fields : List (Text × Text)) (s : Text)
    → run step opening (b'{' ∷ (joined (f ∷ fields) ++ s))
      ≡ run step (before none []) (joined (f ∷ fields) ++ s)
run_open f [] s =
    ap (λ t. run step opening (b'{' ∷ (t ++ s))) (joined_one f)
    ∙ run_brace f s
    ∙ ap (λ t. run step (before none []) (t ++ s)) (sym (joined_one f))
run_open f (g ∷ fields) s =
    ap (λ t. run step opening (b'{' ∷ t)) (joined_more f g fields s)
    ∙ run_brace f (b',' ∷ (joined (g ∷ fields) ++ s))
    ∙ ap (run step (before none [])) (sym (joined_more f g fields s))

-- The reader gives back the fields of an object, whatever code units their names and values hold.
pub read_object-stringify :
    (fields : List (Text × Text))
    → All AreUnits fields
    → read_object (stringify fields) ≡ some fields
unfolding stringify read_object run step join
read_object-stringify [] h = refl
read_object-stringify (f ∷ fields) h =
    ap result (run_open f fields (b'}' ∷ []) ∙ run_fields [] f fields h)
