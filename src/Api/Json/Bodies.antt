-- ===== src/Api/Json/Bodies.antt =====
-- What the server reads of the bodies that frontend/src/api.ts sends as application/json.
use mirraura.Base.{◌<◌, ◌≡◌, List, [], ◌∷◌, Text, text, Option, none, some, All, arith}
use mirraura.Types.{Role, admin, analyst}
use mirraura.Api.Request.{Call}
use mirraura.Api.Endpoints.{login, create_user, submit_hash, role_text}
use mirraura.Api.Json.{json_text}
use mirraura.Api.Json.Reader.{read_object, read_object-stringify}

abbrev read_text : Option Text → Option (List (Text × Text))
read_text none = none
read_text (some s) = read_object s

-- The fields that a reader finds in the body of a call.
abbrev pub fields_received : Call → Option (List (Text × Text))
fields_received call = read_text (json_text call.body)

abbrev pub IsUnits : Text → Type 0
IsUnits s = All (λ c. c < 65536) s

name-IsUnits : IsUnits (text "username")
unfolding text
name-IsUnits = omega arith

password-IsUnits : IsUnits (text "password")
unfolding text
password-IsUnits = omega arith

hash-IsUnits : IsUnits (text "hash")
unfolding text
hash-IsUnits = omega arith

label-IsUnits : IsUnits (text "label")
unfolding text
label-IsUnits = omega arith

role-IsUnits : IsUnits (text "role")
unfolding text
role-IsUnits = omega arith

role_text-IsUnits : (role : Role) → IsUnits (role_text role)
unfolding text
role_text-IsUnits admin = omega arith
role_text-IsUnits analyst = omega arith

-- Whatever is typed into the forms: a reader of the bodies of `login`, `createUser` and `submitHash`
-- finds just the fields of the source with just what was typed, so that no name, password, hash or
-- label can change another field or add one.
pub fields_received_lem :
    (name value : Text) (role : Role)
    → IsUnits name
    → IsUnits value
    → (fields_received (login name value)
        ≡ some ((text "username", name) ∷ (text "password", value) ∷ []))
      × (fields_received (create_user name value role)
          ≡ some (
              (text "username", name)
              ∷ (text "password", value)
              ∷ (text "role", role_text role)
              ∷ []))
      × (fields_received (submit_hash name value)
          ≡ some ((text "hash", name) ∷ (text "label", value) ∷ []))
unfolding login create_user submit_hash json_text
fields_received_lem name value role n v = (
  read_object-stringify _ ((name-IsUnits, n), ((password-IsUnits, v), tt)),
  read_object-stringify _
      ((name-IsUnits, n), ((password-IsUnits, v), ((role-IsUnits, role_text-IsUnits role), tt))),
  read_object-stringify _ ((hash-IsUnits, n), ((label-IsUnits, v), tt)),
)
