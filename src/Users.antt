-- ===== src/Users.antt =====
-- frontend/src/components/UserManagement.tsx
pub mod Answers
mod Tests
use mirraura.Base.{
  ℕ, Bool, List, [], ◌∷◌, ◌++◌, Text, text, map, Option, none, some, is_some, if◌then◌else◌,
}
use mirraura.Types.{Role, admin, analyst}
use mirraura.Toast.{ToastTone, success}
use mirraura.Api.Request.{
  Outcome, fulfilled, rejected, Failure, other_error, message_or, has_status, Call,
}
use mirraura.Api.Endpoints.{UserEntry, fetch_users, create_user, delete_user, update_user_role}
use mirraura.Review.{Effect, session_expired, pushed, calls}

pub record Users : Type 0 where
  pub users : List UserEntry
  pub username : Text
  pub password : Text
  pub role : Role
  pub error : Option Text
  pub pending_delete : Option Text

abbrev pub start : Users
start = record {
  users = [];
  username = [];
  password = [];
  role = analyst;
  error = none;
  pending_delete = none;
}

abbrev pub refetch : List (Effect UserEntry)
refetch = calls fetch_users ∷ []

unfoldable pub refetch_answered : Outcome (List UserEntry) → Users → Users × List (Effect UserEntry)
refetch_answered (fulfilled users) c = (record c { users = users }, [])
refetch_answered (rejected e) c =
    if has_status 401 e
    then (c, session_expired ∷ [])
    else (record c { error = some (message_or (text "failed to load users") e) }, [])

unfoldable pub handle_create : Users → Users × List (Effect UserEntry)
handle_create c = (record c { error = none }, calls (create_user c.username c.password c.role) ∷ [])

-- `username` is the name that was in the form when the call was made.
unfoldable pub create_answered : Text → Outcome (Unit {0}) → Users → Users × List (Effect UserEntry)
create_answered username (fulfilled _) c = (
  record c { username = []; password = [] },
  refetch ++ pushed (text "Created user " ++ username) success ∷ [],
)
create_answered username (rejected e) c =
    if has_status 401 e
    then (c, session_expired ∷ [])
    else (record c { error = some (message_or (text "failed to create user") e) }, [])

-- What a `catch` clause of the table does: it tells the message by a toast.
abbrev told : Text → Failure → Users → Users × List (Effect UserEntry)
told fallback e c = (
  c,
  (if has_status 401 e then session_expired else pushed (message_or fallback e) ToastTone.error)
      ∷ [],
)

-- The call, or the failure to make it: a name that is no well-formed text throws a `URIError`.
abbrev pub uri_error : Failure
uri_error = other_error (text "URI malformed")

abbrev attempt : Option Call → Outcome Call
attempt none = rejected uri_error
attempt (some call) = fulfilled call

unfoldable pub handle_delete : Text → Users → Users × Outcome Call
handle_delete target c = (record c { pending_delete = none }, attempt (delete_user target))

unfoldable pub delete_answered : Text → Outcome (Unit {0}) → Users → Users × List (Effect UserEntry)
delete_answered target (fulfilled _) c =
    (c, refetch ++ pushed (text "Removed user " ++ target) success ∷ [])
delete_answered target (rejected e) c = told (text "failed to remove user") e c

unfoldable pub handle_role_change : Text → Role → Users → Users × Outcome Call
handle_role_change target new_role c = (c, attempt (update_user_role target new_role))

unfoldable pub role_change_answered : Outcome (Unit {0}) → Users → Users × List (Effect UserEntry)
role_change_answered (fulfilled _) c = (c, refetch)
role_change_answered (rejected e) c = told (text "failed to change role") e c

unfoldable pub ask_delete : Text → Users → Users
ask_delete target c = record c { pending_delete = some target }

unfoldable pub cancel_delete : Users → Users
cancel_delete c = record c { pending_delete = none }

-- `pendingDelete && handleDelete(pendingDelete)`: the empty name is no name.
unfoldable pub confirm_delete : Users → Users × Option (Outcome Call)
unfolding handle_delete
confirm_delete c = elim c.pending_delete [
  | none ↦ (c, none)
  | some target ↦ elim target [
    | [] ↦ (c, none)
    | x ∷ rest ↦ let (d, call) = handle_delete (x ∷ rest) c in (d, some call)
  ]
]

unfoldable pub change_username : Text → Users → Users
change_username value c = record c { username = value }

unfoldable pub change_password : Text → Users → Users
change_password value c = record c { password = value }

unfoldable pub change_role : Role → Users → Users
change_role value c = record c { role = value }

-- What is rendered.
pub record UserRow : Type 0 where
  pub username : Text
  pub role : Role

pub record View : Type 0 where
  pub error : Option Text
  pub rows : List UserRow
  pub form : Text × Text × Role
  pub dialog_open : Bool
  pub dialog_title : Text
  pub dialog_description : Text
  pub confirm_label : Text

abbrev target_of : Option Text → Text
target_of none = []
target_of (some target) = target

unfoldable pub view : Users → View
view c = record {
  error = c.error;
  rows = map (λ (u : UserEntry). record { username = u.username; role = u.role }) c.users;
  form = (c.username, c.password, c.role);
  dialog_open = is_some c.pending_delete;
  dialog_title = text "Remove this user?";
  dialog_description = target_of c.pending_delete ++ text " will no longer be able to sign in.";
  confirm_label = text "Remove";
}
