-- ===== src/Users/Answers.antt =====
-- How the user management of frontend/src/components/UserManagement.tsx calls and takes answers.
use mirraura.Base.{
  ℕ, ◌≡◌, ◌≢◌, ◌↔◌, refl, true, false, [], ◌∷◌, ◌++◌, Text, text, none, some, All, arith,
}
use mirraura.Api.Request.{
  fulfilled, rejected, Failure, api_error, other_error, no_error, has_status, delete, no_body,
}
use mirraura.Api.Uri.{encode_uri_component}
use mirraura.Api.Endpoints.{delete_user}
use mirraura.Review.{session_expired}
use mirraura.Users.{
  Users, refetch_answered, create_answered, delete_answered, role_change_answered, confirm_delete,
  ask_delete,
}
use mirraura.Api.Uri.Decode.{IsUnit16}
use mirraura.Api.Uri.Reader.{decode_uri_component, encode_uri_component-round_trip}

-- The form holds the same.
abbrev pub Typed : Users → Users → Type 0
Typed d c = (d.username ≡ c.username) × (d.password ≡ c.password) × (d.role ≡ c.role)

-- Whatever call fails, the session expires exactly on status 401, and then nothing of the page
-- changes; on any other failure loading and creating show a message on the page, deleting and
-- changing a role leave the page as it was, and none of them loses the users, what was typed or chosen in the
-- form, or the open question.
pub rejected_calls :
    (e : Failure) (name : Text) (c : Users)
    → let load = refetch_answered (rejected e) c in
      let create = create_answered name (rejected e) c in
      let remove = delete_answered name (rejected e) c in
      let change = role_change_answered (rejected e) c in
      ((load.1 ≡ session_expired ∷ []) ↔ (has_status 401 e ≡ true))
      × ((create.1 ≡ session_expired ∷ []) ↔ (has_status 401 e ≡ true))
      × ((remove.1 ≡ session_expired ∷ []) ↔ (has_status 401 e ≡ true))
      × ((change.1 ≡ session_expired ∷ []) ↔ (has_status 401 e ≡ true))
      × (has_status 401 e ≡ true → (load.0 ≡ c) × (create.0 ≡ c))
      × (has_status 401 e ≡ false → (load.0.error ≢ none) × (create.0.error ≢ none))
      × (remove.0 ≡ c)
      × (change.0 ≡ c)
      × (load.0.users ≡ c.users)
      × (create.0.users ≡ c.users)
      × Typed load.0 c
      × Typed create.0 c
      × (load.0.pending_delete ≡ c.pending_delete)
      × (create.0.pending_delete ≡ c.pending_delete)
unfolding refetch_answered create_answered delete_answered role_change_answered
rejected_calls (api_error m s) name c = ground arith
rejected_calls (other_error m) name c = ground arith
rejected_calls no_error name c = ground arith

-- Asking about a user, whose name is not empty and can be encoded, and confirming closes the question,
-- changes nothing else of the page, and makes one DELETE call under the collection of users, whose
-- last part is decoded to exactly the name of that user.
pub confirm_delete-ask :
    (x : ℕ) (name e : Text) (c : Users)
    → All IsUnit16 (x ∷ name)
    → encode_uri_component (x ∷ name) ≡ some e
    → let d = confirm_delete (ask_delete (x ∷ name) c) in
      (d.0 ≡ record c { pending_delete = none })
      × (d.1
          ≡ some (
              fulfilled
                (record { path = text "/api/users/" ++ e; method = delete; body = no_body })))
      × (decode_uri_component e ≡ x ∷ name)
unfolding confirm_delete ask_delete delete_user
confirm_delete-ask x name e c h found =
    (refl, rw found refl, (encode_uri_component-round_trip (x ∷ name) e h found).1)
