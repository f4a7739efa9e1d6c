-- ===== src/Users/Tests.antt =====
-- frontend/src/components/UserManagement.tsx at concrete inputs.
use mirraura.Base.{◌≡◌, ◌≢◌, ◌↔◌, refl, [], ◌∷◌, text, true, some, none, false, ◌++◌, arith}
use mirraura.Api.Request.{fulfilled, rejected, Failure, api_error, has_status, delete, no_body}
use mirraura.Api.Uri.{encode_uri_component, encode_point, code_points, utf8, is_unreserved}
use mirraura.Api.Uri.Reader.{decode_uri_component}
use mirraura.Review.{session_expired}
use mirraura.Users.{
  start, refetch_answered, create_answered, delete_answered, role_change_answered, confirm_delete,
  ask_delete,
}
use mirraura.Users.Answers.{rejected_calls, confirm_delete-ask, Typed}

abbrev expired : Failure
expired = api_error (text "expired") 401

rejected_calls_example :
    let e = expired in
    let c = start in
    let load = refetch_answered (rejected e) c in
    let create = create_answered (text "ada") (rejected e) c in
    let remove = delete_answered (text "ada") (rejected e) c in
    let change = role_change_answered (rejected e) c in
    ((load.1 ≡ session_expired ∷ []) ↔ (has_status 401 e ≡ true))
    × ((create.1 ≡ session_expired ∷ []) ↔ (has_status 401 e ≡ true))
    × ((remove.1 ≡ session_expired ∷ []) ↔ (has_status 401 e ≡ true))
    × ((change.1 ≡ session_expired ∷ []) ↔ (has_status 401 e ≡ true))
    × (has_status 401 e ≡ true → (load.0 ≡ c) × (create.0 ≡ c))
    × (has_status 401 e ≡ false → (load.0.error ≢ none) × (create.0.error ≢ none))
    × (remove.0 ≡ c)
    × (change.0 ≡ c)
    × (load.0.users ≡ c.users)
    × (create.0.users ≡ c.users)
    × Typed load.0 c
    × Typed create.0 c
    × (load.0.pending_delete ≡ c.pending_delete)
    × (create.0.pending_delete ≡ c.pending_delete)
rejected_calls_example = rejected_calls expired (text "ada") start

encoded_name : encode_uri_component (b'a' ∷ 47 ∷ []) ≡ some (text "a%2F")
unfolding encode_uri_component encode_point code_points utf8 is_unreserved text
encoded_name = refl

confirm_delete-ask_example :
    let d = confirm_delete (ask_delete (b'a' ∷ 47 ∷ []) start) in
    (d.0 ≡ record start { pending_delete = none })
    × (d.1
        ≡ some (
            fulfilled (record {
              path = text "/api/users/" ++ text "a%2F";
              method = delete;
              body = no_body;
            })))
    × (decode_uri_component (text "a%2F") ≡ b'a' ∷ 47 ∷ [])
confirm_delete-ask_example =
    confirm_delete-ask b'a' (47 ∷ []) (text "a%2F") start (omega arith) encoded_name
