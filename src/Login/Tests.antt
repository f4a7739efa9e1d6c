-- ===== src/Login/Tests.antt =====
-- frontend/src/components/LoginPage.tsx at a concrete input.
use mirraura.Base.{◌≡◌, ◌≢◌, ◌↔◌, ◌⊎◌, trim, none, some, text, [], true, false}
use mirraura.Api.Request.{fulfilled}
use mirraura.Api.Endpoints.{Session, login}
use mirraura.Login.{LoginPage, start, handle_submit, submit_answered}
use mirraura.Login.Submit.{login_submit_iff}

abbrev filled : LoginPage
filled = record start { username_value = text " ada "; password = text "secret" }

abbrev ada : Session
ada = record { username = text "ada"; role = text "admin" }

login_submit_iff_example :
    let (q, call) = handle_submit filled in
    let (r, session) = submit_answered (fulfilled ada) q in
    ((call ≡ none) ↔ ((trim filled.username_value ≡ []) ⊎ (filled.password ≡ [])))
    × (call ≢ none
        → (call ≡ some (login (trim filled.username_value) filled.password))
          × (q.busy ≡ true)
          × (q.error ≡ none))
    × (r.busy ≡ false)
    × ((user : Session) → (session ≡ some user) ↔ (fulfilled ada ≡ fulfilled user))
    × (session ≡ none → r.error ≢ none)
    × (r.password ≡ filled.password)
    × (r.username_value ≡ filled.username_value)
login_submit_iff_example = login_submit_iff filled (fulfilled ada)
