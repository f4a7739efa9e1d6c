-- ===== src/Login/Submit.antt =====
-- Signing in by frontend/src/components/LoginPage.tsx.
use mirraura.Base.{◌≡◌, ◌≢◌, ◌↔◌, ◌⊎◌, true, false, [], trim, none, some, arith}
use mirraura.Api.Request.{Outcome, fulfilled, rejected}
use mirraura.Api.Endpoints.{Session, login}
use mirraura.Login.{LoginPage, handle_submit, submit_answered}

-- The form calls exactly when neither the trimmed name nor the password is empty, with these two; it
-- is busy from then on. Whatever the answer, it is no longer busy, the session that is handed on is
-- the one of the answer, and without a session there is an error and the inputs are kept.
pub login_submit_iff :
    (p : LoginPage) (answer : Outcome Session)
    → let (q, call) = handle_submit p in
      let (r, session) = submit_answered answer q in
      ((call ≡ none) ↔ ((trim p.username_value ≡ []) ⊎ (p.password ≡ [])))
      × (call ≢ none
          → (call ≡ some (login (trim p.username_value) p.password))
            × (q.busy ≡ true)
            × (q.error ≡ none))
      × (r.busy ≡ false)
      × ((user : Session) → (session ≡ some user) ↔ (answer ≡ fulfilled user))
      × (session ≡ none → r.error ≢ none)
      × (r.password ≡ p.password)
      × (r.username_value ≡ p.username_value)
unfolding handle_submit submit_answered
login_submit_iff p (fulfilled user) = ground arith
login_submit_iff p (rejected e) = ground arith
