-- ===== src/App/Panels.antt =====
-- Who sees what in frontend/src/App.tsx.
use mirraura.Base.{◌≡◌, ◌↔◌, refl, true, false, text, arith, text_eq_iff}
use mirraura.Types.{Role, admin}
use mirraura.Api.Request.{Outcome}
use mirraura.Api.Endpoints.{Session}
use mirraura.App.{
  App, signed_in, sign_in, dashboard, handle_logout, handle_session_expired, handle_login, role_of,
  page,
}

-- The dashboard is shown exactly for a signed-in user, with the role admin only if the role of the
-- session says so; signing out, an expired session and a session that cannot be read lead to the
-- sign-in page, which tells that the session has expired exactly after an expiry, until the next
-- sign-in.
pub page_lem :
    (a : App) (u : Session) (answer : Outcome (Unit {0}))
    → ((r : Role) → (page a ≡ dashboard u r) ↔ ((a.user ≡ signed_in u) × (r ≡ role_of u)))
      × ((role_of u ≡ admin) ↔ (u.role ≡ text "admin"))
      × (page (handle_login u a) ≡ dashboard u (role_of u))
      × (page (handle_logout answer a) ≡ sign_in a.session_expired)
      × (page (handle_session_expired a) ≡ sign_in true)
      × (page (handle_logout answer (handle_login u (handle_session_expired a))) ≡ sign_in false)
unfolding page handle_logout handle_session_expired handle_login
page_lem a u answer = (
  (λ r. unfold page in (ground arith)),
  unfold role_of in (ground (arith, text_eq_iff u.role (text "admin"))),
  refl,
  refl,
  refl,
  refl,
)
