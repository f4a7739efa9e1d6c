-- ===== src/App/Connected.antt =====
-- The session of frontend/src/App.tsx together with the live connection of frontend/src/api.ts: the
-- effect on the user opens a connection for each session and closes it with the session.
pub mod Served
use mirraura.Base.{
  suc, ltb, length, ◌≡◌, refl, Bool, true, false, List, [], ◌∷◌, Text, Option, none, some, is_some,
  IfSome, if◌then◌else◌, arith, ◌⊎◌, inr, inl, Option-cases, Bool-cases, All, ◌++◌, ◌∙◌, All-middle,
  All-replace,
}
use mirraura.Api.Request.{Outcome}
use mirraura.Api.Endpoints.{Session}
use mirraura.Api.Live.{LiveMessage, Source as LiveSource}
use mirraura.Api.Socket.{
  offline, close, Connection, ConnectionState, connect_live, opened, received, failed, dropped,
  elapsed, closes, on_open, on_message, on_close, on_error, connect, live, connecting,
}
use mirraura.Api.Socket
use mirraura.App.{
  start, App, UserState, unknown, signed_out, signed_in, me_answered, handle_login, handle_logout,
  handle_session_expired, handle_message, connection_changed,
}
use mirraura.Api.Socket.Session.{IsQuiet-Step, Reach-IsSound}

-- What a callback of the connection was given in a step from one list of its calls to the next.
abbrev pub newest {ℓ} : {A : Type ℓ} → List A → List A → Option A
newest old [] = none
newest old (x ∷ xs) = if ltb (length old) (suc (length xs)) then some x else none

abbrev pub with_status : Option ConnectionState → App → App
with_status none a = a
with_status (some state) a = connection_changed state a

abbrev pub with_message : Option LiveMessage → App → App
with_message none a = a
with_message (some m) a = handle_message m a

abbrev pub is_signed_in : UserState → Bool
is_signed_in unknown = false
is_signed_in signed_out = false
is_signed_in (signed_in u) = true

-- The page, the connection that the cleanup of the effect on the user closes over, and those of earlier
-- effects.
pub record World : Type 0 where
  pub app : App
  pub connection : Option Connection
  pub earlier : List Connection

-- The cleanup that the effect has returned, if it has.
unfoldable pub cleanup : Option Connection → List Connection → List Connection
unfolding close
cleanup none cs = cs
cleanup (some c) cs = close c ∷ cs

-- The effect on a user that has changed, after its cleanup: for a user, a connection, whose first
-- status is told at once.
unfoldable pub user_effect : UserState → App → List Connection → World
unfolding connect_live
user_effect (signed_in u) a cs = record {
  app = with_status (newest [] connect_live.statuses) a;
  connection = some connect_live;
  earlier = cs;
}
user_effect unknown a cs = record { app = a; connection = none; earlier = cs }
user_effect signed_out a cs = record { app = a; connection = none; earlier = cs }

-- The page with a user that has changed.
unfoldable pub user_changed : App → World → World
unfolding cleanup user_effect
user_changed a w = user_effect a.user a (cleanup w.connection w.earlier)

-- What the callbacks of a connection have told the page in a step from `c` to `d`.
abbrev pub told : Connection → Connection → App → App
told c d a =
    with_message (newest c.messages d.messages) (with_status (newest c.statuses d.statuses) a)

abbrev pub begin_world : World
begin_world = record { app = start; connection = none; earlier = [] }

module _ (parse : Text → Option LiveMessage) where
  -- A step of the browser: the effect's cleanup alone calls `close`.
  abbrev pub OfBrowser : {c d : Connection} → Socket.Step parse c d → Type 0
  OfBrowser (closes e) = ⊥
  OfBrowser _ = Unit

  pub data Step (w v : World) : Type 0 where
    knows : (answer : Outcome Session) → v ≡ user_changed (me_answered answer w.app) w → Step w v
    logs_in : (u : Session) → v ≡ user_changed (handle_login u w.app) w → Step w v
    logs_out :
        (answer : Outcome (Unit {0})) → v ≡ user_changed (handle_logout answer w.app) w → Step w v
    expires : v ≡ user_changed (handle_session_expired w.app) w → Step w v
    -- An event of the connection.
    hears :
        (c d : Connection) (s : Socket.Step parse c d)
        → OfBrowser s
        → w.connection ≡ some c
        → v ≡ record w { app = told c d w.app; connection = some d }
        → Step w v
    -- An event of one of an earlier effect, whose callbacks are the page's own.
    lingers :
        (before : List Connection) (c d : Connection) (after : List Connection)
        (s : Socket.Step parse c d)
        → OfBrowser s
        → w.earlier ≡ before ++ c ∷ after
        → v ≡ record w { app = told c d w.app; earlier = before ++ d ∷ after }
        → Step w v

  pub data Reach : World → Type 0 where
    begin : Reach begin_world
    next : {w v : World} → Reach w → Step w v → Reach v
