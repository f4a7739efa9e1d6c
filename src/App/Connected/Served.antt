-- ===== src/App/Connected/Served.antt =====
-- The connections of frontend/src/App.tsx and frontend/src/api.ts through the sessions: what holds after any
-- events.
use mirraura.Base.{
  ◌≡◌, refl, true, false, List, [], ◌∷◌, Text, Option, none, some, is_some, IfSome, arith, ◌⊎◌, inr,
  inl, Option-cases, Bool-cases, All, ◌++◌, ◌∙◌, All-middle, All-replace,
}
use mirraura.Api.Live.{LiveMessage, Source as LiveSource}
use mirraura.Api.Socket.{
  offline, close, Connection, ConnectionState, connect_live, opened, received, failed, dropped,
  elapsed, closes, on_open, on_message, on_close, on_error, connect, live, connecting,
}
use mirraura.Api.Socket
use mirraura.App.{
  App, UserState, unknown, signed_out, signed_in, me_answered, handle_login, handle_logout,
  handle_session_expired, handle_message, connection_changed,
}
use mirraura.Api.Socket.Session.{IsQuiet-Step, Reach-IsSound}
use mirraura.App.Connected.{
  newest, with_status, with_message, is_signed_in, World, cleanup, user_effect, user_changed, told,
  OfBrowser, Step, knows, logs_in, logs_out, expires, hears, lingers, Reach, begin, next,
}

module _ (parse : Text → Option LiveMessage) where
  -- The status that the header shows is the last one of the connection.
  abbrev pub IsLatest : ConnectionState → List ConnectionState → Type 0
  IsLatest state [] = ⊥
  IsLatest state (s ∷ ss) = state ≡ s

  pub record IsServed (a : App) (c : Connection) : Type 0 where
    pub reached : Socket.Reach parse c
    pub open_still : c.closed ≡ false
    pub latest : IsLatest a.conn_state c.statuses

  -- A connection that the cleanup has closed.
  abbrev pub IsClosed : Connection → Type 0
  IsClosed c = Socket.Reach parse c × (c.closed ≡ true)

  pub record IsConnected (w : World) : Type 0 where
    pub paired : is_some w.connection ≡ is_signed_in w.app.user
    pub served : IfSome (IsServed w.app) w.connection
    pub closed : All IsClosed w.earlier

  with_message-same :
      (o : Option LiveMessage) (a : App)
      → ((with_message o a).user ≡ a.user) × ((with_message o a).conn_state ≡ a.conn_state)
  unfolding handle_message
  with_message-same none a = (refl, refl)
  with_message-same (some (LiveMessage.event s e)) a = (refl, refl)
  with_message-same (some (LiveMessage.verdict LiveSource.sample v)) a = (refl, refl)
  with_message-same (some (LiveMessage.verdict LiveSource.monitor v)) a = (refl, refl)
  with_message-same (some LiveMessage.isolated) a = (refl, refl)
  with_message-same (some LiveMessage.reconnected) a = (refl, refl)

  Step-statuses :
      {c d : Connection}
      → Socket.Step parse c d
      → (d.statuses ≡ c.statuses) ⊎ ((state : ConnectionState) × (d.statuses ≡ state ∷ c.statuses))
  unfolding on_open on_message on_close on_error connect close
  Step-statuses (opened w e) = inr (live, rw e refl)
  Step-statuses {c} (received frame w e) = elim (Option-cases (parse frame)) [
    | inl n ↦ inl (rw (e, n, on_message) refl)
    | inr (m, n) ↦ inl (rw (e, n, on_message) refl)
  ]
  Step-statuses (failed w u e) = inl (rw e refl)
  Step-statuses {c} (dropped w u e) = elim (Bool-cases c.closed) [
    | inl b ↦ inl (rw (e, b) refl)
    | inr b ↦ inr (offline, rw (e, b) refl)
  ]
  Step-statuses {c} (elapsed delay t e) = elim (Bool-cases c.closed) [
    | inl b ↦ inl (rw (e, b) refl)
    | inr b ↦ inr (connecting, rw (e, b) refl)
  ]
  Step-statuses (closes e) = inl (rw e refl)

  newest-none {ℓ} : {A : Type ℓ} (xs : List A) → newest xs xs ≡ none
  newest-none [] = refl
  newest-none (x ∷ xs) = ground arith

  newest-some {ℓ} : {A : Type ℓ} (x : A) (xs : List A) → newest xs (x ∷ xs) ≡ some x
  newest-some x xs = ground arith

  with_status-user : (o : Option ConnectionState) (a : App) → (with_status o a).user ≡ a.user
  unfolding connection_changed
  with_status-user none a = refl
  with_status-user (some state) a = refl

  -- A status that a step of the connection tells is its last one, and without one nothing changes.
  with_status-IsLatest :
      (a : App) (before after : List ConnectionState)
      → (after ≡ before) ⊎ ((state : ConnectionState) × (after ≡ state ∷ before))
      → IsLatest a.conn_state before
      → IsLatest (with_status (newest before after) a).conn_state after
  unfolding connection_changed
  with_status-IsLatest a before after (inl e) h = rw (e, newest-none before) h
  with_status-IsLatest a before after (inr (state, e)) h = rw (e, newest-some state before) refl

  -- Every connection of an earlier effect has been closed.
  cleanup-IsClosed :
      (a : App) (o : Option Connection) (cs : List Connection)
      → IfSome (IsServed a) o
      → All IsClosed cs
      → All IsClosed (cleanup o cs)
  unfolding cleanup close
  cleanup-IsClosed a none cs h k = k
  cleanup-IsClosed a (some c) cs h k = ((Socket.next h.reached (closes refl), refl), k)

  effect-IsConnected :
      (u : UserState) (a : App) (cs : List Connection)
      → a.user ≡ u
      → All IsClosed cs
      → IsConnected (user_effect u a cs)
  unfolding user_effect connection_changed connect_live connect
  effect-IsConnected unknown a cs e k = record { paired = rw e refl; served = tt; closed = k }
  effect-IsConnected signed_out a cs e k = record { paired = rw e refl; served = tt; closed = k }
  effect-IsConnected (signed_in u) a cs e k = record {
    paired = rw e refl;
    served = record { reached = Socket.begin; open_still = refl; latest = refl };
    closed = k;
  }

  user_changed-IsConnected : (a : App) (w : World) → IsConnected w → IsConnected (user_changed a w)
  unfolding user_changed
  user_changed-IsConnected a w k =
      effect-IsConnected a.user a (cleanup w.connection w.earlier) refl
        (cleanup-IsClosed w.app w.connection w.earlier k.served k.closed)

  browser-closed :
      {c d : Connection} (s : Socket.Step parse c d) → OfBrowser parse s → d.closed ≡ c.closed
  unfolding on_open on_message on_close on_error connect
  browser-closed (opened w e) b = rw e refl
  browser-closed (received frame w e) b = ground arith
  browser-closed (failed w u e) b = rw e refl
  browser-closed (dropped w u e) b = ground arith
  browser-closed (elapsed delay t e) b = ground arith
  browser-closed (closes e) b = absurd b

  hears-IsConnected :
      (w : World) (c d : Connection) (s : Socket.Step parse c d)
      → OfBrowser parse s
      → w.connection ≡ some c
      → IsConnected w
      → IsConnected (record w { app = told c d w.app; connection = some d })
  hears-IsConnected w c d s b e k =
      let served : IsServed w.app c = rw e at k.served in
      let a = with_status (newest c.statuses d.statuses) w.app in
      let same = with_message-same (newest c.messages d.messages) a in
      let signed : true ≡ is_signed_in w.app.user = rw e at k.paired in
      record {
        paired = rw (same.0, with_status-user (newest c.statuses d.statuses) w.app) signed;
        served = record {
          reached = Socket.next served.reached s;
          open_still = browser-closed s b ∙ served.open_still;
          latest =
              rw same.1
                (with_status-IsLatest w.app c.statuses d.statuses (Step-statuses s) served.latest);
        };
        closed = k.closed;
      }

  -- A connection that has been closed tells the page nothing.
  IsClosed-tells :
      (c d : Connection) (a : App)
      → Socket.Step parse c d
      → IsClosed c
      → (told c d a ≡ a) × IsClosed d
  IsClosed-tells c d a s (r, shut) =
      let (still, statuses, messages) =
        IsQuiet-Step parse c (Reach-IsSound parse r) (shut, refl, refl) s in
      (
        rw (statuses, messages, newest-none c.statuses, newest-none c.messages) refl,
        (Socket.next r s, still),
      )

  lingers-IsConnected :
      (w : World) (before : List Connection) (c d : Connection) (after : List Connection)
      → Socket.Step parse c d
      → w.earlier ≡ before ++ c ∷ after
      → IsConnected w
      → IsConnected (record w { app = told c d w.app; earlier = before ++ d ∷ after })
  lingers-IsConnected w before c d after s e k =
      let all : All IsClosed (before ++ c ∷ after) = rw e at k.closed in
      let (same, still) = IsClosed-tells c d w.app s (All-middle IsClosed before c after all) in
      record {
        paired = rw same k.paired;
        served = rw same k.served;
        closed = All-replace IsClosed before c d after still all;
      }

  Step-IsConnected : {w v : World} → Step parse w v → IsConnected w → IsConnected v
  Step-IsConnected {w} (knows answer e) k =
      rw e (user_changed-IsConnected (me_answered answer w.app) w k)
  Step-IsConnected {w} (logs_in u e) k = rw e (user_changed-IsConnected (handle_login u w.app) w k)
  Step-IsConnected {w} (logs_out answer e) k =
      rw e (user_changed-IsConnected (handle_logout answer w.app) w k)
  Step-IsConnected {w} (expires e) k =
      rw e (user_changed-IsConnected (handle_session_expired w.app) w k)
  Step-IsConnected {w} (hears c d s b h e) k = rw e (hears-IsConnected w c d s b h k)
  Step-IsConnected {w} (lingers before c d after s b h e) k =
      rw e (lingers-IsConnected w before c d after s h k)

  -- After any sign-ins, sign-outs, expiries and events of every connection that has been made: there is a
  -- current connection exactly while a user is signed in, it is one that `connectLive` leads to and has
  -- not been closed, and the state that the header shows is the last status that it, and not an earlier
  -- connection, has told; and every earlier connection has been closed.
  pub Reach-IsConnected : {w : World} → Reach parse w → IsConnected w
  Reach-IsConnected begin = record { paired = refl; served = tt; closed = tt }
  Reach-IsConnected (next r s) = Step-IsConnected s (Reach-IsConnected r)
