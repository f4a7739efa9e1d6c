-- ===== src/Api/Socket/Session.antt =====
-- What holds of the live connection of frontend/src/api.ts at every moment.
use mirraura.Base.{◌≤◌, ◌≡◌, ◌≢◌, ◌⊎◌, refl, true, Text, Option, none, some, IfSome, arith}
use mirraura.Api.Live.{LiveMessage}
use mirraura.Api.Socket.{
  Connection, closing, shut, Step, opened, received, failed, dropped, elapsed, closes, Reach, begin,
  next, connect_live, connect, on_open, on_message, on_close, on_error, close, initial_backoff_ms,
  max_backoff_ms,
}

pub record IsSound (c : Connection) : Type 0 where
  pub started : c.ws ≢ none
  pub backoff_low : initial_backoff_ms ≤ c.backoff
  pub backoff_high : c.backoff ≤ max_backoff_ms
  pub delay_range : IfSome (λ d. (initial_backoff_ms ≤ d) × (d ≤ max_backoff_ms)) c.timer
  -- A timer that will connect is set only once the socket is shut, so there is one socket at a time.
  pub single : (c.timer ≡ none) ⊎ (c.ws ≡ some shut)
  -- Until the caller closes the connection, a socket is in use or a timer will make one.
  pub alive : (c.closed ≡ true) ⊎ ((c.ws ≢ some shut) ⊎ (c.timer ≢ none))
  pub ended : c.closed ≡ true → (c.ws ≡ some closing) ⊎ (c.ws ≡ some shut)

module _ (parse : Text → Option LiveMessage) where
  Step-IsSound : {c d : Connection} → Step parse c d → IsSound c → IsSound d
  unfolding connect on_open on_message on_close on_error close
  Step-IsSound (opened w e) v = ground arith
  Step-IsSound (received frame w e) v = ground arith
  Step-IsSound (failed w u e) v = ground arith
  Step-IsSound (dropped w u e) v = ground arith
  Step-IsSound (elapsed delay t e) v = ground arith
  Step-IsSound (closes e) v = ground arith

  -- At every moment that `connectLive` leads to, the delays are between 1 and 30 seconds, a timer is
  -- set only while the socket is shut, the connection has a socket in use or a timer unless the
  -- caller closed it, and a socket that the caller closed is closing or shut.
  pub Reach-IsSound : {c : Connection} → Reach parse c → IsSound c
  unfolding connect_live
  Reach-IsSound begin = ground arith
  Reach-IsSound (next r s) = Step-IsSound s (Reach-IsSound r)

  pub data Steps (c : Connection) : Connection → Type 0 where
    none_yet : Steps c c
    and_then : {d e : Connection} → Steps c d → Step parse d e → Steps c e

  abbrev pub IsQuiet : Connection → Connection → Type 0
  IsQuiet c d = (d.closed ≡ true) × (d.statuses ≡ c.statuses) × (d.messages ≡ c.messages)

  pub IsQuiet-Step :
      (c : Connection) {d e : Connection} → IsSound d → IsQuiet c d → Step parse d e → IsQuiet c e
  unfolding connect on_open on_message on_close on_error close
  IsQuiet-Step c v q (opened w e) = ground arith
  IsQuiet-Step c v q (received frame w e) = ground arith
  IsQuiet-Step c v q (failed w u e) = ground arith
  IsQuiet-Step c v q (dropped w u e) = ground arith
  IsQuiet-Step c v q (elapsed delay t e) = ground arith
  IsQuiet-Step c v q (closes e) = ground arith

  Steps-Reach : {c d : Connection} → Reach parse c → Steps c d → Reach parse d
  Steps-Reach r none_yet = r
  Steps-Reach r (and_then ss s) = next (Steps-Reach r ss) s

  -- After the caller has closed the connection, nothing that the browser does later reports a status
  -- or delivers a message, and the connection stays closed.
  pub close-IsQuiet : {c d : Connection} → Reach parse c → Steps (close c) d → IsQuiet (close c) d
  unfolding close
  close-IsQuiet r none_yet = (refl, refl, refl)
  close-IsQuiet {c} r (and_then ss s) =
      IsQuiet-Step (close c) (Reach-IsSound (Steps-Reach (next r (closes refl)) ss))
        (close-IsQuiet r ss) s
