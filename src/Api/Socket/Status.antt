-- ===== src/Api/Socket/Status.antt =====
-- The status that frontend/src/api.ts tells of its connection, and that the connection comes back.
use mirraura.Base.{
  refl, ◌≡◌, false, List, [], ◌∷◌, Text, Option, some, arith, Option-cases, ℕ, suc, inl, ◌≢◌, none,
  inr,
}
use mirraura.Api.Live.{LiveMessage}
use mirraura.Api.Socket.{
  closing, Connection, ConnectionState, connecting, live, offline, opening, open_, shut, Step,
  opened, received, failed, dropped, elapsed, closes, Reach, begin, next, connect_live, connect,
  on_open, on_message, on_close, on_error, close, ℕ, ReadyState, none,
}
use mirraura.Api.Socket.Session.{IsSound, Reach-IsSound}

-- The last status that was told.
abbrev pub IsLast : ConnectionState → List ConnectionState → Type 0
IsLast state [] = ⊥
IsLast state (s ∷ ss) = s ≡ state

-- What is told is what the socket is, unless it is closing.
pub record IsTruthful (c : Connection) : Type 0 where
  pub tells_opening : c.ws ≡ some opening → IsLast connecting c.statuses
  pub tells_open : c.ws ≡ some open_ → IsLast live c.statuses
  pub tells_shut : c.closed ≡ false → c.ws ≡ some shut → IsLast offline c.statuses

module _ (parse : Text → Option LiveMessage) where
  Step-IsTruthful : {c d : Connection} → Step parse c d → IsTruthful c → IsTruthful d
  unfolding connect on_open on_message on_close on_error close
  Step-IsTruthful (opened w e) v = ground arith
  Step-IsTruthful (received frame w e) v = ground arith
  Step-IsTruthful (failed w u e) v = ground arith
  Step-IsTruthful (dropped w u e) v = ground arith
  Step-IsTruthful (elapsed delay t e) v = ground arith
  Step-IsTruthful (closes e) v = ground arith

  -- At every moment that `connectLive` leads to, the last status that was told is connecting while the
  -- socket opens, live while it is open, and offline once it is shut, unless the caller has closed the
  -- connection.
  pub Reach-IsTruthful : {c : Connection} → Reach parse c → IsTruthful c
  unfolding connect_live connect
  Reach-IsTruthful begin = ground arith
  Reach-IsTruthful (next r s) = Step-IsTruthful s (Reach-IsTruthful r)

  -- The connection is open, and said to be, after at most `n` events of the browser.
  pub data Within : ℕ → Connection → Type 0 where
    already :
        {n : ℕ} {c : Connection}
        → c.ws ≡ some open_
        → IsLast live c.statuses
        → c.closed ≡ false
        → Within n c
    later : {n : ℕ} {c d : Connection} → Step parse c d → Within n d → Within (suc n) c

  from_opening :
      (n : ℕ) (c : Connection) → c.ws ≡ some opening → c.closed ≡ false → Within (suc n) c
  unfolding on_open
  from_opening n c w o = later (opened w refl) (already refl refl o)

  from_shut : (n : ℕ) (c : Connection) → c.timer ≢ none → c.closed ≡ false → Within (suc (suc n)) c
  unfolding connect
  from_shut n c t o = elim (Option-cases c.timer) [
    | inl e ↦ absurd (t e)
    | inr (delay, e) ↦
        later (elapsed delay e refl)
          (from_opening n (connect (record c { timer = none })) (rw o refl) (rw o refl))
  ]

  from_closing :
      (n : ℕ) (c : Connection)
      → c.ws ≡ some closing
      → c.closed ≡ false
      → Within (suc (suc (suc n))) c
  unfolding on_close
  from_closing n c w o =
      later (dropped (ground arith) (ground arith) refl)
        (from_shut n (on_close (record c { ws = some shut })) (rw o (λ e. cc)) (rw o refl))

  recover :
      (c : Connection) (s : ReadyState)
      → c.ws ≡ some s
      → IsSound c
      → IsTruthful c
      → c.closed ≡ false
      → Within 3 c
  recover c opening w v t o = from_opening 2 c w o
  recover c open_ w v t o = already w (t.tells_open w) o
  recover c closing w v t o = from_closing 0 c w o
  recover c shut w v t o = from_shut 1 c (ground (arith, v.alive)) o

  -- However often it has failed, a connection that the caller has not closed can always come back: from
  -- every moment that `connectLive` leads to, at most three events of the browser (the socket closes, its
  -- timer runs out, the next socket opens) lead to an open socket that is said to be live.
  pub Reach-Within : {c : Connection} → Reach parse c → c.closed ≡ false → Within 3 c
  Reach-Within {c} r o = elim (Option-cases c.ws) [
    | inl e ↦ absurd ((Reach-IsSound parse r).started e)
    | inr (s, e) ↦ recover c s e (Reach-IsSound parse r) (Reach-IsTruthful r) o
  ]
