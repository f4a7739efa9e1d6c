-- ===== src/Api/Socket.antt =====
-- frontend/src/api.ts, lines 218 to 271: the live connection. The closure's variables and what has
-- happened outside of it are one record; each callback is a function on it, and `Step` lists the
-- moments at which the browser runs one of them.
pub mod Backoff
pub mod Session
pub mod Status
use mirraura.Base.{
  ℕ, ◌*◌, ◌≡◌, ◌≢◌, Bool, true, false, List, [], ◌∷◌, Text, Option, none, some, if◌then◌else◌, min,
}
use mirraura.Api.Live.{LiveMessage}

pub data ConnectionState : Type 0 where
  connecting live offline : ConnectionState

-- The browser's socket; `shut` when its close event has fired.
pub data ReadyState : Type 0 where
  opening open_ closing shut : ReadyState

abbrev pub initial_backoff_ms : ℕ
initial_backoff_ms = 1000

abbrev pub max_backoff_ms : ℕ
max_backoff_ms = 30000

unfoldable pub next_backoff_ms : ℕ → ℕ
next_backoff_ms current = min (current * 2) max_backoff_ms

pub record Connection : Type 0 where
  pub ws : Option ReadyState
  pub closed : Bool
  pub backoff : ℕ
  -- The delay of the timer that will call `connect`.
  pub timer : Option ℕ
  -- What the callbacks were given, the latest first.
  pub statuses : List ConnectionState
  pub messages : List LiveMessage

abbrev on_status : ConnectionState → Connection → Connection
on_status state c = record c { statuses = state ∷ c.statuses }

-- The method of a socket: one that is closing or shut is left alone.
abbrev close_socket : Option ReadyState → Option ReadyState
close_socket none = none
close_socket (some shut) = some shut
close_socket (some _) = some closing

unfoldable pub connect : Connection → Connection
connect c =
    if c.closed then c else record c { statuses = connecting ∷ c.statuses; ws = some opening }

unfoldable pub on_open : Connection → Connection
on_open c = on_status live (record c { backoff = initial_backoff_ms })

-- `parse` stands for `JSON.parse`, which throws on a malformed frame.
unfoldable pub on_message : (Text → Option LiveMessage) → Text → Connection → Connection
on_message parse frame c = elim (parse frame) [
  | none ↦ c
  | some msg ↦ record c { messages = msg ∷ c.messages }
]

unfoldable pub on_close : Connection → Connection
unfolding next_backoff_ms
on_close c = if c.closed then c else record c {
  statuses = offline ∷ c.statuses;
  backoff = next_backoff_ms c.backoff;
  timer = some c.backoff;
}

unfoldable pub on_error : Connection → Connection
on_error c = record c { ws = close_socket c.ws }

unfoldable pub close : Connection → Connection
close c = record c { closed = true; ws = close_socket c.ws }

abbrev start : Connection
start = record {
  ws = none;
  closed = false;
  backoff = initial_backoff_ms;
  timer = none;
  statuses = [];
  messages = [];
}

unfoldable pub connect_live : Connection
unfolding connect
connect_live = connect start

module _ (parse : Text → Option LiveMessage) where
  pub data Step (c d : Connection) : Type 0 where
    opened : c.ws ≡ some opening → d ≡ on_open (record c { ws = some open_ }) → Step c d
    received : (frame : Text) → c.ws ≡ some open_ → d ≡ on_message parse frame c → Step c d
    failed : c.ws ≢ none → c.ws ≢ some shut → d ≡ on_error c → Step c d
    dropped : c.ws ≢ none → c.ws ≢ some shut → d ≡ on_close (record c { ws = some shut }) → Step c d
    elapsed :
        (delay : ℕ) → c.timer ≡ some delay → d ≡ connect (record c { timer = none }) → Step c d
    closes : d ≡ close c → Step c d

  -- What `connectLive` leads to.
  pub data Reach : Connection → Type 0 where
    begin : Reach connect_live
    next : {c d : Connection} → Reach c → Step c d → Reach d
