-- ===== src/Toast/Shown.antt =====
-- What frontend/src/components/Toast.tsx promises, without timers: a toast is shown for four seconds
-- unless it is closed. The module with its timers, which fire when they are due, implements it.
use mirraura.Base.{
  ℕ, suc, ◌+◌, leb, ltb, ◌≡◌, Bool, true, false, not, ◌&&◌, ◌==◌, List, [], ◌∷◌, ◌++◌, map, filter,
  Text, if◌then◌else◌, length,
}
use mirraura.Toast.{ToastTone, ToastItem, Bus, dismiss, push, dismiss_after_ms}

pub data Event : Type 0 where
  waits : (ms : ℕ) → Event
  pushes : Text → ToastTone → Event
  closes : (id : ℕ) → Event

-- The history of all toasts: when each was pushed, and whether its close button was clicked.
pub record Entry : Type 0 where
  pub item : ToastItem
  pub pushed_at : ℕ
  pub closed : Bool

pub record History : Type 0 where
  pub now : ℕ
  pub entries : List Entry

abbrev pub is_shown : ℕ → Entry → Bool
is_shown now e = not e.closed && ltb now (e.pushed_at + dismiss_after_ms)

abbrev pub shown : History → List ToastItem
shown h = map (λ (e : Entry). e.item) (filter (is_shown h.now) h.entries)

abbrev pub close_entry : ℕ → Entry → Entry
close_entry id e = if e.item.id == id then record e { closed = true } else e

abbrev pub record_event : Event → History → History
record_event (waits ms) h = record h { now = h.now + ms }
record_event (pushes message tone) h = record h {
  entries =
      h.entries
      ++ record {
        item = record { id = length h.entries; message = message; tone = tone };
        pushed_at = h.now;
        closed = false;
      }
        ∷ [];
}
record_event (closes id) h = record h { entries = map (close_entry id) h.entries }

-- A timer and the time at which it is due.
pub record Timer : Type 0 where
  pub id : ℕ
  pub due : ℕ

-- The module with a clock.
pub record Clock : Type 0 where
  pub bus : Bus
  pub now : ℕ
  pub timers : List Timer

abbrev pub fire_all : List ℕ → Bus → Bus
fire_all [] b = b
fire_all (id ∷ ids) b = fire_all ids (dismiss id b)

abbrev pub is_due : ℕ → Timer → Bool
is_due now t = leb t.due now

abbrev pub ids_of : List Timer → List ℕ
ids_of = map (λ (t : Timer). t.id)

abbrev pub run_event : Event → Clock → Clock
run_event (waits ms) c =
    let now = c.now + ms in
    let left = filter (λ t. not (is_due now t)) c.timers in
    record {
      bus = record (fire_all (ids_of (filter (is_due now) c.timers)) c.bus) {
        timers = ids_of left;
      };
      now = now;
      timers = left;
    }
run_event (pushes message tone) c = record c {
  bus = push message tone c.bus;
  timers = c.timers ++ record { id = c.bus.next_id; due = c.now + dismiss_after_ms } ∷ [];
}
run_event (closes id) c = record c { bus = dismiss id c.bus }

abbrev pub run : List Event → Clock → Clock
run [] c = c
run (e ∷ es) c = run es (run_event e c)

abbrev pub replay : List Event → History → History
replay [] h = h
replay (e ∷ es) h = replay es (record_event e h)

abbrev pub timer_of : Entry → Timer
timer_of e = record { id = e.item.id; due = e.pushed_at + dismiss_after_ms }

abbrev pub is_running : ℕ → Entry → Bool
is_running now e = ltb now (e.pushed_at + dismiss_after_ms)

-- The ids count the entries.
abbrev pub IsNumbered : ℕ → List Entry → Type 0
IsNumbered i [] = Unit {0}
IsNumbered i (e ∷ es) = (e.item.id ≡ i) × IsNumbered (suc i) es

pub record Implements (c : Clock) (h : History) : Type 0 where
  pub same_time : c.now ≡ h.now
  pub same_toasts : c.bus.toasts ≡ shown h
  pub timers_left : c.timers ≡ map timer_of (filter (is_running h.now) h.entries)
  pub same_timers : c.bus.timers ≡ ids_of c.timers
  pub numbered : IsNumbered 0 h.entries
  pub next : c.bus.next_id ≡ length h.entries
