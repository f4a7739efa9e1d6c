-- ===== src/Toast/Refinement.antt =====
-- The notifications of frontend/src/components/Toast.tsx, with timers that fire when they are due,
-- show at every moment what the history says.
use mirraura.Base.{
  length-append, ℕ, ◌+◌, ◌≤◌, ◌≡◌, refl, sym, ◌∙◌, false, List, [], ◌∷◌, map, filter, length, arith,
  Text, ap, length-map, filter-append,
}
use mathlib.Core.List.{map-append}
use mirraura.Toast.{dismiss_after_ms, start, ToastItem, dismiss, push, ToastTone}
use mirraura.Toast.Shown.{
  Event, shown, waits, pushes, closes, Entry, is_shown, close_entry, ids_of, timer_of, is_running,
  Clock, History, Implements, run, run_event, replay, record_event, Timer,
}
use mirraura.Toast.Waiting.{
  due_ids, fire_all-toasts, waits_toasts, waits_timers, closes_toasts, closes_timers,
  closes-IsNumbered, IsNumbered-append,
}

waits-Implements :
    (ms : ℕ) (c : Clock) (h : History)
    → Implements c h
    → Implements (run_event (waits ms) c) (record_event (waits ms) h)
waits-Implements ms c h k =
    let later = h.now + ms in
    let fired = fire_all-toasts (due_ids h.now later h.entries) c.bus in
    let le : h.now ≤ later = omega arith in
    record {
      same_time = rw k.same_time refl;
      same_toasts =
          rw (k.same_time, k.timers_left)
            (fired.0 ∙ rw k.same_toasts (waits_toasts h.now later 0 h.entries le k.numbered));
      timers_left = rw (k.same_time, k.timers_left) (waits_timers h.now later h.entries le);
      same_timers = refl;
      numbered = k.numbered;
      next = rw (k.same_time, k.timers_left) (fired.1 ∙ k.next);
    }

pushes-Implements :
    (message : Text) (tone : ToastTone) (c : Clock) (h : History)
    → Implements c h
    → Implements (run_event (pushes message tone) c) (record_event (pushes message tone) h)
unfolding push
pushes-Implements message tone c h k =
    let item : ToastItem = record { id = length h.entries; message = message; tone = tone } in
    let e : Entry = record { item = item; pushed_at = h.now; closed = false } in
    let t : Timer = record { id = length h.entries; due = h.now + dismiss_after_ms } in
    let shown_last : map (λ (x : Entry). x.item) (filter (is_shown h.now) (e ∷ [])) ≡ item ∷ [] =
      ground arith in
    let running_last : map timer_of (filter (is_running h.now) (e ∷ [])) ≡ t ∷ [] = ground arith in
    record {
      same_time = k.same_time;
      same_toasts =
          rw
            (
              filter-append (is_shown h.now) h.entries (e ∷ []),
              map-append (λ (x : Entry). x.item) (filter (is_shown h.now) h.entries)
                  (filter (is_shown h.now) (e ∷ [])),
              shown_last,
              k.same_toasts,
              k.next,
            )
            refl;
      timers_left =
          rw
            (
              filter-append (is_running h.now) h.entries (e ∷ []),
              map-append timer_of (filter (is_running h.now) h.entries)
                  (filter (is_running h.now) (e ∷ [])),
              running_last,
              k.timers_left,
              k.same_time,
              k.next,
            )
            refl;
      same_timers =
          rw
            (
              k.same_timers,
              map-append (λ (x : Timer). x.id) c.timers
                  (record t { id = c.bus.next_id; due = c.now + dismiss_after_ms } ∷ []),
            )
            refl;
      numbered = IsNumbered-append 0 h.entries e (omega arith) k.numbered;
      next = omega (arith, k.next, length-append h.entries (e ∷ []));
    }

closes-Implements :
    (id : ℕ) (c : Clock) (h : History)
    → Implements c h
    → Implements (run_event (closes id) c) (record_event (closes id) h)
unfolding dismiss
closes-Implements id c h k = record {
  same_time = k.same_time;
  same_toasts = rw k.same_toasts (closes_toasts h.now id h.entries);
  timers_left = k.timers_left ∙ sym (closes_timers h.now id h.entries);
  same_timers = k.same_timers;
  numbered = closes-IsNumbered id 0 h.entries k.numbered;
  next = k.next ∙ sym (length-map (close_entry id) h.entries);
}

run_event-Implements :
    (e : Event) (c : Clock) (h : History)
    → Implements c h
    → Implements (run_event e c) (record_event e h)
run_event-Implements (waits ms) c h k = waits-Implements ms c h k
run_event-Implements (pushes message tone) c h k = pushes-Implements message tone c h k
run_event-Implements (closes id) c h k = closes-Implements id c h k

run-Implements :
    (es : List Event) (c : Clock) (h : History)
    → Implements c h
    → Implements (run es c) (replay es h)
run-Implements [] c h k = k
run-Implements (e ∷ es) c h k =
    run-Implements es (run_event e c) (record_event e h) (run_event-Implements e c h k)

abbrev pub start_clock : Clock
start_clock = record { bus = start; now = 0; timers = [] }

abbrev pub start_history : History
start_history = record { now = 0; entries = [] }

-- After any waits, pushes and clicks on close buttons, if each timer fires when it is due: the toasts
-- are exactly those of the history that were pushed less than four seconds ago and have not been
-- closed, in the order in which they were pushed, and the timers that run are those of the toasts,
-- closed or not, that were pushed less than four seconds ago.
pub run_refines :
    (es : List Event)
    → ((run es start_clock).bus.toasts ≡ shown (replay es start_history))
      × ((run es start_clock).bus.timers
          ≡ ids_of (
              map timer_of (
                filter
                  (is_running (replay es start_history).now)
                  (replay es start_history).entries)))
run_refines es =
    let k = run-Implements es start_clock start_history (record {
      same_time = refl;
      same_toasts = refl;
      timers_left = refl;
      same_timers = refl;
      numbered = tt;
      next = refl;
    }) in
    (k.same_toasts, k.same_timers ∙ ap ids_of k.timers_left)
