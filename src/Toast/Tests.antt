-- ===== src/Toast/Tests.antt =====
-- The notifications of frontend/src/components/Toast.tsx at concrete inputs.
use mirraura.Base.{◌≡◌, refl, [], ◌∷◌, text, map, ◌++◌, List, filter}
use mirraura.Toast.{Bus, start, push, mount_host, listen, fire, dismiss, success, info, ToastItem}
use mirraura.Toast.Shown.{Event, waits, closes, run, replay, shown, ids_of, timer_of, is_running}
use mirraura.Toast.Refinement.{run_refines, start_clock, start_history}
use mirraura.Toast.Timers.{
  Reach, begin, next, pushes, fires, mounts, listens, HasTimers, Reach-HasTimers,
}

abbrev hosted : Bus
hosted = listen (mount_host start)

abbrev two_toasts : Bus
two_toasts = push (text "b") info (push (text "a") success hosted)

abbrev two_toasts_reached : Reach two_toasts
two_toasts_reached =
    next (next (next (next begin (mounts refl)) (listens refl)) (pushes (text "a") success refl))
      (pushes (text "b") info refl)

abbrev one_left : Bus
one_left = fire [] 0 (1 ∷ []) two_toasts

timers_of_two : two_toasts.timers ≡ [] ++ 0 ∷ 1 ∷ []
unfolding push listen mount_host
timers_of_two = refl

Reach-HasTimers_example : HasTimers one_left × (one_left.timers ≡ [] → one_left.toasts ≡ [])
Reach-HasTimers_example =
    Reach-HasTimers (next two_toasts_reached (fires [] 0 (1 ∷ []) timers_of_two refl))

one_left_toasts : map (λ (t : ToastItem). t.message) one_left.toasts ≡ text "b" ∷ []
unfolding push listen mount_host dismiss
one_left_toasts = refl

-- Two toasts a second apart; the first is closed before it is due.
abbrev some_events : List Event
some_events =
    Event.pushes (text "a") success
    ∷ waits 1000
    ∷ Event.pushes (text "b") info
    ∷ closes 0
    ∷ waits 3500
    ∷ []

some_events_toasts :
    map (λ (t : ToastItem). t.message) (run some_events start_clock).bus.toasts ≡ text "b" ∷ []
unfolding push dismiss
some_events_toasts = refl

run_refines_example :
    ((run some_events start_clock).bus.toasts ≡ shown (replay some_events start_history))
    × ((run some_events start_clock).bus.timers
        ≡ ids_of (
            map timer_of (
              filter
                (is_running (replay some_events start_history).now)
                (replay some_events start_history).entries)))
run_refines_example = run_refines some_events
