-- ===== src/Api/Live/Buffer.antt =====
-- What the event buffers of frontend/src/api.ts hold after any messages.
use mirraura.Base.{
  ℕ, ◌+◌, ◌-◌, ◌≤◌, ◌≡◌, refl, sym, ap, ◌∙◌, List, [], ◌∷◌, ◌++◌, arith, length, drop, append_assoc,
  length-append, length-drop, drop-drop, drop-append_le, append-nil,
}
use mirraura.Types.{MirraEvent}
use mirraura.Api.Live.{
  Source, sample, monitor, LiveMessage, event, verdict, isolated, reconnected, max_events,
  push_last, apply_live_event, apply_monitor_event,
}

-- The last `n` entries.
abbrev pub last {ℓ} : {A : Type ℓ} → ℕ → List A → List A
last n xs = drop (length xs - n) xs

pub length-last {ℓ} : {A : Type ℓ} (n : ℕ) (xs : List A) → length (last n xs) ≤ n
length-last n xs = omega (arith, length-drop (length xs - n) xs)

pub last_short {ℓ} : {A : Type ℓ} (n : ℕ) (xs : List A) → length xs ≤ n → last n xs ≡ xs
last_short n xs h = let e : length xs - n ≡ 0 = omega arith in rw e refl

pub push_last-last {ℓ} :
    {A : Type ℓ} (n : ℕ) (xs : List A) (x : A) → push_last n (last n xs) x ≡ last n (xs ++ x ∷ [])
unfolding push_last
push_last-last n xs x =
    let k = length xs - n in
    let joined : last n xs ++ x ∷ [] ≡ drop k (xs ++ x ∷ []) =
      sym (drop-append_le k xs (x ∷ []) (omega arith)) in
    let sizes : k + (length (last n xs ++ x ∷ []) - n) ≡ length (xs ++ x ∷ []) - n =
      omega
        (arith, length-append (last n xs) (x ∷ []), length-append xs (x ∷ []), length-drop k xs) in
    ap (drop (length (last n xs ++ x ∷ []) - n)) joined
    ∙ drop-drop (length (last n xs ++ x ∷ []) - n) k (xs ++ x ∷ [])
    ∙ ap (λ m. drop m (xs ++ x ∷ [])) sizes

-- The events of one source, in the order of arrival.
abbrev pub events_of : Source → List LiveMessage → List MirraEvent
events_of s [] = []
events_of sample (event sample e ∷ ms) = e ∷ events_of sample ms
events_of monitor (event monitor e ∷ ms) = e ∷ events_of monitor ms
events_of s (_ ∷ ms) = events_of s ms

abbrev pub fold_messages :
    (List MirraEvent → LiveMessage → List MirraEvent)
    → List MirraEvent
    → List LiveMessage
    → List MirraEvent
fold_messages f events [] = events
fold_messages f events (m ∷ ms) = fold_messages f (f events m) ms

sample_from :
    (seen : List MirraEvent) (ms : List LiveMessage)
    → fold_messages apply_live_event (last max_events seen) ms
      ≡ last max_events (seen ++ events_of sample ms)
unfolding apply_live_event
sample_from seen [] = rw (append-nil seen)
sample_from seen (event sample e ∷ ms) =
    ap (λ s. fold_messages apply_live_event s ms) (push_last-last max_events seen e)
    ∙ sample_from (seen ++ e ∷ []) ms
    ∙ ap (last max_events) (append_assoc seen (e ∷ []) (events_of sample ms))
sample_from seen (event monitor e ∷ ms) = sample_from seen ms
sample_from seen (verdict s v ∷ ms) = sample_from seen ms
sample_from seen (isolated ∷ ms) = sample_from seen ms
sample_from seen (reconnected ∷ ms) = sample_from seen ms

monitor_from :
    (seen : List MirraEvent) (ms : List LiveMessage)
    → fold_messages apply_monitor_event (last max_events seen) ms
      ≡ last max_events (seen ++ events_of monitor ms)
unfolding apply_monitor_event
monitor_from seen [] = rw (append-nil seen)
monitor_from seen (event monitor e ∷ ms) =
    ap (λ s. fold_messages apply_monitor_event s ms) (push_last-last max_events seen e)
    ∙ monitor_from (seen ++ e ∷ []) ms
    ∙ ap (last max_events) (append_assoc seen (e ∷ []) (events_of monitor ms))
monitor_from seen (event sample e ∷ ms) = monitor_from seen ms
monitor_from seen (verdict s v ∷ ms) = monitor_from seen ms
monitor_from seen (isolated ∷ ms) = monitor_from seen ms
monitor_from seen (reconnected ∷ ms) = monitor_from seen ms

-- From empty buffers, after any messages, the sample buffer is the last 500 events that came from
-- the sample, in order, the monitor buffer the last 500 that came from the monitor, and neither is
-- longer than 500.
pub buffers-last :
    (ms : List LiveMessage)
    → (fold_messages apply_live_event [] ms ≡ last max_events (events_of sample ms))
      × (fold_messages apply_monitor_event [] ms ≡ last max_events (events_of monitor ms))
      × (length (fold_messages apply_live_event [] ms) ≤ max_events)
      × (length (fold_messages apply_monitor_event [] ms) ≤ max_events)
buffers-last ms = (
  sample_from [] ms,
  monitor_from [] ms,
  rw (sample_from [] ms) (length-last max_events (events_of sample ms)),
  rw (monitor_from [] ms) (length-last max_events (events_of monitor ms)),
)
