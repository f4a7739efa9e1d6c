-- ===== src/Feed/Scrolling.antt =====
-- The scrolling of frontend/src/components/EventFeed.tsx together with the buffers of
-- frontend/src/api.ts.
use mirraura.Base.{
  ◌+◌, ◌-◌, ◌≤◌, ◌<◌, ◌≡◌, true, false, List, [], ◌∷◌, length, arith, min, suc, length-drop, ◌++◌,
  length-append,
}
use mirraura.Types.{MirraEvent}
use mirraura.Api.Live.{event, sample, max_events, apply_live_event}
use mirraura.Feed.{EventList, events_changed, filtered, is_rendered}

length-apply_live_event :
    (events : List MirraEvent) (e : MirraEvent)
    → length (apply_live_event events (event sample e)) ≡ min (suc (length events)) max_events
unfolding apply_live_event
length-apply_live_event events e = omega (
  arith,
  length-drop (length (events ++ e ∷ []) - max_events) (events ++ e ∷ []),
  length-append events (e ∷ []),
)

-- An event that arrives while the list does not scroll by itself is counted as new, and one that
-- arrives while it does scrolls a list that is rendered, as long as the buffer holds less than 500
-- events; once it is full, no event is counted or scrolls the list.
pub arrivals :
    (events : List MirraEvent) (e : MirraEvent) (s : EventList)
    → s.prev_length ≡ length events
    → length events ≤ max_events
    → let after = apply_live_event events (event sample e) in
      let (t, scrolled) = events_changed after s in
      (t.prev_length ≡ length after)
      × (t.auto_scroll ≡ s.auto_scroll)
      × (length events < max_events → s.auto_scroll ≡ false → t.new_count ≡ s.new_count + 1)
      × (length events < max_events
          → s.auto_scroll ≡ true
          → is_rendered (filtered after s) ≡ true
          → (scrolled ≡ true) × (t.new_count ≡ s.new_count))
      × (length events ≡ max_events → (scrolled ≡ false) × (t.new_count ≡ s.new_count))
unfolding events_changed
arrivals events e s p l = ground (arith, length-apply_live_event events e)
