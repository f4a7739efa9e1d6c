-- ===== src/Feed/Tests.antt =====
-- frontend/src/components/EventFeed.tsx at concrete inputs.
use mirraura.Base.{
  ◌≡◌, refl, true, false, [], ◌∷◌, text, none, List, starts_with, length, some, map, ◌<◌, ◌+◌,
  arith, Text, Option, decimal, text_eq, Bool,
}
use mirraura.Types.{MirraEvent, file_write, file_delete}
use mirraura.Api.Live.{event, sample, apply_live_event, max_events}
use mirraura.Feed.{
  EventFeed, start_feed, toggle_filter, feed_view, view, change_tab, start, EventList, filtered,
  events_changed, rule_tag, is_rendered, LocalTime, clock_text, pad_start,
}
use mirraura.Feed.Scrolling.{arrivals}
use mirraura.Api.Hex.{pad_start}

abbrev deletion : MirraEvent
deletion = record {
  event_id = text "1";
  device_id = text "d";
  event_type = file_delete;
  process_ref = none;
  network_ref = none;
  file_ref = some (record { path = text "/etc/passwd"; action = text "delete" });
  timestamp = text "now";
  baseline_deviation_score = record { negative = false; mantissa = 0; scale = 0 };
}

abbrev two_events : List MirraEvent
two_events = deletion ∷ record deletion { event_type = file_write } ∷ []

tags : map rule_tag two_events ≡ none ∷ some (text "sensitive path") ∷ []
unfolding rule_tag starts_with text
tags = refl

abbrev paused : EventList
paused = record (start 2) { auto_scroll = false }

arrivals_example :
    let after = apply_live_event two_events (event sample deletion) in
    let (t, scrolled) = events_changed after paused in
    (t.prev_length ≡ length after)
    × (t.auto_scroll ≡ paused.auto_scroll)
    × (length two_events < max_events
        → paused.auto_scroll ≡ false
        → t.new_count ≡ paused.new_count + 1)
    × (length two_events < max_events
        → paused.auto_scroll ≡ true
        → is_rendered (filtered after paused) ≡ true
        → (scrolled ≡ true) × (t.new_count ≡ paused.new_count))
    × (length two_events ≡ max_events → (scrolled ≡ false) × (t.new_count ≡ paused.new_count))
arrivals_example = arrivals two_events deletion paused refl (omega arith)

-- Seven minutes and 50 milliseconds past nine; nothing else is a date.
abbrev early : LocalTime
early = record { hours = 9; minutes = 7; seconds = 0; milliseconds = 50 }

abbrev local : Text → Option LocalTime
local [] = none
local (c ∷ s) = some early

early_text : clock_text early ≡ text "09:07:00.050"
unfolding clock_text pad_start decimal text
early_text = refl

-- A choice of filters is gone after a look at the other tab.
abbrev chosen : EventFeed
chosen = record (start_feed two_events) { mounted = toggle_filter file_write (start 2) }

back_and_forth :
    (map (λ (c : Text × Bool). c.1) (feed_view local two_events [] chosen).list.chips
      ≡ true ∷ false ∷ true ∷ [])
    × (map
          (λ (c : Text × Bool). c.1)
          (feed_view local two_events [] (
            change_tab
              (text "shadow")
              two_events
              []
              (change_tab (text "monitor") two_events [] chosen))).list.chips
        ≡ true ∷ true ∷ true ∷ [])
unfolding feed_view view change_tab toggle_filter text_eq text
back_and_forth = (refl, refl)
