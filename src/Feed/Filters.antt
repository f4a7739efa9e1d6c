-- ===== src/Feed/Filters.antt =====
-- The filters and the tags of frontend/src/components/EventFeed.tsx.
use mirraura.Base.{
  ◌≡◌, ◌≢◌, refl, true, false, List, [], ◌∷◌, All, filter_passes, All-mono, Bool, ℕ,
}
use mirraura.Types.{MirraEvent, EventType, process_spawn, file_write, file_delete, network_connect}
use mirraura.Feed.{EventList, start, toggle_filter, filtered}

-- Clicks on the three chips.
pub data Chip : EventType → Type 0 where
  process_chip : Chip process_spawn
  file_chip : Chip file_write
  network_chip : Chip network_connect

abbrev pub click_chips : List EventType → EventList → EventList
click_chips [] s = s
click_chips (id ∷ ids) s = click_chips ids (toggle_filter id s)

stays_off :
    (ids : List EventType) (s : EventList)
    → All Chip ids
    → s.active_filters file_delete ≡ false
    → (click_chips ids s).active_filters file_delete ≡ false
unfolding toggle_filter
stays_off [] s h e = e
stays_off (process_spawn ∷ ids) s h e = stays_off ids _ h.1 e
stays_off (file_write ∷ ids) s h e = stays_off ids _ h.1 e
stays_off (network_connect ∷ ids) s h e = stays_off ids _ h.1 e
stays_off (file_delete ∷ ids) s h e = elim h.0 [ ]

not_delete :
    (f : EventType → Bool) → f file_delete ≡ false → (t : EventType) → f t ≡ true → t ≢ file_delete
not_delete f e t h k = cc

-- Whatever chips are clicked, no deletion of a file is ever among the events that are shown.
pub deletions_hidden :
    (events : List MirraEvent) (n : ℕ) (ids : List EventType)
    → All Chip ids
    → All
        (λ (e : MirraEvent). e.event_type ≢ file_delete)
        (filtered events (click_chips ids (start n)))
unfolding filtered
deletions_hidden events n ids h =
    let s = click_chips ids (start n) in
    let off = stays_off ids (start n) h refl in
    All-mono (λ (e : MirraEvent). s.active_filters e.event_type ≡ true)
      (λ (e : MirraEvent). e.event_type ≢ file_delete) (filtered events s)
      (λ (e : MirraEvent) p. not_delete s.active_filters off e.event_type p)
      (filter_passes (λ (e : MirraEvent). s.active_filters e.event_type) events)
