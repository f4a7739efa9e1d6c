-- ===== src/Feed.antt =====
-- frontend/src/components/EventFeed.tsx: the list of events with its filters and its scrolling. The
-- set of the active filters is a test on the types of events.
pub mod Filters
pub mod Time
pub mod Scrolling
mod Tests
use mirraura.Base.{
  ℕ, ◌+◌, ◌-◌, leb, ltb, ◌==◌, Bool, true, false, not, ◌&&◌, ◌||◌, List, [], ◌∷◌, ◌++◌, map, any,
  filter, length, Text, text, starts_with, decimal, Option, none, some, is_nonempty, if◌then◌else◌,
  text_eq,
}
use mirraura.Api.Hex.{pad_start}
use mirraura.Tabs.{TabItem, TabButton, buttons, panel_shown}
use mirraura.Types.{
  MirraEvent, EventType, process_spawn, file_write, file_delete, network_connect, ProcessRef,
  FileRef, NetworkRef,
}

abbrev pub same_type : EventType → EventType → Bool
same_type process_spawn process_spawn = true
same_type file_write file_write = true
same_type file_delete file_delete = true
same_type network_connect network_connect = true
same_type _ _ = false

abbrev pub filter_chips : List (EventType × Text)
filter_chips =
    (process_spawn, text "Process")
    ∷ (file_write, text "File")
    ∷ (network_connect, text "Network")
    ∷ []

abbrev pub sensitive_prefixes : List Text
sensitive_prefixes = text "/etc/" ∷ text "/bin/" ∷ text "/usr/" ∷ text "/boot/" ∷ text "/sbin/" ∷ []

abbrev pub is_standard_port : ℕ → Bool
is_standard_port port = port == 80 || port == 443

-- The parts of a time in the browser's zone.
pub record LocalTime : Type 0 where
  pub hours : ℕ
  pub minutes : ℕ
  pub seconds : ℕ
  pub milliseconds : ℕ

unfoldable pub clock_text : LocalTime → Text
unfolding decimal pad_start
clock_text t =
    pad_start 2 b'0' (decimal t.hours)
    ++ b':'
      ∷ (pad_start 2 b'0' (decimal t.minutes)
          ++ b':'
            ∷ (pad_start 2 b'0' (decimal t.seconds)
                ++ b'.' ∷ pad_start 3 b'0' (decimal t.milliseconds)))

abbrev pub time_text : Option LocalTime → Text → Text
time_text none iso = iso
time_text (some t) iso = clock_text t

-- `local` reads a date; it has nothing for an invalid one.
unfoldable pub format_time : (Text → Option LocalTime) → Text → Text
format_time local iso = time_text (local iso) iso

unfoldable pub detail : MirraEvent → Option Text
detail e = elim e.process_ref [
  | some p ↦ some (p.name ++ (text " (pid " ++ (decimal p.pid ++ text ")")))
  | none ↦ elim e.file_ref [
    | some f ↦ some (f.action ++ (text " '" ++ (f.path ++ text "'")))
    | none ↦ elim e.network_ref [
      | some n ↦ some (text "connect " ++ (n.dst_ip ++ (text ":" ++ decimal n.dst_port)))
      | none ↦ none
    ]
  ]
]

abbrev path_is_sensitive : Option FileRef → Bool
path_is_sensitive none = false
path_is_sensitive (some f) = any (λ p. starts_with f.path p) sensitive_prefixes

abbrev port_is_unusual : Option NetworkRef → Bool
port_is_unusual none = false
port_is_unusual (some n) = not (is_standard_port n.dst_port)

unfoldable pub rule_tag : MirraEvent → Option Text
rule_tag e = elim e.event_type [
  | process_spawn ↦ some (text "child process")
  | file_write ↦ if path_is_sensitive e.file_ref then some (text "sensitive path") else none
  | network_connect ↦
      if port_is_unusual e.network_ref then some (text "non-standard port") else none
  | file_delete ↦ none
]

pub data Icon : Type 0 where
  terminal_square network file_warning : Icon

abbrev event_icon : EventType → Icon
event_icon process_spawn = terminal_square
event_icon network_connect = network
event_icon _ = file_warning

pub record EventList : Type 0 where
  pub active_filters : EventType → Bool
  pub auto_scroll : Bool
  pub new_count : ℕ
  pub prev_length : ℕ

-- The list mounts with `n` events.
abbrev pub start : ℕ → EventList
start n = record {
  active_filters = λ t. any (λ (c : EventType × Text). same_type t c.0) filter_chips;
  auto_scroll = true;
  new_count = 0;
  prev_length = n;
}

unfoldable pub toggle_filter : EventType → EventList → EventList
toggle_filter id s = record s {
  active_filters = λ t. if same_type t id then not (s.active_filters t) else s.active_filters t;
}

unfoldable pub filtered : List MirraEvent → EventList → List MirraEvent
filtered events s = filter (λ (e : MirraEvent). s.active_filters e.event_type) events

abbrev pub is_rendered : List MirraEvent → Bool
is_rendered [] = false
is_rendered (e ∷ es) = true

-- The effect that runs when the events or `autoScroll` have changed: the state, and whether the list
-- is scrolled to its end, which it is only if it is rendered.
unfoldable pub events_changed : List MirraEvent → EventList → EventList × Bool
unfolding filtered
events_changed events s =
    let added = length events - s.prev_length in
    let t = record s { prev_length = length events } in
    if leb (length events) s.prev_length
    then (t, false)
    else if s.auto_scroll && is_rendered (filtered events s)
    then (t, true)
    else (record t { new_count = t.new_count + added }, false)

unfoldable pub handle_scroll : Bool → EventList → EventList
handle_scroll near_bottom s = record s {
  auto_scroll = near_bottom;
  new_count = if near_bottom then 0 else s.new_count;
}

unfoldable pub jump_to_bottom : EventList → EventList
jump_to_bottom s = record s { auto_scroll = true; new_count = 0 }

pub record EventRow : Type 0 where
  pub event_id : Text
  pub icon : Icon
  pub time : Text
  pub title : Text
  pub detail_text : Option Text
  pub tag : Option Text

pub record View : Type 0 where
  pub chips : List (Text × Bool)
  -- Without rows, the message stands in their place.
  pub rows : List EventRow
  pub jump : Option ℕ

unfoldable pub view : (Text → Option LocalTime) → List MirraEvent → EventList → View
unfolding filtered detail rule_tag format_time
view local events s = record {
  chips = map (λ (c : EventType × Text). (c.1, s.active_filters c.0)) filter_chips;
  rows =
      map
        (λ (e : MirraEvent). record {
          event_id = e.event_id;
          icon = event_icon e.event_type;
          time = format_time local e.timestamp;
          title = e.timestamp;
          detail_text = detail e;
          tag = rule_tag e;
        })
        (filtered events s);
  jump = if not s.auto_scroll && ltb 0 s.new_count then some s.new_count else none;
}

-- The component: the active tab, and the list of the panel that is mounted under it.
pub record EventFeed : Type 0 where
  pub tab : Text
  pub mounted : EventList

abbrev pub feed_tabs : List TabItem
feed_tabs =
    record { id = text "shadow"; label = text "Shadow run"; badge = none }
    ∷ record { id = text "monitor"; label = text "Endpoint monitor"; badge = none }
    ∷ []

-- The events of the panel that a tab shows, and the text that stands for no rows.
abbrev pub panel_of : Text → List MirraEvent → List MirraEvent → List MirraEvent × Text
panel_of tab sample_events monitor_events =
    if panel_shown (text "shadow") tab
    then (sample_events, text "No trace yet — upload a sample to begin.")
    else if panel_shown (text "monitor") tab
    then (monitor_events, text "No monitor activity yet.")
    else ([], [])

abbrev pub start_feed : List MirraEvent → EventFeed
start_feed sample_events = record { tab = text "shadow"; mounted = start (length sample_events) }

-- A panel that was not shown before is mounted anew.
unfoldable pub change_tab : Text → List MirraEvent → List MirraEvent → EventFeed → EventFeed
unfolding text_eq panel_shown
change_tab id sample_events monitor_events f =
    if text_eq id f.tab
    then f
    else record { tab = id; mounted = start (length (panel_of id sample_events monitor_events).0) }

pub record FeedView : Type 0 where
  pub tabs : List TabButton
  pub list : View
  pub empty_message : Text

unfoldable pub feed_view :
    (Text → Option LocalTime) → List MirraEvent → List MirraEvent → EventFeed → FeedView
unfolding buttons view panel_shown
feed_view local sample_events monitor_events f =
    let (events, message) = panel_of f.tab sample_events monitor_events in
    record {
      tabs = buttons feed_tabs f.tab;
      list = view local events f.mounted;
      empty_message = message;
    }
