-- ===== src/Theme.antt =====
-- frontend/src/theme.ts and the theme of frontend/src/components/Header.tsx. The browser's storage
-- may be unavailable, so that every access throws.
pub mod Persistence
mod Tests
use mirraura.Base.{Bool, true, false, Text, text, text_eq, Option, none, some, if◌then◌else◌, ◌++◌}
use mirraura.Presentation.{
  Badge, Wordmark, wordmark, neutral_tone, compromised_tone, normal_tone, wifi, wifi_off,
  shield_alert, shield_check,
}
use mirraura.Api.Socket.{ConnectionState, connecting, live, offline}

pub data Theme : Type 0 where
  dark light : Theme

-- The item at the key "mirraura-theme".
pub record Storage : Type 0 where
  pub available : Bool
  pub item : Option Text

abbrev is_light : Option Text → Bool
is_light none = false
is_light (some stored) = text_eq stored (text "light")

unfoldable pub get_stored_theme : Storage → Theme
get_stored_theme s = if s.available then (if is_light s.item then light else dark) else dark

abbrev pub theme_text : Theme → Text
theme_text dark = text "dark"
theme_text light = text "light"

unfoldable pub set_stored_theme : Theme → Storage → Storage
set_stored_theme theme s = if s.available then record s { item = some (theme_text theme) } else s

-- The header's state, the attribute of the document, and the storage.
pub record Header : Type 0 where
  pub theme : Theme
  pub document_theme : Option Text
  pub storage : Storage

-- The mount, and the effect that follows.
unfoldable pub mount : Option Text → Storage → Header
unfolding get_stored_theme
mount attribute s = record { theme = get_stored_theme s; document_theme = attribute; storage = s }

unfoldable pub mounted : Header → Header
mounted h = record h { document_theme = some (theme_text h.theme) }

abbrev pub other_theme : Theme → Theme
other_theme dark = light
other_theme light = dark

unfoldable pub toggle_theme : Header → Header
unfolding set_stored_theme
toggle_theme h = record {
  theme = other_theme h.theme;
  document_theme = some (theme_text (other_theme h.theme));
  storage = set_stored_theme (other_theme h.theme) h.storage;
}

-- `CONN_COPY`
abbrev pub connection_badge : ConnectionState → Badge
connection_badge connecting = record {
  tone = neutral_tone;
  icon = wifi;
  content = text "Connecting…";
}
connection_badge live = record { tone = neutral_tone; icon = wifi; content = text "Live" }
connection_badge offline = record {
  tone = neutral_tone;
  icon = wifi_off;
  content = text "Offline — retrying";
}

abbrev monitor_badge : Bool → Badge
monitor_badge true = record {
  tone = compromised_tone;
  icon = shield_alert;
  content = text "Isolated";
}
monitor_badge false = record {
  tone = normal_tone;
  icon = shield_check;
  content = text "Monitor connected";
}

pub data ThemeIcon : Type 0 where
  sun moon : ThemeIcon

pub record View : Type 0 where
  pub wordmark : Wordmark
  pub connection : Badge
  pub monitor : Badge
  pub toggle_label : Text
  pub toggle_icon : ThemeIcon
  pub user : Text

abbrev toggle_look : Theme → Text × ThemeIcon
toggle_look dark = (text "Switch to light theme", sun)
toggle_look light = (text "Switch to dark theme", moon)

unfoldable pub header_view : Text → Text → ConnectionState → Bool → Header → View
unfolding wordmark
header_view username role state isolated h =
    let (label, icon) = toggle_look h.theme in
    record {
      wordmark = wordmark none none none;
      connection = connection_badge state;
      monitor = monitor_badge isolated;
      toggle_label = label;
      toggle_icon = icon;
      user = username ++ (text " · " ++ role);
    }
