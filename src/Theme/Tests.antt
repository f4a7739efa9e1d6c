-- ===== src/Theme/Tests.antt =====
-- The theme at concrete inputs.
use mirraura.Base.{◌≡◌, ◌≢◌, true, none, some, text}
use mirraura.Theme.{Storage, mount, mounted, toggle_theme}
use mirraura.Theme.Persistence.{toggles, IsShown, IsStored, toggles_lem}

abbrev stored_light : Storage
stored_light = record { available = true; item = some (text "light") }

toggles_lem_example :
    let h = toggles 3 (mounted (mount none stored_light)) in
    IsShown h
    × IsStored h
    × ((toggle_theme h).theme ≢ h.theme)
    × ((toggle_theme (toggle_theme h)).theme ≡ h.theme)
toggles_lem_example = toggles_lem none stored_light 3
