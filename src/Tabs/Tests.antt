-- ===== src/Tabs/Tests.antt =====
-- frontend/src/components/Tabs.tsx at concrete inputs.
use mirraura.Base.{[], ◌∷◌, text, List, none, ◌≡◌, get_elem?, refl}
use mirraura.Tabs.{other_key, TabItem, handle_key_down, arrow_left, arrow_right}

abbrev two_tabs : List TabItem
two_tabs =
    record { id = text "shadow"; label = text "Shadow run"; badge = none }
    ∷ record { id = text "monitor"; label = text "Endpoint monitor"; badge = none }
    ∷ []

-- The arrows go round, and any other key does nothing.
round_trip :
    (handle_key_down arrow_left 0 two_tabs ≡ get_elem? two_tabs 1)
    × (handle_key_down arrow_right 1 two_tabs ≡ get_elem? two_tabs 0)
    × (handle_key_down other_key 0 two_tabs ≡ none)
unfolding handle_key_down
round_trip = (refl, refl, refl)
