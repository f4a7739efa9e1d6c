-- ===== src/Tabs.antt =====
-- frontend/src/components/Tabs.tsx. A badge is the number that it shows.
pub mod Keys
mod Tests
use mirraura.Base.{
  ℕ, ◌+◌, ◌-◌, ◌%◌, Bool, List, map, length, get_elem?, Text, text_eq, Option, none, map_some,
  if◌then◌else◌, some,
}

pub record TabItem : Type 0 where
  pub id : Text
  pub label : Text
  pub badge : Option ℕ

pub data Key : Type 0 where
  arrow_right arrow_left other_key : Key

-- `(index + dir + tabs.length) % tabs.length`; there is a tab that has the focus.
unfoldable pub next_index : Key → ℕ → ℕ → Option ℕ
next_index arrow_right index n = some ((index + 1 + n) % n)
next_index arrow_left index n = some ((index + n - 1) % n)
next_index other_key index n = none

-- The tab that is made active and gets the focus, if any.
unfoldable pub handle_key_down : Key → ℕ → List TabItem → Option TabItem
unfolding next_index
handle_key_down key index tabs = elim (next_index key index (length tabs)) [
  | none ↦ none
  | some i ↦ get_elem? tabs i
]

pub record TabButton : Type 0 where
  pub id : Text
  pub selected : Bool
  pub in_tab_order : Bool
  pub badge : Option ℕ

unfoldable pub buttons : List TabItem → Text → List TabButton
buttons tabs active =
    map
      (λ (t : TabItem). record {
        id = t.id;
        selected = text_eq active t.id;
        in_tab_order = text_eq active t.id;
        badge = t.badge;
      })
      tabs

-- A `TabPanel` renders its children only if its tab is active.
unfoldable pub panel_shown : Text → Text → Bool
panel_shown id active = text_eq id active
