-- ===== src/Dialog.antt =====
-- frontend/src/components/ConfirmDialog.tsx: the element is the browser's dialog, open or not.
pub mod Sync
mod Tests
use mirraura.Base.{Bool, true, false, not, ◌&&◌, Option, none, some, if◌then◌else◌, Text, text}

-- What the effect does to the element.
pub data Order : Type 0 where
  show_modal close : Order

-- `present` is whether the ref is set.
unfoldable pub sync : (present shown open_ : Bool) → Option Order
sync present shown open_ =
    if not present
    then none
    else if open_ && not shown
    then some show_modal
    else if not open_ && shown
    then some close
    else none

-- The element after an order.
abbrev pub obey : Option Order → Bool → Bool
obey none shown = shown
obey (some show_modal) shown = true
obey (some close) shown = false

pub data Event : Type 0 where
  escape backdrop_click inside_click cancel_click confirm_click : Event

pub data Callback : Type 0 where
  on_cancel on_confirm : Callback

-- The callback that is called; no event closes the element by itself.
unfoldable pub handle_event : Event → Option Callback
handle_event escape = some on_cancel
handle_event backdrop_click = some on_cancel
handle_event inside_click = none
handle_event cancel_click = some on_cancel
handle_event confirm_click = some on_confirm

-- What stands in the element, open or not.
pub record View {ℓ} (A : Type ℓ) : Type ℓ where
  pub title : Text
  pub description : A
  pub cancel_label : Text
  pub confirm_label : Text

unfoldable pub view {ℓ} : {A : Type ℓ} → Text → A → Text → View A
view title description confirm_label = record {
  title = title;
  description = description;
  cancel_label = text "Cancel";
  confirm_label = confirm_label;
}
