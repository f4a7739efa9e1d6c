-- ===== src/Monitor.antt =====
-- frontend/src/components/MonitorBanner.tsx
pub mod Answers
mod Tests
use mirraura.Base.{Bool, true, false, Text, text, Option, none, some, if◌then◌else◌}
use mirraura.Types.{Role, admin, analyst}
use mirraura.Api.Request.{Outcome, fulfilled, rejected, message_or, Call}
use mirraura.Api.Endpoints.{reconnect_monitor}

pub record Banner : Type 0 where
  pub busy : Bool
  pub error : Option Text
  pub confirming : Bool

abbrev pub start : Banner
start = record { busy = false; error = none; confirming = false }

unfoldable pub ask_reconnect : Banner → Banner
ask_reconnect b = record b { confirming = true }

unfoldable pub cancel_reconnect : Banner → Banner
cancel_reconnect b = record b { confirming = false }

unfoldable pub handle_reconnect : Banner → Banner × Call
handle_reconnect b = (record b { confirming = false; busy = true; error = none }, reconnect_monitor)

-- Whether `onReconnected` is called.
unfoldable pub reconnect_answered : Outcome (Unit {0}) → Banner → Banner × Bool
reconnect_answered (fulfilled _) b = (record b { busy = false }, true)
reconnect_answered (rejected e) b =
    (record b { error = some (message_or (text "reconnect failed") e); busy = false }, false)

-- The button, there for an admin: its label and whether it is disabled.
pub record Button : Type 0 where
  pub label : Text
  pub disabled : Bool

pub record View : Type 0 where
  pub button : Option Button
  pub error : Option Text
  pub dialog_open : Bool

abbrev reconnect_button : Role → Banner → Option Button
reconnect_button admin b = some (record {
  label = if b.busy then text "Reconnecting…" else text "Reconnect";
  disabled = b.busy;
})
reconnect_button analyst b = none

-- Nothing is rendered unless the endpoint is isolated.
unfoldable pub view : Bool → Role → Banner → Option View
view isolated role b =
    if isolated
    then some
        (record { button = reconnect_button role b; error = b.error; dialog_open = b.confirming })
    else none
