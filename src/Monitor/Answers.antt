-- ===== src/Monitor/Answers.antt =====
-- The reconnection of frontend/src/components/MonitorBanner.tsx together with frontend/src/App.tsx.
use mirraura.Base.{◌≡◌, ◌≢◌, ◌↔◌, true, false, text, Option, none, some, arith, Bool}
use mirraura.Types.{Role, admin, analyst}
use mirraura.Api.Request.{Outcome, fulfilled, rejected}
use mirraura.Api.Endpoints.{reconnect_monitor}
use mirraura.App.{App, on_reconnected}
use mirraura.Monitor.{Banner, Button, View, handle_reconnect, reconnect_answered, view}

abbrev pub after : Bool → App → App
after true a = on_reconnected a
after false a = a

-- The button of the banner that is shown, if any.
abbrev pub button_of : Option View → Option Button
button_of none = none
button_of (some v) = v.button

-- A confirmed reconnection makes its call and disables the button until the answer. Success takes the
-- banner away and nothing else does: on a failure it stays, with an error and an enabled button. The
-- button is there exactly for an admin while the endpoint is isolated.
pub reconnect_lem :
    (b : Banner) (a : App) (answer : Outcome (Unit {0})) (role : Role)
    → a.isolated ≡ true
    → let (c, call) = handle_reconnect b in
      let (d, reconnected) = reconnect_answered answer c in
      let a' = after reconnected a in
      (call ≡ reconnect_monitor)
      × (c.confirming ≡ false)
      × ((button_of (view a.isolated role c) ≢ none) ↔ (role ≡ admin))
      × (button_of (view a.isolated admin c)
          ≡ some (record { label = text "Reconnecting…"; disabled = true }))
      × ((view a'.isolated role d ≡ none) ↔ (answer ≡ fulfilled tt))
      × (answer ≢ fulfilled tt
          → (d.error ≢ none)
            × (button_of (view a'.isolated admin d)
                ≡ some (record { label = text "Reconnect"; disabled = false })))
unfolding handle_reconnect reconnect_answered view on_reconnected
reconnect_lem b a (fulfilled x) admin h = ground arith
reconnect_lem b a (fulfilled x) analyst h = ground arith
reconnect_lem b a (rejected e) admin h = ground arith
reconnect_lem b a (rejected e) analyst h = ground arith
