-- ===== src/Dialog/Sync.antt =====
-- The dialog of frontend/src/components/ConfirmDialog.tsx together with a review panel.
use mirraura.Base.{◌≡◌, ◌↔◌, ◌≢◌, Bool, true, Option, none, some, is_some, arith}
use mirraura.Review.{Review, PendingAction, cancel, confirm}
use mirraura.Dialog.{
  sync, obey, Event, escape, backdrop_click, inside_click, cancel_click, confirm_click, Callback,
  on_cancel, on_confirm, handle_event,
}

-- What a panel does on a callback.
abbrev pub respond {ℓ κ} : {K : Type ℓ} {E : Type κ} → Option Callback → Review K E → Review K E
respond none r = r
respond (some on_cancel) r = cancel r
respond (some on_confirm) r = (confirm r).0

-- The element, once it is there, is open exactly while the panel has a question, whatever it was
-- before; and of all events in the dialog, exactly Escape, a click beside it and the Cancel button
-- take back a question that the panel has.
pub sync-respond {ℓ κ} :
    {K : Type ℓ} {E : Type κ} (r : Review K E) (a : PendingAction K) (event : Event) (shown : Bool)
    → r.pending_action ≡ some a
    → let s = respond (handle_event event) r in
      (obey (sync true shown (is_some r.pending_action)) shown ≡ true)
      × ((obey (sync true shown (is_some s.pending_action)) shown ≡ true)
          ↔ (s.pending_action ≢ none))
      × ((s.pending_action ≡ none) ↔ (handle_event event ≡ some on_cancel))
unfolding sync handle_event cancel confirm
sync-respond r a escape shown h = ground arith
sync-respond r a backdrop_click shown h = ground arith
sync-respond r a inside_click shown h = ground arith
sync-respond r a cancel_click shown h = ground arith
sync-respond r a confirm_click shown h = ground arith
