-- ===== src/Toast.antt =====
-- frontend/src/components/Toast.tsx: the bus of notifications. The module's variables, the hosts
-- that show them and the timers that are running are one record.
pub mod Timers
pub mod Shown
pub mod Waiting
pub mod Refinement
pub mod Quiet
mod Tests
use mirraura.Base.{
  zero, ℕ, suc, ◌==◌, Bool, true, false, not, List, [], ◌∷◌, ◌++◌, Text, filter, map, if◌then◌else◌,
}

pub data ToastTone : Type 0 where
  info success error : ToastTone

pub record ToastItem : Type 0 where
  pub id : ℕ
  pub message : Text
  pub tone : ToastTone

abbrev pub dismiss_after_ms : ℕ
dismiss_after_ms = 4000

-- A mounted `ToastHost`: whether its effect has added it to the listeners, and the items it shows.
pub record Host : Type 0 where
  pub listening : Bool
  pub items : List ToastItem

pub record Bus : Type 0 where
  pub toasts : List ToastItem
  pub next_id : ℕ
  pub hosts : List Host
  -- The ids that the running timers will dismiss.
  pub timers : List ℕ

abbrev hear : List ToastItem → Host → Host
hear items h = if h.listening then record h { items = items } else h

unfoldable pub emit : Bus → Bus
emit b = record b { hosts = map (hear b.toasts) b.hosts }

unfoldable pub dismiss : ℕ → Bus → Bus
unfolding emit
dismiss id b = emit (record b { toasts = filter (λ (t : ToastItem). not (t.id == id)) b.toasts })

unfoldable pub push : Text → ToastTone → Bus → Bus
unfolding emit
push message tone b =
    let item : ToastItem = record { id = b.next_id; message = message; tone = tone } in
    let shown = emit (record b { next_id = suc b.next_id; toasts = b.toasts ++ item ∷ [] }) in
    record shown { timers = shown.timers ++ b.next_id ∷ [] }

-- `useState(toasts)`, and the effect that follows.
unfoldable pub mount_host : Bus → Bus
mount_host b = record b { hosts = record { listening = false; items = b.toasts } ∷ b.hosts }

unfoldable pub listen : Bus → Bus
listen b = record b { hosts = map (λ (h : Host). record h { listening = true }) b.hosts }

abbrev remove_at : ℕ → List Host → List Host
remove_at i [] = []
remove_at zero (h ∷ hs) = hs
remove_at (suc i) (h ∷ hs) = h ∷ remove_at i hs

-- The listener of the host at a position is deleted, and its state is lost with it.
unfoldable pub unmount_host : ℕ → Bus → Bus
unmount_host i b = record b { hosts = remove_at i b.hosts }

abbrev pub start : Bus
start = record { toasts = []; next_id = 0; hosts = []; timers = [] }

-- A timer fires and dismisses its toast; any of the others may fire later.
abbrev fire : List ℕ → ℕ → List ℕ → Bus → Bus
fire before id after b = dismiss id (record b { timers = before ++ after })

-- What a host renders; the close button of an item dismisses its id.
pub data ToastIcon : Type 0 where
  info_icon check_circle x_circle : ToastIcon

abbrev pub tone_icon : ToastTone → ToastIcon
tone_icon info = info_icon
tone_icon success = check_circle
tone_icon error = x_circle

pub record ToastView : Type 0 where
  pub icon : ToastIcon
  pub tone : ToastTone
  pub message : Text
  pub dismisses : ℕ

unfoldable pub host_view : Host → List ToastView
host_view h =
    map
      (λ (t : ToastItem). record {
        icon = tone_icon t.tone;
        tone = t.tone;
        message = t.message;
        dismisses = t.id;
      })
      h.items
