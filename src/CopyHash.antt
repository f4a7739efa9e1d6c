-- ===== src/CopyHash.antt =====
-- frontend/src/components/CopyHash.tsx
pub mod Truncation
mod Tests
use mirraura.Base.{
  none, some, ℕ, ◌-◌, ◌*◌, leb, ◌==◌, Bool, true, false, List, [], ◌∷◌, ◌++◌, take, drop, length,
  Text, text, if◌then◌else◌, ◌+◌, Option,
}
use mirraura.Toast.{ToastTone, success, error}

-- `s.slice(-n)`: `-0` is 0, and so the whole text.
unfoldable pub slice_last : ℕ → Text → Text
slice_last n s = if n == 0 then s else drop (length s - n) s

abbrev pub ellipsis : Text
ellipsis = 8230 ∷ []

unfoldable pub truncate_middle : Text → ℕ → Text
unfolding slice_last
truncate_middle s keep =
    if leb (length s) (keep * 2) then s else take keep s ++ (ellipsis ++ slice_last keep s)

abbrev pub default_keep : ℕ
default_keep = 6

-- Whether the tick is shown, and the timers that will hide it.
pub record CopyHash : Type 0 where
  pub copied : Bool
  pub timers : ℕ

-- The clipboard has answered; with the toast that is pushed.
unfoldable pub handle_copy : (written : Bool) → CopyHash → CopyHash × (Text × ToastTone)
handle_copy true s =
    (record { copied = true; timers = s.timers + 1 }, (text "Copied to clipboard", success))
handle_copy false s = (s, (text "Copy failed", error))

unfoldable pub timer_fires : CopyHash → CopyHash
timer_fires s = record { copied = false; timers = s.timers - 1 }

-- What is rendered: the title has the whole hash, and a screen reader is told it with its label.
pub data CopyIcon : Type 0 where
  check copy : CopyIcon

pub record View : Type 0 where
  pub title : Text
  pub shown : Text
  pub spoken : Text
  pub icon : CopyIcon

-- `label ? ... : ""`
abbrev label_prefix : Option Text → Text
label_prefix none = []
label_prefix (some []) = []
label_prefix (some (c ∷ s)) = (c ∷ s) ++ text ": "

unfoldable pub view : Text → Option Text → CopyHash → View
unfolding truncate_middle
view hash label s = record {
  title = hash;
  shown = truncate_middle hash default_keep;
  spoken = label_prefix label ++ (hash ++ text " — click to copy");
  icon = if s.copied then check else copy;
}
