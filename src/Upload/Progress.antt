-- ===== src/Upload/Progress.antt =====
-- The upload of frontend/src/components/UploadPanel.tsx: what holds after any events.
use mirraura.Base.{
  ℕ, ◌≤◌, ◌≡◌, ◌≢◌, true, false, Option, none, some, arith, Bool, if◌then◌else◌, Text, ◌-◌, suc,
  ◌<◌,
}
use mirraura.Types.{Verdict}
use mirraura.Api.Request.{File, Outcome, fulfilled, rejected}
use mirraura.Upload.{
  Upload, start, last_step, handle_file, hash_answered, handle_upload, tick, upload_answered, drag,
  handle_drop, run_disabled,
}

-- The panel, and the uploads that have not been answered.
pub record World : Type 0 where
  pub panel : Upload
  pub in_flight : ℕ

pub data Step (w v : World) : Type 0 where
  picks : (f : File) → v ≡ record w { panel = handle_file f w.panel } → Step w v
  drops : (f : Option File) → v ≡ record w { panel = handle_drop f w.panel } → Step w v
  drags : (over : Bool) → v ≡ record w { panel = drag over w.panel } → Step w v
  hashed : (h : Outcome Text) → v ≡ record w { panel = hash_answered h w.panel } → Step w v
  -- A disabled button is not clicked.
  runs :
      run_disabled w.panel ≡ false
      → v ≡ record { panel = (handle_upload w.panel).0; in_flight = suc w.in_flight }
      → Step w v
  ticks : w.panel.ticking ≡ true → v ≡ record w { panel = tick w.panel } → Step w v
  answered :
      (answer : Outcome Verdict)
      → 0 < w.in_flight
      → v ≡ record { panel = (upload_answered answer w.panel).0; in_flight = w.in_flight - 1 }
      → Step w v

pub data Reach : World → Type 0 where
  begin : Reach (record { panel = start; in_flight = 0 })
  next : {w v : World} → Reach w → Step w v → Reach v

pub record IsTracked (w : World) : Type 0 where
  -- Busy and ticking, with a file, exactly while one upload is on its way.
  pub one_upload : w.in_flight ≡ (if w.panel.busy then 1 else 0)
  pub ticker : w.panel.ticking ≡ w.panel.busy
  pub chosen : w.panel.busy ≡ true → w.panel.file ≢ none
  -- The last step is shown only once the upload has been answered.
  pub underway : w.panel.busy ≡ true → w.panel.step_index ≤ last_step - 1
  pub bounded : w.panel.step_index ≤ last_step

Step-IsTracked : {w v : World} → Step w v → IsTracked w → IsTracked v
unfolding handle_file hash_answered handle_upload tick upload_answered drag handle_drop run_disabled
Step-IsTracked (picks f e) s = ground arith
Step-IsTracked (drops none e) s = ground arith
Step-IsTracked (drops (some f) e) s = ground arith
Step-IsTracked (drags over e) s = ground arith
Step-IsTracked (hashed (fulfilled h) e) s = ground arith
Step-IsTracked (hashed (rejected f) e) s = ground arith
Step-IsTracked (runs d e) s = ground arith
Step-IsTracked (ticks t e) s = ground arith
Step-IsTracked (answered (fulfilled x) n e) s = ground arith
Step-IsTracked (answered (rejected f) n e) s = ground arith

-- After any choices of files, digests, clicks on the enabled button, ticks and answers: the panel is
-- busy, and its ticker runs, exactly while one upload is on its way, of a file that was chosen; while
-- it is, the progress does not reach the last step, and it never goes beyond it.
pub Reach-IsTracked : {w : World} → Reach w → IsTracked w
Reach-IsTracked begin = ground arith
Reach-IsTracked (next r s) = Step-IsTracked s (Reach-IsTracked r)
