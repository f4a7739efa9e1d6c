-- ===== src/App/Detonation.antt =====
-- The upload panel of frontend/src/components/UploadPanel.tsx on the page of frontend/src/App.tsx, lines
-- 144 to 156: it is mounted while a user is signed in, and its uploads outlive it.
pub mod Runs
pub mod Panel
pub mod Tracked
pub mod Uploads
mod Tests
use mirraura.Base.{
  ℕ, suc, ◌==◌, Bool, not, ◌&&◌, List, [], ◌∷◌, Text, Option, none, some, elem, if◌then◌else◌,
}
use mirraura.Types.{Verdict}
use mirraura.Api.Request.{File, Outcome}
use mirraura.Upload.{
  Upload, Effect, handle_file, hash_answered, handle_upload, tick, upload_answered, drag,
  handle_drop, run_disabled,
}
use mirraura.Upload
use mirraura.App.{UserState}
use mirraura.App.Events.{PageEvent, expires, uploads, upload_starts}
use mirraura.App.Connected.{is_signed_in}
use mirraura.App.Dashboard.{remove_one}
use mirraura.App.Together
use mirraura.App.Together.{Whole}

-- The panel of the current mount, and the mounts whose digests and uploads are on their way.
pub record UploadMount : Type 0 where
  pub upload : Upload
  pub mount : ℕ
  pub digests : List ℕ
  pub runs : List ℕ

pub record Detonation : Type 0 where
  pub whole : Whole
  pub zone : UploadMount

-- `others` is everything but the panel's own events.
pub data ZoneEvent : Type 0 where
  others : Together.Event → ZoneEvent
  picks : File → ZoneEvent
  drops : Option File → ZoneEvent
  drags : Bool → ZoneEvent
  hashed : ℕ → Outcome Text → ZoneEvent
  runs_sample ticks : ZoneEvent
  answered : ℕ → Outcome Verdict → ZoneEvent

-- The panel after the session has changed.
unfoldable pub zone_settled : UserState → UserState → UploadMount → UploadMount
zone_settled a b m =
    if is_signed_in b && not (is_signed_in a)
    then record m { upload = Upload.start; mount = suc m.mount }
    else m

-- What the panel calls back, as an event of the page.
abbrev pub page_effect : Effect → PageEvent
page_effect Effect.session_expired = expires
page_effect (Effect.verdict_received v) = uploads v

-- A digest is asked for with each file.
abbrev asks : UploadMount → UploadMount
asks m = record m { digests = m.mount ∷ m.digests }

-- What the user, the ticker and the digests do to a panel that is there; the input is disabled while
-- the panel is busy, and the button as `run_disabled` says.
unfoldable pub pick : File → UploadMount → UploadMount
unfolding handle_file
pick f m = if m.upload.busy then m else asks (record m { upload = handle_file f m.upload })

unfoldable pub drop_file : Option File → UploadMount → UploadMount
unfolding handle_drop
drop_file none m = record m { upload = handle_drop none m.upload }
drop_file (some f) m = asks (record m { upload = handle_drop (some f) m.upload })

unfoldable pub drag_over : Bool → UploadMount → UploadMount
unfolding drag
drag_over over m = record m { upload = drag over m.upload }

unfoldable pub run_sample : UploadMount → UploadMount
unfolding handle_upload
run_sample m = record m { upload = (handle_upload m.upload).0; runs = m.mount ∷ m.runs }

unfoldable pub interval : UploadMount → UploadMount
unfolding tick
interval m = if m.upload.ticking then record m { upload = tick m.upload } else m

-- An answer reaches the panel if it is still the one that asked.
unfoldable pub digest_arrives : Bool → ℕ → Outcome Text → UploadMount → UploadMount
unfolding hash_answered
digest_arrives here k h m =
    if elem k m.digests
    then record m {
      upload = if here && k == m.mount then hash_answered h m.upload else m.upload;
      digests = remove_one k m.digests;
    }
    else m

unfoldable pub answer_arrives : Bool → ℕ → Outcome Verdict → UploadMount → UploadMount
unfolding upload_answered
answer_arrives here k answer m = record m {
  upload = if here && k == m.mount then (upload_answered answer m.upload).0 else m.upload;
  runs = remove_one k m.runs;
}

abbrev pub is_here : Detonation → Bool
is_here d = is_signed_in d.whole.app.user

abbrev pub on_zone : (UploadMount → UploadMount) → Detonation → Detonation
on_zone f d = if is_here d then record d { zone = f d.zone } else d

module _ (lower : Text → Text) where
  -- The page takes an event, and the panel follows its session.
  unfoldable pub whole_event : Together.Event → Detonation → Detonation
  unfolding zone_settled
  whole_event e d =
      let w = Together.handle lower e d.whole in
      record { whole = w; zone = zone_settled d.whole.app.user w.app.user d.zone }

  abbrev pub call_back : List Effect → Detonation → Detonation
  call_back [] d = d
  call_back (e ∷ es) d = call_back es (whole_event (Together.page (page_effect e)) d)

  unfoldable pub handle : ZoneEvent → Detonation → Detonation
  unfolding pick drop_file drag_over run_sample interval digest_arrives answer_arrives run_disabled
      upload_answered whole_event
  handle (others e) d = whole_event e d
  handle (picks f) d = on_zone (pick f) d
  handle (drops f) d = on_zone (drop_file f) d
  handle (drags over) d = on_zone (drag_over over) d
  handle (hashed k h) d = record d { zone = digest_arrives (is_here d) k h d.zone }
  handle runs_sample d =
      if is_here d && not (run_disabled d.zone.upload)
      then whole_event (Together.page upload_starts) (record d { zone = run_sample d.zone })
      else d
  handle ticks d = on_zone interval d
  handle (answered k answer) d =
      if elem k d.zone.runs
      then call_back (upload_answered answer d.zone.upload).1
          (record d { zone = answer_arrives (is_here d) k answer d.zone })
      else d

  abbrev pub run : List ZoneEvent → Detonation → Detonation
  run [] d = d
  run (e ∷ es) d = run es (handle e d)

abbrev pub begin : Detonation
begin = record {
  whole = Together.begin;
  zone = record { upload = Upload.start; mount = 0; digests = []; runs = [] };
}
