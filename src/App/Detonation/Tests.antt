-- ===== src/App/Detonation/Tests.antt =====
-- frontend/src/components/UploadPanel.tsx on the page of frontend/src/App.tsx at concrete events.
use mirraura.Base.{List, [], ◌∷◌, some, true, false, text, ◌≡◌, refl, elem}
use mirraura.Api.Request.{File, fulfilled}
use mirraura.Upload.{handle_file, handle_upload, tick, run_disabled, upload_answered}
use mirraura.App.{handle_login, handle_logout, upload_started}
use mirraura.App
use mirraura.App.Events.{logs_in, logs_out}
use mirraura.App.Together
use mirraura.Types.{Verdict, compromised}
use mirraura.Api.Endpoints.{Session}
use mirraura.App.Detonation.{
  Detonation, ZoneEvent, others, picks, runs_sample, ticks, answered, is_here, handle, run, begin,
}
use mirraura.App.Detonation.Uploads.{IsOneRun, uploads_end}

abbrev bob : Session
bob = record { username = text "bob"; role = text "analyst" }

abbrev ada : Session
ada = record { username = text "ada"; role = text "admin" }

abbrev upload_verdict : Verdict
upload_verdict = record {
  verdict_id = text "1";
  sample_hash = text "ab";
  sample_filename = text "a";
  verdict = compromised;
  confidence = record { negative = false; mantissa = 5; scale = 1 };
  causal_chain = [];
  timestamp = text "now";
  prev_log_hash = text "";
  detection_method = text "static";
  source = text "manual";
}

abbrev a_file : File
a_file = record { name = text "a.bin"; size = 2; content = fulfilled [] }

-- The sample of bob is running when ada signs in and runs it again.
abbrev two_sessions : List ZoneEvent
two_sessions =
    others (Together.page (logs_in bob))
    ∷ picks a_file
    ∷ runs_sample
    ∷ ticks
    ∷ others (Together.page (logs_out (fulfilled tt)))
    ∷ others (Together.page (logs_in ada))
    ∷ picks a_file
    ∷ runs_sample
    ∷ []

abbrev after_sessions : Detonation
after_sessions = run (λ s. s) two_sessions begin

ada_is_here : is_here after_sessions ≡ true
unfolding handle Together.handle handle_login handle_logout upload_started handle_file handle_upload
    tick run_disabled
ada_is_here = refl

uploads_end_example : IsOneRun (λ s. s) (run (λ s. s) two_sessions begin)
uploads_end_example = uploads_end (λ s. s) two_sessions ada_is_here

-- The answer to the upload of bob shows ada its verdict, and leaves her upload on its way.
answer_of_bob :
    let d = handle (λ s. s) (answered 1 (fulfilled upload_verdict)) after_sessions in
    (after_sessions.zone.runs ≡ 2 ∷ 1 ∷ [])
    × (d.zone.runs ≡ 2 ∷ [])
    × (d.zone.upload.busy ≡ true)
    × (d.whole.app.verdict ≡ some upload_verdict)
unfolding handle Together.handle handle_login handle_logout upload_started handle_file handle_upload
    tick run_disabled upload_answered App.handle_upload elem
answer_of_bob = (refl, refl, refl, refl)
