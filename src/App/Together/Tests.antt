-- ===== src/App/Together/Tests.antt =====
-- The page of frontend/src/App.tsx with all its panels at concrete inputs.
use mirraura.Base.{
  true, false, List, [], ◌∷◌, none, some, All, text, text_eq, ◌≡◌, refl, ◌⊎◌, elem, suc,
  if◌then◌else◌,
}
use mirraura.Types.{analyst, ReviewStatus, Verdict, compromised}
use mirraura.Api.Request.{fulfilled, Failure, rejected, api_error}
use mirraura.Api.Endpoints.{Session, HashEntry, EntrySource}
use mirraura.Hashes
use mirraura.Hashes.{refetch_answered}
use mirraura.Review.{decision_answered}
use mirraura.Corpus
use mirraura.Quarantine
use mirraura.AuditLog.{AuditRow, verdicts_answered, chain_answered}
use mirraura.Tabs.{Key, handle_key_down}
use mirraura.App.{
  panels, panel_ids, pending_count, count_of, handle_login, verdicts_changed, tabs, change_tab,
  hashes_changed, on_decision, role_of, signed_in, signed_out, sign_in, handle_logout, Verdict,
  Text, MirraEvent, event,
}
use mirraura.App.Dashboard.{is_current, call_answer_event, load_answer_event}
use mirraura.App.Events.{uploads, logs_in, logs_out, moves, clicks, presses}
use mirraura.App.Dashboard.Slots.{decision, hashes_slot, corpus_slot, quarantine_slot}
use mirraura.App.Together.{
  Event, page, log_verdicts, log_chain, hashes_load, hashes_call, run, begin, Whole, handle,
  on_page,
}
use mirraura.App
use mirraura.App.LogMount.{cancelled}
use mirraura.App.Together.Expiry.{failed_load, of_hashes, expired_answers}
use mirraura.App.Together.Others.{Prompt}
use mirraura.App.Together.Chosen.{OneOf, Admits}
use mirraura.App.Together.Log.{log_agrees}
use mirraura.App.Together.Badges.{badges_agree}
use mirraura.App.Together.OneTab.{one_panel, users_for_admins, IsAnalyst}
use mirraura.App.Together.Awaits.{SkeletonEnds}
use mirraura.App.Together.Refresh.{AllAsk, refresh_reloads}
use mirraura.App.Together.KeyMoves.{refreshes}
use mirraura.App.Together.Loadings.{hashes_skeleton, corpus_skeleton, quarantine_skeleton}
use mirraura.App.Together.LogAwaits.{LogSkeletonEnds}
use mirraura.App.Together.Skeletons.{skeletons_end}

abbrev pub bob : Session
bob = record { username = text "bob"; role = text "analyst" }

abbrev a_row : AuditRow
a_row = record {
  verdict_id = none;
  sample_hash = none;
  sample_filename = none;
  verdict = none;
  confidence = none;
  timestamp = text "now";
  detection_method = none;
  source = none;
  action = some (text "isolate");
  device_id = none;
  record_id = none;
  hash = none;
  actor = none;
}

abbrev a_hash : HashEntry
a_hash = record {
  hash = text "ab";
  label = text "a";
  status = ReviewStatus.pending;
  source = EntrySource.manual;
  proposed_at = text "now";
  reviewed_at = none;
}

-- The audit log is read, and a decision is made in the table of the hashes.
abbrev visits : List Event
visits =
    page (logs_in bob)
    ∷ log_verdicts 1 (fulfilled (a_row ∷ []))
    ∷ page (moves (clicks 1))
    ∷ hashes_load 1 (fulfilled (a_hash ∷ []))
    ∷ hashes_call 1 decision (fulfilled tt)
    ∷ []

-- Back to the audit log, whose earlier mount has a chain's status on its way.
abbrev returns : List Event
returns =
    page (moves (presses Key.arrow_left 1))
    ∷ log_chain 1 7 (fulfilled (record { intact = true; entries = 3; broken_at = none }))
    ∷ log_verdicts 2 (fulfilled [])
    ∷ []

abbrev after_visits : Whole
after_visits = run (λ s. s) visits begin

abbrev after_return : Whole
after_return = run (λ s. s) returns after_visits

visits_lem :
    (panels after_visits.app ≡ text "hashes" ∷ [])
    × (pending_count after_visits.app ≡ 1)
    × (after_visits.hashes.loads ≡ 1 ∷ 1 ∷ [])
    × (after_visits.app.refresh_key ≡ 1)
    × (after_visits.app.verdicts ≡ some (a_row ∷ []))
unfolding handle panels text_eq call_answer_event load_answer_event elem handle_login
    verdicts_answered verdicts_changed tabs change_tab refetch_answered hashes_changed
    decision_answered on_decision
visits_lem = (refl, refl, refl, refl, refl)

return_lem :
    (panels after_return.app ≡ text "audit" ∷ [])
    × (after_return.log.effect ≡ 2)
    × (after_return.log.log.rows ≡ [])
    × (after_return.app.verdicts ≡ some [])
    × (after_return.app.chain_status ≡ none)
unfolding handle panels text_eq call_answer_event load_answer_event elem handle_login
    verdicts_answered verdicts_changed tabs change_tab refetch_answered hashes_changed
    decision_answered on_decision chain_answered handle_key_down role_of
return_lem = (refl, refl, refl, refl, refl)

visits-Prompt : Prompt (λ s. s) visits begin
unfolding Prompt is_current handle handle_login text_eq text elem verdicts_answered verdicts_changed
    tabs change_tab role_of handle_key_down
visits-Prompt = (tt, (tt, (tt, (refl, (tt, tt)))))

log_agrees_example :
    ((after_visits.log.log.rows ≡ [])
      ⊎ (after_visits.app.verdicts ≡ some after_visits.log.log.rows))
    × ((after_visits.log.log.chain_status ≡ none)
        ⊎ (after_visits.app.chain_status ≡ after_visits.log.log.chain_status))
log_agrees_example = log_agrees (λ s. s) visits

badges_agree_example :
    (((Hashes.view analyst after_visits.hashes.panel).count ≡ 0)
      ⊎ (pending_count after_visits.app ≡ (Hashes.view analyst after_visits.hashes.panel).count))
    × (((Corpus.view analyst after_visits.corpus.panel).count ≡ 0)
        ⊎ (count_of after_visits.app.corpus
            ≡ (Corpus.view analyst after_visits.corpus.panel).count))
    × (((Quarantine.view analyst after_visits.quarantine.panel).count ≡ 0)
        ⊎ (count_of after_visits.app.quarantine
            ≡ (Quarantine.view analyst after_visits.quarantine.panel).count))
badges_agree_example = badges_agree (λ s. s) analyst visits visits-Prompt

one_panel_example :
    OneOf after_visits.app.bottom_tab panel_ids
    × (panels after_visits.app ≡ after_visits.app.bottom_tab ∷ [])
one_panel_example = one_panel (λ s. s) visits

visits-IsAnalyst : All (Admits IsAnalyst) visits
unfolding Admits role_of text_eq text
visits-IsAnalyst = (refl, (tt, (tt, (tt, (tt, tt)))))

users_for_admins_example : All (λ id. text_eq id (text "users") ≡ false) (panels after_visits.app)
users_for_admins_example = users_for_admins (λ s. s) visits visits-IsAnalyst

abbrev pub ada : Session
ada = record { username = text "ada"; role = text "admin" }

-- The hashes are still loading when bob signs out and ada signs in.
abbrev hands_over : List Event
hands_over =
    page (logs_in bob)
    ∷ page (moves (clicks 1))
    ∷ page (logs_out (fulfilled tt))
    ∷ page (logs_in ada)
    ∷ []

abbrev with_ada : Whole
with_ada = run (λ s. s) hands_over begin

abbrev pub expired : Failure
expired = api_error (text "unauthorized") 401

with_ada_lem :
    (with_ada.app.user ≡ signed_in ada)
    × (elem 1 with_ada.hashes.loads ≡ true)
    × (cancelled 1 with_ada.app with_ada.log ≡ true)
unfolding handle handle_login handle_logout tabs role_of text_eq text elem change_tab cancelled
with_ada_lem = (refl, refl, refl)

expired_answers_example :
    let a = (handle (λ s. s) (failed_load of_hashes 1 expired) with_ada).app in
    (a.user ≡ signed_out)
    × (App.page a ≡ sign_in true)
    × ((handle (λ s. s) (log_verdicts 1 (rejected expired)) with_ada).app ≡ with_ada.app)
expired_answers_example =
    expired_answers (λ s. s) of_hashes 1 1 expired with_ada refl with_ada_lem.1 with_ada_lem.2

skeletons_end_example :
    SkeletonEnds hashes_slot hashes_skeleton (on_page with_ada.app with_ada.hashes)
    × SkeletonEnds corpus_slot corpus_skeleton (on_page with_ada.app with_ada.corpus)
    × SkeletonEnds quarantine_slot quarantine_skeleton (on_page with_ada.app with_ada.quarantine)
    × LogSkeletonEnds with_ada
skeletons_end_example = skeletons_end (λ s. s) hands_over

-- The table of the hashes is on the page, and waits for an upload's answer.
abbrev before_upload : Whole
before_upload = run (λ s. s) (page (logs_in bob) ∷ page (moves (clicks 1)) ∷ []) begin

abbrev pub upload_verdict : Verdict
upload_verdict = record {
  verdict_id = text "1";
  sample_hash = text "ab";
  sample_filename = text "a";
  verdict = compromised;
  confidence = record { negative = false; mantissa = 5; scale = 1 };
  causal_chain = [];
  timestamp = text "now";
  prev_log_hash = text "";
  detection_method = text "static";
  source = text "manual";
}

refresh_reloads_example :
    let e = page (uploads upload_verdict) in
    let v = handle (λ s. s) e before_upload in
    (v.app.refresh_key ≡ (
      if refreshes e before_upload
      then suc before_upload.app.refresh_key
      else before_upload.app.refresh_key))
    × ((refreshes e before_upload ≡ false) ⊎ AllAsk v)
refresh_reloads_example = refresh_reloads (λ s. s) (page (uploads upload_verdict)) before_upload
