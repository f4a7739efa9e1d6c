-- ===== src/App/Detonation/Uploads.antt =====
-- The uploads of frontend/src/components/UploadPanel.tsx through the sessions of frontend/src/App.tsx,
-- after any events of the page.
use mirraura.Base.{
  ℕ, ◌==◌, ◌<◌, ◌≤◌, Bool, true, false, List, [], ◌∷◌, elem, none, ◌≡◌, ◌≢◌, refl, inl, inr,
  Bool-cases, arith, Text, if◌then◌else◌, ◌&&◌, ◌⊎◌, not,
}
use mirraura.Types.{Verdict}
use mirraura.Api.Request.{Outcome}
use mirraura.Upload.{Effect, last_step, upload_answered, run_disabled}
use mirraura.App.{UserState}
use mirraura.App.Together
use mirraura.App.Detonation.{
  Detonation, UploadMount, ZoneEvent, others, picks, drops, drags, hashed, runs_sample, ticks,
  answered, zone_settled, pick, drop_file, drag_over, run_sample, interval, answer_arrives, is_here,
  whole_event, call_back, handle, run, begin, page_effect, on_zone, upload_starts, not,
}
use mirraura.App.Detonation.Runs.{count, elem-count}
use mirraura.App.Detonation.Tracked.{upload_ends, answer-Tracked}
use mirraura.App.Detonation.Panel.{
  settled-Tracked, pick-Tracked, drop-Tracked, drag-Tracked, digest-Tracked, run-Tracked,
  interval-Tracked, Tracked,
}
use mirraura.App.Events.{upload_starts}

whole-Tracked :
    (lower : Text → Text) (e : Together.Event) (d : Detonation)
    → Tracked (is_here d) d.zone
    → let v = whole_event lower e d in Tracked (is_here v) v.zone
unfolding whole_event
whole-Tracked lower e d h =
    settled-Tracked d.whole.app.user (Together.handle lower e d.whole).app.user d.zone h

call_back-Tracked :
    (lower : Text → Text) (es : List Effect) (d : Detonation)
    → Tracked (is_here d) d.zone
    → let v = call_back lower es d in Tracked (is_here v) v.zone
call_back-Tracked lower [] d h = h
call_back-Tracked lower (e ∷ es) d h =
    let next = Together.page (page_effect e) in
    call_back-Tracked lower es (whole_event lower next d) (whole-Tracked lower next d h)

zone-Tracked :
    (f : UploadMount → UploadMount) (d : Detonation)
    → ((m : UploadMount) → Tracked true m → Tracked true (f m))
    → Tracked (is_here d) d.zone
    → let v = on_zone f d in Tracked (is_here v) v.zone
zone-Tracked f d step h = elim (Bool-cases (is_here d)) [
  | inr n ↦ rw n h
  | inl t ↦ let own : Tracked true d.zone = rw t at h in rw t (rw t (step d.zone own))
]

choice-Tracked :
    (b : Bool) (x y : Detonation)
    → (b ≡ true → Tracked (is_here x) x.zone)
    → Tracked (is_here y) y.zone
    → let v = if b then x else y in Tracked (is_here v) v.zone
choice-Tracked true x y h g = h refl
choice-Tracked false x y h g = g

started-Tracked :
    (lower : Text → Text) (d : Detonation)
    → Tracked (is_here d) d.zone
    → (is_here d && not (run_disabled d.zone.upload)) ≡ true
    → let v =
        whole_event lower (Together.page upload_starts) (record d { zone = run_sample d.zone }) in
      Tracked (is_here v) v.zone
started-Tracked lower d h b =
    let t : is_here d ≡ true = ground arith in
    let on : run_disabled d.zone.upload ≡ false = ground arith in
    let own : Tracked true d.zone = rw t at h in
    whole-Tracked lower (Together.page upload_starts) (record d { zone = run_sample d.zone })
      (rw t (run-Tracked d.zone on own))

handle-Tracked :
    (lower : Text → Text) (e : ZoneEvent) (d : Detonation)
    → Tracked (is_here d) d.zone
    → let v = handle lower e d in Tracked (is_here v) v.zone
unfolding handle
handle-Tracked lower (others e) d h = whole-Tracked lower e d h
handle-Tracked lower (picks f) d h = zone-Tracked (pick f) d (pick-Tracked f) h
handle-Tracked lower (drops f) d h = zone-Tracked (drop_file f) d (drop-Tracked f) h
handle-Tracked lower (drags over) d h = zone-Tracked (drag_over over) d (drag-Tracked over) h
handle-Tracked lower (hashed k answer) d h = digest-Tracked (is_here d) k answer d.zone h
handle-Tracked lower runs_sample d h =
    choice-Tracked (is_here d && not (run_disabled d.zone.upload)) _ d (started-Tracked lower d h) h
handle-Tracked lower ticks d h = zone-Tracked interval d interval-Tracked h
handle-Tracked lower (answered k answer) d h = elim (Bool-cases (elem k d.zone.runs)) [
  | inr f ↦ rw f h
  | inl t ↦ rw t (
      call_back-Tracked lower (upload_answered answer d.zone.upload).1
        (record d { zone = answer_arrives (is_here d) k answer d.zone })
        (answer-Tracked (is_here d) k answer d.zone h))
]

run-zone-Tracked :
    (lower : Text → Text) (es : List ZoneEvent) (d : Detonation)
    → Tracked (is_here d) d.zone
    → let v = run lower es d in Tracked (is_here v) v.zone
run-zone-Tracked lower [] d h = h
run-zone-Tracked lower (e ∷ es) d h =
    run-zone-Tracked lower es (handle lower e d) (handle-Tracked lower e d h)

-- A panel that is not busy stays so while its callbacks run.
settled_idle :
    (a b : UserState) (m : UploadMount)
    → m.upload.busy ≡ false
    → (zone_settled a b m).upload.busy ≡ false
unfolding zone_settled
settled_idle a b m e = ground arith

call_back_idle :
    (lower : Text → Text) (es : List Effect) (d : Detonation)
    → d.zone.upload.busy ≡ false
    → (call_back lower es d).zone.upload.busy ≡ false
unfolding whole_event
call_back_idle lower [] d i = i
call_back_idle lower (e ∷ es) d i =
    let next = whole_event lower (Together.page (page_effect e)) d in
    call_back_idle lower es next (settled_idle d.whole.app.user next.whole.app.user d.zone i)

-- The answer to an upload of the mount that is there ends it.
answer_idle :
    (here : Bool) (answer : Outcome Verdict) (m : UploadMount)
    → here ≡ true
    → m.upload.step_index ≤ last_step
    → (answer_arrives here m.mount answer m).upload.busy ≡ false
unfolding answer_arrives
answer_idle here answer m t within =
    let same : m.mount == m.mount ≡ true = ground arith in
    rw (t, same) ((upload_ends answer m.upload within).0)

answer_ends :
    (lower : Text → Text) (answer : Outcome Verdict) (d : Detonation)
    → is_here d ≡ true
    → Tracked (is_here d) d.zone
    → (handle lower (answered d.zone.mount answer) d).zone.upload.busy ≡ false
unfolding handle
answer_ends lower answer d t h = elim (Bool-cases (elem d.zone.mount d.zone.runs)) [
  | inr f ↦
      let own = h.one_run t in
      let unasked = elem-count d.zone.mount d.zone.runs f in rw f (ground arith)
  | inl e ↦ rw e (
      call_back_idle lower (upload_answered answer d.zone.upload).1
        (record d { zone = answer_arrives (is_here d) d.zone.mount answer d.zone })
        (answer_idle (is_here d) answer d.zone t h.bounded))
]

-- The panel that is there, with its uploads.
pub record IsOneRun (lower : Text → Text) (d : Detonation) : Type 0 where
  pub one_run : count d.zone.mount d.zone.runs ≡ (if d.zone.upload.busy then 1 else 0)
  pub ticker : d.zone.upload.ticking ≡ d.zone.upload.busy
  pub progress :
      (d.zone.upload.busy ≡ false)
      ⊎ ((d.zone.upload.file ≢ none) × (d.zone.upload.step_index < last_step))
  pub single : (k : ℕ) → count k d.zone.runs ≤ 1
  pub ends :
      (answer : Outcome Verdict)
      → (handle lower (answered d.zone.mount answer) d).zone.upload.busy ≡ false

-- After any events, while a user is signed in: the upload panel is busy, and its ticker runs, exactly
-- while one upload of its mount is on its way, whatever earlier sessions have left on theirs, of which
-- there is one for each mount at most; a busy panel has a file and does not show the last step; and
-- whatever the answer to its upload is, it is not busy after it.
pub uploads_end :
    (lower : Text → Text) (es : List ZoneEvent)
    → is_here (run lower es begin) ≡ true
    → IsOneRun lower (run lower es begin)
uploads_end lower es t =
    let d = run lower es begin in
    let h : Tracked (is_here d) d.zone = run-zone-Tracked lower es begin (record {
      one_run = λ s. refl;
      ticker = refl;
      chosen = λ e. cc;
      underway = λ e. cc;
      bounded = omega arith;
      later = λ k l. refl;
      single = λ k. omega arith;
    }) in
    record {
      one_run = h.one_run t;
      ticker = h.ticker;
      progress = elim (Bool-cases d.zone.upload.busy) [
        | inr f ↦ inl f
        | inl b ↦ inr (h.chosen b, let under = h.underway b in omega arith)
      ];
      single = h.single;
      ends = λ answer. answer_ends lower answer d t h;
    }
