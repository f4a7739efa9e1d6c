-- ===== src/App/Together/Skeletons.antt =====
-- The skeletons of the review panels and of the audit log on one page of frontend/src/App.tsx.
use mirraura.Base.{ap, ◌∙◌, ℕ, List, [], ◌∷◌, Text, elem, inl, inr, Bool-cases, arith, Bool}
use mirraura.Api.Request.{Outcome}
use mirraura.Api.Endpoints.{QuarantineEntry, ChainStatus}
use mirraura.Review.{Review}
use mirraura.Hashes.{Hashes}
use mirraura.Corpus.{Corpus}
use mirraura.AuditLog.{AuditRow}
use mirraura.App.{App, Bool}
use mirraura.App.Events.{page_event}
use mirraura.App.Dashboard.{Slot, Page, is_mounted, load_answer_event, call_answer_event}
use mirraura.App.Dashboard.Slots.{hashes_slot, corpus_slot, quarantine_slot}
use mirraura.App.Dashboard.Moves.{settle-app}
use mirraura.App.Together.{
  Whole, Mounted, Event, page, log_poll, log_acts, log_verdicts, log_chain, hashes_load,
  hashes_call, corpus_load, corpus_call, quarantine_load, quarantine_call, settle_all,
  hashes_become, corpus_become, quarantine_become, log_verdicts_event, log_chain_event, log_becomes,
  handle, run, on_page, begin, settled,
}
use mirraura.App.Together.LogAwaits.{
  LogAwaits, log_settled-LogAwaits, log_polls-LogAwaits, log_act-LogAwaits, log_verdicts-LogAwaits,
  log_chain-LogAwaits, LogSkeletonEnds, LogAwaits-LogSkeletonEnds,
}
use mirraura.App.LogMount.{log_mounted, LogMount}
use mirraura.App.Together.Awaits.{
  SkeletonEnds, Awaits-SkeletonEnds, Loading, Awaits, settle-Awaits, load-Awaits, call-Awaits,
}
use mirraura.App.Together.Loadings.{
  hashes_slot-Loading, corpus_slot-Loading, quarantine_slot-Loading, hashes_skeleton,
  corpus_skeleton, quarantine_skeleton,
}

module _ {P E C : Type 0} (slot : Slot P E C) {loading : P → Bool} (l : Loading slot loading) where
  settled-Awaits :
      (a b : App) (m : Mounted P)
      → Awaits slot loading (on_page a m)
      → Awaits slot loading (on_page b (settled slot a b m))
  settled-Awaits a b m h shown s =
      let same = settle-app slot (on_page a m) b in
      settle-Awaits slot l (on_page a m) b h (ap (is_mounted slot) same ∙ shown) s

pub record AllAwait (w : Whole) : Type 0 where
  pub hashes : Awaits hashes_slot hashes_skeleton (on_page w.app w.hashes)
  pub corpus : Awaits corpus_slot corpus_skeleton (on_page w.app w.corpus)
  pub quarantine : Awaits quarantine_slot quarantine_skeleton (on_page w.app w.quarantine)

settle_all-AllAwait : (b : App) (w : Whole) → AllAwait w → AllAwait (settle_all b w)
unfolding settle_all
settle_all-AllAwait b w h = record {
  hashes = settled-Awaits hashes_slot hashes_slot-Loading w.app b w.hashes h.hashes;
  corpus = settled-Awaits corpus_slot corpus_slot-Loading w.app b w.corpus h.corpus;
  quarantine =
      settled-Awaits quarantine_slot quarantine_slot-Loading w.app b w.quarantine h.quarantine;
}

with_log-AllAwait : (m : LogMount) (w : Whole) → AllAwait w → AllAwait (record w { log = m })
with_log-AllAwait m w h = record { hashes = h.hashes; corpus = h.corpus; quarantine = h.quarantine }

hashes-AllAwait :
    (q : Page Hashes) (w : Whole)
    → AllAwait w
    → Awaits hashes_slot hashes_skeleton q
    → AllAwait (hashes_become q w)
unfolding hashes_become settle_all
hashes-AllAwait q w h own = record {
  hashes = own;
  corpus = settled-Awaits corpus_slot corpus_slot-Loading w.app q.app w.corpus h.corpus;
  quarantine =
      settled-Awaits quarantine_slot quarantine_slot-Loading w.app q.app w.quarantine h.quarantine;
}

corpus-AllAwait :
    (q : Page Corpus) (w : Whole)
    → AllAwait w
    → Awaits corpus_slot corpus_skeleton q
    → AllAwait (corpus_become q w)
unfolding corpus_become settle_all
corpus-AllAwait q w h own = record {
  hashes = settled-Awaits hashes_slot hashes_slot-Loading w.app q.app w.hashes h.hashes;
  corpus = own;
  quarantine =
      settled-Awaits quarantine_slot quarantine_slot-Loading w.app q.app w.quarantine h.quarantine;
}

quarantine-AllAwait :
    (q : Page (Review ℕ QuarantineEntry)) (w : Whole)
    → AllAwait w
    → Awaits quarantine_slot quarantine_skeleton q
    → AllAwait (quarantine_become q w)
unfolding quarantine_become settle_all
quarantine-AllAwait q w h own = record {
  hashes = settled-Awaits hashes_slot hashes_slot-Loading w.app q.app w.hashes h.hashes;
  corpus = settled-Awaits corpus_slot corpus_slot-Loading w.app q.app w.corpus h.corpus;
  quarantine = own;
}

log_verdicts-AllAwait :
    (k : ℕ) (answer : Outcome (List AuditRow)) (w : Whole)
    → AllAwait w
    → AllAwait (log_verdicts_event k answer w)
unfolding log_verdicts_event log_becomes
log_verdicts-AllAwait k answer w h = elim (Bool-cases (elem k w.log.verdict_loads)) [
  | inr f ↦ rw f h
  | inl t ↦ rw t (settle_all-AllAwait _ _ (with_log-AllAwait _ w h))
]

log_chain-AllAwait :
    (k now : ℕ) (answer : Outcome ChainStatus) (w : Whole)
    → AllAwait w
    → AllAwait (log_chain_event k now answer w)
unfolding log_chain_event log_becomes
log_chain-AllAwait k now answer w h = elim (Bool-cases (elem k w.log.chain_loads)) [
  | inr f ↦ rw f h
  | inl t ↦ rw t (settle_all-AllAwait _ _ (with_log-AllAwait _ w h))
]

module _ (lower : Text → Text) where
  handle-AllAwait : (e : Event) (w : Whole) → AllAwait w → AllAwait (handle lower e w)
  unfolding handle
  handle-AllAwait (page e) w h = settle_all-AllAwait (page_event e w.app) w h
  handle-AllAwait log_poll w h = with_log-AllAwait _ w h
  handle-AllAwait (log_acts act) w h = with_log-AllAwait _ w h
  handle-AllAwait (log_verdicts k answer) w h = log_verdicts-AllAwait k answer w h
  handle-AllAwait (log_chain k now answer) w h = log_chain-AllAwait k now answer w h
  handle-AllAwait (hashes_load k answer) w h =
      hashes-AllAwait _ w h
        (load-Awaits hashes_slot hashes_slot-Loading k answer (on_page w.app w.hashes) h.hashes)
  handle-AllAwait (hashes_call k c answer) w h =
      hashes-AllAwait _ w h
        (call-Awaits hashes_slot hashes_slot-Loading k c answer (on_page w.app w.hashes) h.hashes)
  handle-AllAwait (corpus_load k answer) w h =
      corpus-AllAwait _ w h
        (load-Awaits corpus_slot corpus_slot-Loading k answer (on_page w.app w.corpus) h.corpus)
  handle-AllAwait (corpus_call k c answer) w h =
      corpus-AllAwait _ w h
        (call-Awaits corpus_slot corpus_slot-Loading k c answer (on_page w.app w.corpus) h.corpus)
  handle-AllAwait (quarantine_load k answer) w h = quarantine-AllAwait _ w h (
      load-Awaits quarantine_slot quarantine_slot-Loading k answer (on_page w.app w.quarantine)
        h.quarantine)
  handle-AllAwait (quarantine_call k answer) w h = quarantine-AllAwait _ w h (
      call-Awaits quarantine_slot quarantine_slot-Loading k tt answer (on_page w.app w.quarantine)
        h.quarantine)

  run-AllAwait : (es : List Event) (w : Whole) → AllAwait w → AllAwait (run lower es w)
  run-AllAwait [] w h = h
  run-AllAwait (e ∷ es) w h = run-AllAwait es (handle lower e w) (handle-AllAwait e w h)

  handle-LogAwaits :
      (e : Event) (w : Whole)
      → LogAwaits w.app w.log
      → let v = handle lower e w in LogAwaits v.app v.log
  unfolding handle hashes_become corpus_become quarantine_become settle_all
  handle-LogAwaits (page e) w h = log_settled-LogAwaits w.app (page_event e w.app) w.log h
  handle-LogAwaits log_poll w h = log_polls-LogAwaits w.app w.log h
  handle-LogAwaits (log_acts act) w h = log_act-LogAwaits lower act w.app w.log h
  handle-LogAwaits (log_verdicts k answer) w h = log_verdicts-LogAwaits k answer w h
  handle-LogAwaits (log_chain k now answer) w h = log_chain-LogAwaits k now answer w h
  handle-LogAwaits (hashes_load k answer) w h =
      log_settled-LogAwaits w.app
        (load_answer_event hashes_slot k answer (on_page w.app w.hashes)).app w.log h
  handle-LogAwaits (hashes_call k c answer) w h =
      log_settled-LogAwaits w.app
        (call_answer_event hashes_slot k c answer (on_page w.app w.hashes)).app w.log h
  handle-LogAwaits (corpus_load k answer) w h =
      log_settled-LogAwaits w.app
        (load_answer_event corpus_slot k answer (on_page w.app w.corpus)).app w.log h
  handle-LogAwaits (corpus_call k c answer) w h =
      log_settled-LogAwaits w.app
        (call_answer_event corpus_slot k c answer (on_page w.app w.corpus)).app w.log h
  handle-LogAwaits (quarantine_load k answer) w h =
      log_settled-LogAwaits w.app
        (load_answer_event quarantine_slot k answer (on_page w.app w.quarantine)).app w.log h
  handle-LogAwaits (quarantine_call k answer) w h =
      log_settled-LogAwaits w.app
        (call_answer_event quarantine_slot k tt answer (on_page w.app w.quarantine)).app w.log h

  run-LogAwaits :
      (es : List Event) (w : Whole)
      → LogAwaits w.app w.log
      → let v = run lower es w in LogAwaits v.app v.log
  run-LogAwaits [] w h = h
  run-LogAwaits (e ∷ es) w h = run-LogAwaits es (handle lower e w) (handle-LogAwaits e w h)

  -- After any events, with the answers in any order: a review panel that is rendered shows its skeleton
  -- only while a load of its current mount is on its way, and the audit log only while a load of its
  -- current effect is; and the answer to that load ends it, whatever it is.
  pub skeletons_end :
      (es : List Event)
      → let w = run lower es begin in
        SkeletonEnds hashes_slot hashes_skeleton (on_page w.app w.hashes)
        × SkeletonEnds corpus_slot corpus_skeleton (on_page w.app w.corpus)
        × SkeletonEnds quarantine_slot quarantine_skeleton (on_page w.app w.quarantine)
        × LogSkeletonEnds w
  unfolding is_mounted log_mounted
  skeletons_end es =
      let w = run lower es begin in
      let h =
        run-AllAwait es begin
          (record { hashes = λ m s. cc; corpus = λ m s. cc; quarantine = λ m s. cc }) in
      let l = run-LogAwaits es begin (record { waits = λ m s. cc; begun = omega arith }) in
      (
        Awaits-SkeletonEnds hashes_slot hashes_slot-Loading (on_page w.app w.hashes) h.hashes,
        Awaits-SkeletonEnds corpus_slot corpus_slot-Loading (on_page w.app w.corpus) h.corpus,
        Awaits-SkeletonEnds quarantine_slot quarantine_slot-Loading (on_page w.app w.quarantine)
            h.quarantine,
        LogAwaits-LogSkeletonEnds w l,
      )
