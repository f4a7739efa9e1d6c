-- ===== src/App/Together/Refresh.antt =====
-- The refresh key of frontend/src/App.tsx: whatever changes it makes every panel that is rendered load anew.
use mirraura.Base.{
  ℕ, suc, ◌==◌, true, false, Text, elem, elem-first, ◌≡◌, ◌⊎◌, inl, inr, Bool-cases, arith,
  if◌then◌else◌,
}
use mirraura.Api.Endpoints.{QuarantineEntry}
use mirraura.Review.{Review}
use mirraura.Hashes.{Hashes}
use mirraura.Corpus.{Corpus}
use mirraura.App.{App}
use mirraura.App.Events.{page_event}
use mirraura.App.LogMount.{LogMount, log_mounted, log_settled}
use mirraura.App.Dashboard.{Page, load_answer_event, call_answer_event}
use mirraura.App.Dashboard.Slots.{hashes_slot, corpus_slot, quarantine_slot}
use mirraura.App.Together.{
  Whole, Event, page, log_poll, log_acts, log_verdicts, log_chain, hashes_load, hashes_call,
  corpus_load, corpus_call, quarantine_load, quarantine_call, settle_all, hashes_become,
  corpus_become, quarantine_become, log_verdicts_event, log_chain_event, handle, on_page,
}
use mirraura.App.Together.Asks.{Refreshed, not_refreshed, Asks, settled-Asks, load-Asks, call-Asks}
use mirraura.App.Together.KeyMoves.{
  refreshes, log_verdicts-refresh_key, log_chain-refresh_key, handle-refresh_key,
}

-- The audit log, if it is rendered, has both loads of its current effect on their way.
abbrev pub LogAsks : App → LogMount → Type 0
LogAsks a m =
    (log_mounted a ≡ false)
    ⊎ ((elem m.effect m.verdict_loads ≡ true) × (elem m.effect m.chain_loads ≡ true))

log_settled-LogAsks : (a b : App) (m : LogMount) → Refreshed a b → LogAsks b (log_settled a b m)
unfolding log_settled
log_settled-LogAsks a b m r = elim (Bool-cases (log_mounted b)) [
  | inr f ↦ inl f
  | inl t ↦ elim (Bool-cases (log_mounted a)) [
    | inl t' ↦
        rw (t, t', r)
          (inr (elem-first (suc m.effect) m.verdict_loads, elem-first (suc m.effect) m.chain_loads))
    | inr f ↦
        rw (t, f)
          (inr (elem-first (suc m.effect) m.verdict_loads, elem-first (suc m.effect) m.chain_loads))
  ]
]

-- Every panel that is rendered has asked for its data.
pub record AllAsk (w : Whole) : Type 0 where
  pub hashes : Asks hashes_slot (on_page w.app w.hashes)
  pub corpus : Asks corpus_slot (on_page w.app w.corpus)
  pub quarantine : Asks quarantine_slot (on_page w.app w.quarantine)
  pub log : LogAsks w.app w.log

settle_all-AllAsk : (b : App) (w : Whole) → Refreshed w.app b → AllAsk (settle_all b w)
unfolding settle_all
settle_all-AllAsk b w r = record {
  hashes = settled-Asks hashes_slot w.app b w.hashes r;
  corpus = settled-Asks corpus_slot w.app b w.corpus r;
  quarantine = settled-Asks quarantine_slot w.app b w.quarantine r;
  log = log_settled-LogAsks w.app b w.log r;
}

hashes-AllAsk :
    (q : Page Hashes) (w : Whole)
    → Refreshed w.app q.app
    → Asks hashes_slot q
    → AllAsk (hashes_become q w)
unfolding hashes_become
hashes-AllAsk q w r own =
    let h = settle_all-AllAsk q.app w r in
    record { hashes = own; corpus = h.corpus; quarantine = h.quarantine; log = h.log }

corpus-AllAsk :
    (q : Page Corpus) (w : Whole)
    → Refreshed w.app q.app
    → Asks corpus_slot q
    → AllAsk (corpus_become q w)
unfolding corpus_become
corpus-AllAsk q w r own =
    let h = settle_all-AllAsk q.app w r in
    record { hashes = h.hashes; corpus = own; quarantine = h.quarantine; log = h.log }

quarantine-AllAsk :
    (q : Page (Review ℕ QuarantineEntry)) (w : Whole)
    → Refreshed w.app q.app
    → Asks quarantine_slot q
    → AllAsk (quarantine_become q w)
unfolding quarantine_become
quarantine-AllAsk q w r own =
    let h = settle_all-AllAsk q.app w r in
    record { hashes = h.hashes; corpus = h.corpus; quarantine = own; log = h.log }

unchanged : {Q : Type 0} (a b : App) → b.refresh_key ≡ a.refresh_key → Refreshed a b → Q
unchanged a b e r = let same : b.refresh_key == a.refresh_key ≡ true = ground arith in absurd (cc)

module _ (lower : Text → Text) where
  -- A change of the refresh key makes every panel that is rendered ask anew.
  Refreshed-AllAsk :
      (e : Event) (w : Whole) → Refreshed w.app (handle lower e w).app → AllAsk (handle lower e w)
  unfolding handle hashes_become corpus_become quarantine_become settle_all
  Refreshed-AllAsk (page e) w r = settle_all-AllAsk (page_event e w.app) w r
  Refreshed-AllAsk log_poll w r = not_refreshed w.app r
  Refreshed-AllAsk (log_acts act) w r = not_refreshed w.app r
  Refreshed-AllAsk (log_verdicts k answer) w r =
      unchanged w.app (log_verdicts_event k answer w).app (log_verdicts-refresh_key k answer w) r
  Refreshed-AllAsk (log_chain k now answer) w r =
      unchanged w.app (log_chain_event k now answer w).app (log_chain-refresh_key k now answer w) r
  Refreshed-AllAsk (hashes_load k answer) w r =
      let p = on_page w.app w.hashes in
      hashes-AllAsk (load_answer_event hashes_slot k answer p) w r
        (load-Asks hashes_slot k answer p r)
  Refreshed-AllAsk (hashes_call k c answer) w r =
      let p = on_page w.app w.hashes in
      hashes-AllAsk (call_answer_event hashes_slot k c answer p) w r
        (call-Asks hashes_slot k c answer p r)
  Refreshed-AllAsk (corpus_load k answer) w r =
      let p = on_page w.app w.corpus in
      corpus-AllAsk (load_answer_event corpus_slot k answer p) w r
        (load-Asks corpus_slot k answer p r)
  Refreshed-AllAsk (corpus_call k c answer) w r =
      let p = on_page w.app w.corpus in
      corpus-AllAsk (call_answer_event corpus_slot k c answer p) w r
        (call-Asks corpus_slot k c answer p r)
  Refreshed-AllAsk (quarantine_load k answer) w r =
      let p = on_page w.app w.quarantine in
      quarantine-AllAsk (load_answer_event quarantine_slot k answer p) w r
        (load-Asks quarantine_slot k answer p r)
  Refreshed-AllAsk (quarantine_call k answer) w r =
      let p = on_page w.app w.quarantine in
      quarantine-AllAsk (call_answer_event quarantine_slot k tt answer p) w r
        (call-Asks quarantine_slot k tt answer p r)

  -- Every verdict that a message or an upload brings, on a sample or of the monitor, and every decision
  -- of a review panel that the server has carried out, adds one to the refresh key, and nothing else
  -- changes it; after each of them, every review panel that is rendered has a load of its mount on its
  -- way, and the audit log, if it is, has both loads of its current effect.
  pub refresh_reloads :
      (e : Event) (w : Whole)
      → let v = handle lower e w in
        (v.app.refresh_key ≡ (if refreshes e w then suc w.app.refresh_key else w.app.refresh_key))
        × ((refreshes e w ≡ false) ⊎ AllAsk v)
  refresh_reloads e w =
      let key = handle-refresh_key lower e w in
      (
        key,
        elim (Bool-cases (refreshes e w)) [
          | inr f ↦ inl f
          | inl t ↦
              let grown : (handle lower e w).app.refresh_key ≡ suc w.app.refresh_key =
                rw t at key in
              inr (Refreshed-AllAsk e w (ground arith))
        ],
      )
