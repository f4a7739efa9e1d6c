-- ===== src/App/Dashboard/Strip.antt =====
-- What the page of frontend/src/App.tsx knows of the entries of a panel before its tab has been opened:
-- nothing, so that the statistics of lines 134 to 141 and the badges wait for it.
use mirraura.Hashes.{Hashes}
use mirraura.Api.Endpoints.{is_pending, Session, HashEntry}
use mirraura.AuditLog.{AuditRow}
use mirraura.Base.{
  filter, length, text_eq, text, ℕ, suc, Bool, true, false, ◌&&◌, List, [], ◌∷◌, none, ◌≡◌, refl,
  is_some, elem, ◌∙◌, arith, ap, text_eq_refl, some,
}
use mirraura.App.Dashboard.Slots.{hashes_slot, hashes-Laws, FormCall}
use mirraura.App.Dashboard.{
  start_page, Slot, Laws, Page, Event, knows, clicks_tab, hears, log_loads, uploads, logs_in,
  logs_out, expires, load_answer, call_answer, settle, is_mounted, remove_one, obey_all, has_been,
  load_answer_event, call_answer_event, handle, run,
}
use mirraura.App.{
  hashes_changed, pending_count, App, signed_in, handle_message, me_answered, verdicts_changed,
  handle_upload, handle_login, handle_logout, handle_session_expired, change_tab, some,
}
use mirraura.Api.Request.{fulfilled}
use mirraura.App.Dashboard.Moves.{
  SameLists, handle_message-SameLists, handle_message-bottom_tab, me_answered-SameLists,
  me_answered-bottom_tab, hidden, settle_hidden, settle_mounts, answered-app, and_false,
}
use mirraura.Tabs.{panel_shown}

-- The statistics are in the place of their skeleton.
unfoldable pub strip_shown : App → Bool
strip_shown a = is_some a.verdicts && is_some a.hashes

has_been-none : {P : Type 0} (k : ℕ) (p : Page P) → p.mount ≡ 0 → has_been k p ≡ false
has_been-none k p m = ground arith

elem-none : (k : ℕ) (ns : List ℕ) → ns ≡ [] → elem k ns ≡ false
unfolding elem
elem-none k ns e = rw e refl

module _ {P E C : Type 0} (slot : Slot P E C) where
  -- Not a click on the tab of the panel.
  unfoldable pub Elsewhere : Event E C → Type 0
  Elsewhere (clicks_tab id) = text_eq slot.tab id ≡ false
  Elsewhere _ = Unit

  unfoldable pub Avoids : List (Event E C) → Type 0
  Avoids [] = Unit
  Avoids (e ∷ es) = Elsewhere e × Avoids es

  -- The first visit of the tab.
  abbrev pub visited : List E → Page P → Page P
  visited es p = run slot (clicks_tab slot.tab ∷ load_answer 1 (fulfilled es) ∷ []) p

  -- The panel has never been mounted.
  pub Never : Page P → Type 0
  Never p =
      (slot.handed p.app ≡ none)
      × (text_eq slot.tab p.app.bottom_tab ≡ false)
      × (p.mount ≡ 0)
      × (p.loads ≡ [])

module _ {P E C : Type 0} (slot : Slot P E C) (laws : Laws slot) where
  settle-Never :
      (p : Page P) (a : App)
      → Never slot p
      → SameLists a p.app
      → text_eq slot.tab a.bottom_tab ≡ false
      → Never slot (settle slot p a)
  unfolding Never
  settle-Never p a (h, _, m, l) (hs, cs, qs) b =
      rw (settle_hidden slot p a (hidden slot a b)) (laws.apart a p.app hs cs qs ∙ h, b, m, l)

  -- An answer is to a load or from a mount, and there was none.
  handle-Never :
      (e : Event E C) (p : Page P) → Elsewhere slot e → Never slot p → Never slot (handle slot e p)
  unfolding Elsewhere handle Never load_answer_event call_answer_event verdicts_changed
      handle_upload handle_login handle_logout handle_session_expired change_tab
  handle-Never (knows answer) p _ (h, b, m, l) =
      settle-Never p (me_answered answer p.app) (h, b, m, l) (me_answered-SameLists answer p.app)
        (rw (me_answered-bottom_tab answer p.app) b)
  handle-Never (clicks_tab id) p v n = settle-Never p (change_tab id p.app) n (refl, refl, refl) v
  handle-Never (hears c) p _ (h, b, m, l) =
      settle-Never p (handle_message c p.app) (h, b, m, l) (handle_message-SameLists c p.app)
        (rw (handle_message-bottom_tab c p.app) b)
  handle-Never (log_loads rows) p _ (h, b, m, l) =
      settle-Never p (verdicts_changed rows p.app) (h, b, m, l) (refl, refl, refl) b
  handle-Never (uploads v) p _ (h, b, m, l) =
      settle-Never p (handle_upload v p.app) (h, b, m, l) (refl, refl, refl) b
  handle-Never (logs_in u) p _ (h, b, m, l) =
      settle-Never p (handle_login u p.app) (h, b, m, l) (refl, refl, refl) b
  handle-Never (logs_out answer) p _ (h, b, m, l) =
      settle-Never p (handle_logout answer p.app) (h, b, m, l) (refl, refl, refl) b
  handle-Never expires p _ (h, b, m, l) =
      settle-Never p (handle_session_expired p.app) (h, b, m, l) (refl, refl, refl) b
  handle-Never (load_answer k answer) p _ (h, b, m, l) = rw (elem-none k p.loads l) (h, b, m, l)
  handle-Never (call_answer k c answer) p _ (h, b, m, l) = rw (has_been-none k p m) (h, b, m, l)

  pub run-Never :
      (es : List (Event E C)) (p : Page P)
      → Avoids slot es
      → Never slot p
      → Never slot (run slot es p)
  unfolding Avoids
  run-Never [] p _ n = n
  run-Never (e ∷ es) p (v, vs) n = run-Never es (handle slot e p) vs (handle-Never e p v n)

  answer-app :
      (k : ℕ) (es : List E) (p : Page P)
      → elem k p.loads ≡ true
      → (load_answer_event slot k (fulfilled es) p).app ≡ slot.hand es p.app
  unfolding load_answer_event
  answer-app k es p e =
      let (panel, effects) = slot.load_answered (fulfilled es) p.panel in
      let (_, h) = laws.receives es p.panel in
      rw e (
        answered-app slot k panel effects (record p { loads = remove_one k p.loads })
        ∙ ap (λ fs. obey_all slot fs p.app) h)

  pub visited-app :
      (p : Page P) (u : Session) (es : List E)
      → Never slot p
      → p.app.user ≡ signed_in u
      → (visited slot es p).app ≡ slot.hand es (change_tab slot.tab p.app)
  unfolding Never handle change_tab is_mounted panel_shown elem
  visited-app p u es (h, b, m, l) s =
      let mounts : is_mounted slot (change_tab slot.tab p.app) ≡ true =
        rw (s, text_eq_refl slot.tab) refl in
      let q : Page P = record {
        app = change_tab slot.tab p.app;
        panel = slot.start_panel;
        mount = suc p.mount;
        loads = suc p.mount ∷ p.loads;
      } in
      let e : elem 1 q.loads ≡ true = rw m refl in
      rw (settle_mounts slot p (change_tab slot.tab p.app) (hidden slot p.app b) mounts)
        (answer-app 1 es q e)

shown_after :
    (es : List HashEntry) (rows : List AuditRow) (a : App)
    → a.verdicts ≡ some rows
    → strip_shown (hashes_changed es (change_tab (text "hashes") a)) ≡ true
unfolding strip_shown hashes_changed change_tab
shown_after es rows a v = rw v refl

counted_after :
    (es : List HashEntry) (a : App)
    → pending_count (hashes_changed es (change_tab (text "hashes") a))
      ≡ length (filter (λ (h : HashEntry). is_pending h.status) es)
unfolding pending_count hashes_changed change_tab
counted_after es a = refl

not_yet : (a : App) → a.hashes ≡ none → (strip_shown a ≡ false) × (pending_count a ≡ 0)
unfolding strip_shown pending_count
not_yet a h = (rw h (and_false (is_some a.verdicts)), rw h refl)

start-Never : Never hashes_slot (start_page hashes_slot)
unfolding Never text_eq text
start-Never = (refl, refl, refl, refl)

Never-hashes : (p : Page Hashes) → Never hashes_slot p → p.app.hashes ≡ none
unfolding Never
Never-hashes p (h, _, _, _) = h

-- After any events without a click on the tab of the hashes, with a user signed in and the audit log
-- loaded, the statistics are not shown and the badge of the tab counts no hash, whatever hashes there
-- are to review. A click on the tab and the answer to the load of its panel bring the statistics, and
-- the badge then counts the pending hashes of the answer.
pub strip_waits_for_visit :
    (es : List (Event HashEntry FormCall)) (u : Session) (rows : List AuditRow)
    (entries : List HashEntry)
    → Avoids hashes_slot es
    → (run hashes_slot es (start_page hashes_slot)).app.user ≡ signed_in u
    → (run hashes_slot es (start_page hashes_slot)).app.verdicts ≡ some rows
    → let p = run hashes_slot es (start_page hashes_slot) in
      let q = visited hashes_slot entries p in
      (strip_shown p.app ≡ false)
      × (pending_count p.app ≡ 0)
      × (strip_shown q.app ≡ true)
      × (pending_count q.app ≡ length (filter (λ (h : HashEntry). is_pending h.status) entries))
strip_waits_for_visit es u rows entries avoids s v =
    let p = run hashes_slot es (start_page hashes_slot) in
    let n = run-Never hashes_slot hashes-Laws es (start_page hashes_slot) avoids start-Never in
    let (unshown, uncounted) = not_yet p.app (Never-hashes p n) in
    let after = visited-app hashes_slot hashes-Laws p u entries n s in
    (
      unshown,
      uncounted,
      ap strip_shown after ∙ shown_after entries rows p.app v,
      ap pending_count after ∙ counted_after entries p.app,
    )
