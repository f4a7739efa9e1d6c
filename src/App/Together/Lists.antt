-- ===== src/App/Together/Lists.antt =====
-- What the events of the page of frontend/src/App.tsx and the callbacks of one panel leave alone: the
-- lists that the other panels have handed to the page.
use mirraura.Base.{ℕ, List, [], ◌∷◌, ◌≡◌, refl, none, some, ◌∙◌, Option}
use mirraura.Api.Request.{Outcome, fulfilled, rejected}
use mirraura.Api.Live
use mirraura.Review.{Effect}
use mirraura.AuditLog
use mirraura.Tabs.{TabItem}
use mirraura.App.{
  App, UserState, unknown, signed_out, signed_in, me_answered, monitor_status_answered,
  handle_message, connection_changed, handle_upload, upload_started, handle_login, handle_logout,
  handle_session_expired, on_reconnected, on_decision, change_tab, verdicts_changed,
  chain_status_changed, role_of, tabs, hashes_changed, corpus_changed, quarantine_changed, Option,
}
use mirraura.App.Dashboard.{Slot, Laws, Page, obey_all, load_answer_event, call_answer_event}
use mirraura.App.Dashboard.Moves.{SameLists, load_answer_event-app, call_answer_event-app}
use mirraura.App.Events.{
  PageEvent, knows, monitor_status, hears, connection, upload_starts, uploads, logs_in, logs_out,
  expires, reconnects, moves, page_event, TabEvent, tab_chosen, target, change_to, choose_tab,
}
use mirraura.App.LogMount.{obey_log}
use mirraura.App.Dashboard.Slots.{hashes_slot, corpus_slot, quarantine_slot}

-- The same rows and the same status of the chain.
abbrev pub SameLog : App → App → Type 0
SameLog a b = (a.verdicts ≡ b.verdicts) × (a.chain_status ≡ b.chain_status)

abbrev pub SameData : App → App → Type 0
SameData a b = SameLists a b × SameLog a b

change_to-SameData : (o : Option TabItem) (a : App) → SameData (change_to o a) a
unfolding change_tab
change_to-SameData none a = ((refl, refl, refl), (refl, refl))
change_to-SameData (some item) a = ((refl, refl, refl), (refl, refl))

tab_chosen-SameData :
    (state : UserState) (e : TabEvent) (a : App) → SameData (tab_chosen state e a) a
tab_chosen-SameData unknown e a = ((refl, refl, refl), (refl, refl))
tab_chosen-SameData signed_out e a = ((refl, refl, refl), (refl, refl))
tab_chosen-SameData (signed_in u) e a = change_to-SameData (target e (tabs (role_of u) a)) a

pub page_event-SameData : (e : PageEvent) (a : App) → SameData (page_event e a) a
unfolding page_event choose_tab me_answered monitor_status_answered handle_message
    connection_changed handle_upload upload_started handle_login handle_logout
    handle_session_expired on_reconnected
page_event-SameData (knows (fulfilled u)) a = ((refl, refl, refl), (refl, refl))
page_event-SameData (knows (rejected e)) a = ((refl, refl, refl), (refl, refl))
page_event-SameData (monitor_status (fulfilled s)) a = ((refl, refl, refl), (refl, refl))
page_event-SameData (monitor_status (rejected e)) a = ((refl, refl, refl), (refl, refl))
page_event-SameData (hears (Live.event s e)) a = ((refl, refl, refl), (refl, refl))
page_event-SameData (hears (Live.verdict Live.sample v)) a = ((refl, refl, refl), (refl, refl))
page_event-SameData (hears (Live.verdict Live.monitor v)) a = ((refl, refl, refl), (refl, refl))
page_event-SameData (hears Live.isolated) a = ((refl, refl, refl), (refl, refl))
page_event-SameData (hears Live.reconnected) a = ((refl, refl, refl), (refl, refl))
page_event-SameData (connection state) a = ((refl, refl, refl), (refl, refl))
page_event-SameData upload_starts a = ((refl, refl, refl), (refl, refl))
page_event-SameData (uploads v) a = ((refl, refl, refl), (refl, refl))
page_event-SameData (logs_in u) a = ((refl, refl, refl), (refl, refl))
page_event-SameData (logs_out answer) a = ((refl, refl, refl), (refl, refl))
page_event-SameData expires a = ((refl, refl, refl), (refl, refl))
page_event-SameData reconnects a = ((refl, refl, refl), (refl, refl))
page_event-SameData (moves e) a = tab_chosen-SameData a.user e a

pub obey_log-SameLists : (es : List AuditLog.Effect) (a : App) → SameLists (obey_log es a) a
unfolding handle_session_expired verdicts_changed chain_status_changed
obey_log-SameLists [] a = (refl, refl, refl)
obey_log-SameLists (AuditLog.session_expired ∷ es) a = obey_log-SameLists es _
obey_log-SameLists (AuditLog.pushed message tone ∷ es) a = obey_log-SameLists es a
obey_log-SameLists (AuditLog.verdicts_changed rows ∷ es) a = obey_log-SameLists es _
obey_log-SameLists (AuditLog.chain_changed status ∷ es) a = obey_log-SameLists es _

-- What one panel hands to the page is no list of another panel, and none of the log's.
pub record Apart {P E C Q F D : Type 0} (slot : Slot P E C) (other : Slot Q F D) : Type 0 where
  pub hands_elsewhere : (fs : List F) (a : App) → slot.handed (other.hand fs a) ≡ slot.handed a

module _ {P E C Q F D : Type 0} (slot : Slot P E C) (laws : Laws slot) (other : Slot Q F D)
    (apart : Apart slot other) where
  pub obey_all-handed :
      (effects : List (Effect F)) (a : App) → slot.handed (obey_all other effects a) ≡ slot.handed a
  unfolding handle_session_expired on_decision
  obey_all-handed [] a = refl
  obey_all-handed (Effect.session_expired ∷ es) a =
      obey_all-handed es (handle_session_expired a)
      ∙ laws.apart (handle_session_expired a) a refl refl refl
  obey_all-handed (Effect.decided ∷ es) a =
      obey_all-handed es (on_decision a) ∙ laws.apart (on_decision a) a refl refl refl
  obey_all-handed (Effect.changed fs ∷ es) a =
      obey_all-handed es (other.hand fs a) ∙ apart.hands_elsewhere fs a
  obey_all-handed (Effect.pushed message tone ∷ es) a = obey_all-handed es a
  obey_all-handed (Effect.calls c ∷ es) a = obey_all-handed es a

  pub load_answer-handed :
      (k : ℕ) (answer : Outcome (List F)) (p : Page Q)
      → slot.handed (load_answer_event other k answer p).app ≡ slot.handed p.app
  load_answer-handed k answer p =
      load_answer_event-app other (λ a. slot.handed a ≡ slot.handed p.app) k answer p refl
        (λ effects. obey_all-handed effects p.app)

  pub call_answer-handed :
      (k : ℕ) (c : D) (answer : Outcome (Unit {0})) (p : Page Q)
      → slot.handed (call_answer_event other k c answer p).app ≡ slot.handed p.app
  call_answer-handed k c answer p =
      call_answer_event-app other (λ a. slot.handed a ≡ slot.handed p.app) k c answer p refl
        (λ effects. obey_all-handed effects p.app)

-- The rows and the status of the chain are set by the log alone.
pub record LogApart {Q F D : Type 0} (other : Slot Q F D) : Type 0 where
  pub hands_no_rows : (fs : List F) (a : App) → SameLog (other.hand fs a) a

module _ {Q F D : Type 0} (other : Slot Q F D) (apart : LogApart other) where
  pub obey_all-SameLog :
      (effects : List (Effect F)) (a : App) → SameLog (obey_all other effects a) a
  unfolding handle_session_expired on_decision
  obey_all-SameLog [] a = (refl, refl)
  obey_all-SameLog (Effect.session_expired ∷ es) a = obey_all-SameLog es (handle_session_expired a)
  obey_all-SameLog (Effect.decided ∷ es) a = obey_all-SameLog es (on_decision a)
  obey_all-SameLog (Effect.changed fs ∷ es) a =
      let (v, c) = obey_all-SameLog es (other.hand fs a) in
      let (v', c') = apart.hands_no_rows fs a in (v ∙ v', c ∙ c')
  obey_all-SameLog (Effect.pushed message tone ∷ es) a = obey_all-SameLog es a
  obey_all-SameLog (Effect.calls c ∷ es) a = obey_all-SameLog es a

  pub load_answer-SameLog :
      (k : ℕ) (answer : Outcome (List F)) (p : Page Q)
      → SameLog (load_answer_event other k answer p).app p.app
  load_answer-SameLog k answer p =
      load_answer_event-app other (λ a. SameLog a p.app) k answer p (refl, refl)
        (λ effects. obey_all-SameLog effects p.app)

  pub call_answer-SameLog :
      (k : ℕ) (c : D) (answer : Outcome (Unit {0})) (p : Page Q)
      → SameLog (call_answer_event other k c answer p).app p.app
  call_answer-SameLog k c answer p =
      call_answer_event-app other (λ a. SameLog a p.app) k c answer p (refl, refl)
        (λ effects. obey_all-SameLog effects p.app)

pub hashes-LogApart : LogApart hashes_slot
unfolding hashes_changed
hashes-LogApart = record { hands_no_rows = λ fs a. (refl, refl) }

pub corpus-LogApart : LogApart corpus_slot
unfolding corpus_changed
corpus-LogApart = record { hands_no_rows = λ fs a. (refl, refl) }

pub quarantine-LogApart : LogApart quarantine_slot
unfolding quarantine_changed
quarantine-LogApart = record { hands_no_rows = λ fs a. (refl, refl) }
