-- ===== src/Stats/Rows.antt =====
-- What frontend/src/components/StatStrip.tsx and DetectionsOverview.tsx make of the rows that App.tsx
-- hands to them: App.tsx takes the rows of the audit log for verdicts, but the log also has records of
-- actions, which lack a verdict's fields. A missing field is counted under the key `undefined`.
use mirraura.Base.{
  ℕ, ◌+◌, ltb, Bool, false, List, [], ◌∷◌, ◌++◌, map, filter, length, Text, text, text_eq,
  is_nonempty, Option, none, some, get_or_else, if◌then◌else◌, ◌≡◌, refl, arith, or_undefined,
}
use mirraura.Types.{Verdict}
use mirraura.Api.Endpoints.{HashEntry, is_pending}
use mirraura.AuditLog.{AuditRow}
use mirraura.Stats.{
  StatStrip, stat_strip, is_compromised, chain_badge, count_by, source_label, method_label,
}
use mirraura.Stats.Counts.{count_at, with_key, count_by_lem}

-- `v.sample_hash` as a test, and `v.verdict === "Compromised"`.
abbrev has_hash : AuditRow → Bool
has_hash r = is_nonempty (get_or_else r.sample_hash [])

abbrev says_compromised : AuditRow → Bool
says_compromised r = elim r.verdict [ none ↦ false | some label ↦ is_compromised label ]

unfoldable pub row_strip : List AuditRow → List HashEntry → Option Bool → StatStrip
row_strip rows hashes chain_intact =
    let bad = length (filter says_compromised rows) in
    let pending = length (filter (λ (h : HashEntry). is_pending h.status) hashes) in
    record {
      samples_analyzed = length (filter has_hash rows);
      compromised_count = bad;
      compromised_tone = ltb 0 bad;
      pending_approvals = pending;
      pending_tone = ltb 0 pending;
      chain = chain_badge chain_intact;
    }

abbrev pub source_of : AuditRow → Text
source_of r = or_undefined r.source

abbrev pub method_of : AuditRow → Text
method_of r = or_undefined r.detection_method

unfoldable pub row_overview : List AuditRow → List (Text × ℕ)
unfolding count_by source_label method_label
row_overview rows =
    map (λ (c : Text × ℕ). (source_label c.0, c.1)) (count_by source_of rows)
    ++ map (λ (c : Text × ℕ). (method_label c.0, c.1)) (count_by method_of rows)

-- A record of an action, which is the other kind of entry of the log.
pub record Action : Type 0 where
  pub action : Text
  pub timestamp : Text
  pub device_id : Option Text
  pub record_id : Option Text
  pub hash : Option Text
  pub actor : Option Text

pub data Entry : Type 0 where
  judged : Verdict → Entry
  acted : Action → Entry

-- The row of an entry.
abbrev pub row_of : Entry → AuditRow
row_of (judged v) = record {
  verdict_id = some v.verdict_id;
  sample_hash = some v.sample_hash;
  sample_filename = some v.sample_filename;
  verdict = some v.verdict;
  confidence = some v.confidence;
  timestamp = v.timestamp;
  detection_method = some v.detection_method;
  source = some v.source;
  action = none;
  device_id = none;
  record_id = none;
  hash = none;
  actor = none;
}
row_of (acted a) = record {
  verdict_id = none;
  sample_hash = none;
  sample_filename = none;
  verdict = none;
  confidence = none;
  timestamp = a.timestamp;
  detection_method = none;
  source = none;
  action = some a.action;
  device_id = a.device_id;
  record_id = a.record_id;
  hash = a.hash;
  actor = a.actor;
}

abbrev pub verdicts_of : List Entry → List Verdict
verdicts_of [] = []
verdicts_of (judged v ∷ es) = v ∷ verdicts_of es
verdicts_of (acted a ∷ es) = verdicts_of es

abbrev pub actions_of : List Entry → List Action
actions_of [] = []
actions_of (judged v ∷ es) = actions_of es
actions_of (acted a ∷ es) = a ∷ actions_of es

-- A test that no record of an action passes.
tally-verdicts :
    (p : AuditRow → Bool) (q : Verdict → Bool) (es : List Entry)
    → ((v : Verdict) → p (row_of (judged v)) ≡ q v)
    → ((a : Action) → p (row_of (acted a)) ≡ false)
    → length (filter p (map row_of es)) ≡ length (filter q (verdicts_of es))
tally-verdicts p q [] same never = refl
tally-verdicts p q (judged v ∷ es) same never =
    ground (arith, same v, tally-verdicts p q es same never)
tally-verdicts p q (acted a ∷ es) same never =
    ground (arith, never a, tally-verdicts p q es same never)

-- The rows with a key: the verdicts with it, and every record of an action if it is the key of these.
tally-key :
    (key : AuditRow → Text) (verdict_key : Verdict → Text) (missing k : Text) (es : List Entry)
    → ((v : Verdict) → key (row_of (judged v)) ≡ verdict_key v)
    → ((a : Action) → key (row_of (acted a)) ≡ missing)
    → length (with_key key k (map row_of es))
      ≡ length (with_key verdict_key k (verdicts_of es))
        + (if text_eq missing k then length (actions_of es) else 0)
tally-key key verdict_key missing k [] same lacks = ground arith
tally-key key verdict_key missing k (judged v ∷ es) same lacks =
    rw (same v) (ground (arith, tally-key key verdict_key missing k es same lacks))
tally-key key verdict_key missing k (acted a ∷ es) same lacks =
    rw (lacks a) (ground (arith, tally-key key verdict_key missing k es same lacks))

count-key :
    (key : AuditRow → Text) (verdict_key : Verdict → Text) (k : Text) (es : List Entry)
    → ((v : Verdict) → key (row_of (judged v)) ≡ verdict_key v)
    → ((a : Action) → key (row_of (acted a)) ≡ text "undefined")
    → count_at k (count_by key (map row_of es))
      ≡ count_at k (count_by verdict_key (verdicts_of es))
        + (if text_eq (text "undefined") k then length (actions_of es) else 0)
count-key key verdict_key k es same lacks = omega (
  arith,
  (count_by_lem key k (map row_of es)).0,
  (count_by_lem verdict_key k (verdicts_of es)).0,
  tally-key key verdict_key (text "undefined") k es same lacks,
)

-- For any log of verdicts and records of actions: the statistics are those of its verdicts, while each
-- count of the overview, by source or by method, is the one of its verdicts but for the key `undefined`,
-- under which all the records of actions are counted besides.
pub actions_counted :
    (es : List Entry) (hashes : List HashEntry) (chain_intact : Option Bool) (k : Text)
    → let rows = map row_of es in
      let verdicts = verdicts_of es in
      let actions : ℕ = if text_eq (text "undefined") k then length (actions_of es) else 0 in
      (row_strip rows hashes chain_intact ≡ stat_strip verdicts hashes chain_intact)
      × (count_at k (count_by source_of rows)
          ≡ count_at k (count_by (λ (v : Verdict). v.source) verdicts) + actions)
      × (count_at k (count_by method_of rows)
          ≡ count_at k (count_by (λ (v : Verdict). v.detection_method) verdicts) + actions)
unfolding row_strip stat_strip
actions_counted es hashes chain_intact k =
    let samples =
      tally-verdicts has_hash (λ (v : Verdict). is_nonempty v.sample_hash) es (λ v. refl)
        (λ a. refl) in
    let bad =
      tally-verdicts says_compromised (λ (v : Verdict). is_compromised v.verdict) es (λ v. refl)
        (λ a. refl) in
    (
      rw (samples, bad) refl,
      count-key source_of (λ (v : Verdict). v.source) k es (λ v. refl) (λ a. refl),
      count-key method_of (λ (v : Verdict). v.detection_method) k es (λ v. refl) (λ a. refl),
    )
