-- ===== src/Stats.antt =====
-- frontend/src/components/StatStrip.tsx and frontend/src/components/DetectionsOverview.tsx: the
-- numbers over the verdicts. The counts are kept as a list in the order in which their keys come up,
-- which is the order of an object whose keys are no array indices.
pub mod Counts
pub mod Bag
pub mod Rows
mod Tests
use mirraura.Base.{
  ℕ, suc, ltb, Bool, true, false, List, [], ◌∷◌, ◌++◌, map, filter, length, Text, text, text_eq,
  is_nonempty, Option, none, some, if◌then◌else◌,
}
use mirraura.Types.{Verdict, VerdictLabel, compromised, normal, suspicious, inconclusive}
use mirraura.Api.Endpoints.{HashEntry, is_pending}

abbrev pub is_compromised : VerdictLabel → Bool
is_compromised compromised = true
is_compromised _ = false

pub data ChainBadge : Type 0 where
  checking intact broken : ChainBadge

pub record StatStrip : Type 0 where
  pub samples_analyzed : ℕ
  pub compromised_count : ℕ
  pub compromised_tone : Bool
  pub pending_approvals : ℕ
  pub pending_tone : Bool
  pub chain : ChainBadge

abbrev chain_badge : Option Bool → ChainBadge
chain_badge none = checking
chain_badge (some true) = intact
chain_badge (some false) = broken

unfoldable pub stat_strip : List Verdict → List HashEntry → Option Bool → StatStrip
stat_strip verdicts hashes chain_intact =
    let bad = length (filter (λ (v : Verdict). is_compromised v.verdict) verdicts) in
    let pending = length (filter (λ (h : HashEntry). is_pending h.status) hashes) in
    record {
      samples_analyzed = length (filter (λ (v : Verdict). is_nonempty v.sample_hash) verdicts);
      compromised_count = bad;
      compromised_tone = ltb 0 bad;
      pending_approvals = pending;
      pending_tone = ltb 0 pending;
      chain = chain_badge chain_intact;
    }

-- `counts[key] = (counts[key] ?? 0) + 1`
unfoldable pub increment : Text → List (Text × ℕ) → List (Text × ℕ)
increment key [] = (key, 1) ∷ []
increment key ((k, n) ∷ counts) =
    let rest = increment key counts in if text_eq k key then (k, suc n) ∷ counts else (k, n) ∷ rest

abbrev pub count_from : {A : Type 0} → (A → Text) → List (Text × ℕ) → List A → List (Text × ℕ)
count_from key counts [] = counts
count_from key counts (v ∷ verdicts) = count_from key (increment (key v) counts) verdicts

unfoldable pub count_by : {A : Type 0} → (A → Text) → List A → List (Text × ℕ)
unfolding increment
count_by key verdicts = count_from key [] verdicts

-- `SOURCE_LABEL[source] ?? source`
unfoldable pub source_label : Text → Text
source_label source =
    if text_eq source (text "sample")
    then text "Manual upload"
    else if text_eq source (text "interceptor")
    then text "Auto-intercepted download"
    else if text_eq source (text "monitor")
    then text "Continuous monitoring"
    else source

unfoldable pub method_label : Text → Text
method_label method =
    if text_eq method (text "known_bad_hash")
    then text "Known-bad hash"
    else if text_eq method (text "static_triage")
    then text "Static triage"
    else if text_eq method (text "dynamic")
    then text "Detonated & scored"
    else method

unfoldable pub detections_overview : List Verdict → List (Text × ℕ)
unfolding count_by source_label method_label
detections_overview verdicts =
    map (λ (c : Text × ℕ). (source_label c.0, c.1)) (count_by (λ (v : Verdict). v.source) verdicts)
    ++ map (λ (c : Text × ℕ). (method_label c.0, c.1))
        (count_by (λ (v : Verdict). v.detection_method) verdicts)
