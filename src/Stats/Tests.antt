-- ===== src/Stats/Tests.antt =====
-- frontend/src/components/DetectionsOverview.tsx at concrete inputs.
use mathlib.Core.List.{Perm, Permᴰ, perm_append_singleton, perm_comm}
use mirraura.Api.Endpoints.{HashEntry}
use mirraura.Stats.Bag.{Parted, IsBad, HasHash, strip_counted}
use mirraura.Stats.{
  stat_strip, count_by, increment, source_label, detections_overview, method_label,
}
use mirraura.Stats.Rows.{
  Action, Entry, judged, acted, row_of, verdicts_of, actions_of, source_of, method_of, row_strip,
  row_overview, actions_counted,
}
use mirraura.Base.{
  ◌++◌, ◌↔◌, ◌≢◌, true, map, some, ◌+◌, if◌then◌else◌, none, ◌≡◌, refl, [], ◌∷◌, text, Text, List,
  length, false, text_eq,
}
use mirraura.Types.{Verdict, compromised, normal}
use mirraura.Stats.Counts.{count_at}

abbrev a_verdict : Text → Verdict
a_verdict source = record {
  verdict_id = text "1";
  sample_hash = text "ab";
  sample_filename = text "a";
  verdict = compromised;
  confidence = record { negative = false; mantissa = 5; scale = 1 };
  causal_chain = [];
  timestamp = text "now";
  prev_log_hash = text "00";
  detection_method = text "dynamic";
  source = source;
}

abbrev three : List Verdict
three = a_verdict (text "sample") ∷ a_verdict (text "x") ∷ a_verdict (text "sample") ∷ []

overview :
    detections_overview three
    ≡ (text "Manual upload", 2) ∷ (text "x", 1) ∷ (text "Detonated & scored", 3) ∷ []
unfolding detections_overview count_by increment source_label method_label text text_eq
overview = refl

abbrev sent : Verdict
sent = record (a_verdict (text "sample")) { verdict = normal; sample_hash = [] }

abbrev x_sources : List Verdict
x_sources = a_verdict (text "x") ∷ []

abbrev other_sources : List Verdict
other_sources = sent ∷ a_verdict (text "sample") ∷ a_verdict (text "sample") ∷ []

sent_last : Perm (sent ∷ three) (three ++ sent ∷ [])
sent_last = perm_comm.0 (perm_append_singleton sent three)

three_first-IsBad : Parted IsBad (sent ∷ three) three (sent ∷ [])
three_first-IsBad = record {
  parts = sent_last;
  all = (refl, (refl, (refl, tt)));
  none_else = ((λ e. cc), tt);
}

three_first-HasHash : Parted HasHash (sent ∷ three) three (sent ∷ [])
unfolding text
three_first-HasHash = record {
  parts = sent_last;
  all = ((λ e. cc), ((λ e. cc), ((λ e. cc), tt)));
  none_else = ((λ n. n refl), tt);
}

abbrev unreviewed : List HashEntry
unreviewed = []

x_first : Parted (λ (v : Verdict). v.source ≡ text "x") (sent ∷ three) x_sources other_sources
unfolding text
x_first = record {
  parts = ∣ Permᴰ.trans (Permᴰ.cons refl (Permᴰ.swap refl refl)) (Permᴰ.swap refl refl) ∣₁;
  all = (refl, tt);
  none_else = ((λ e. cc), ((λ e. cc), ((λ e. cc), tt)));
}

strip_counted_example :
    let s = stat_strip (sent ∷ three) unreviewed none in
    (s.samples_analyzed ≡ 3)
    × (s.compromised_count ≡ 3)
    × ((s.compromised_tone ≡ true) ↔ (three ≢ []))
    × (s.pending_approvals ≡ 0)
    × ((s.pending_tone ≡ true) ↔ (unreviewed ≢ []))
    × (count_at (text "x") (count_by (λ (v : Verdict). v.source) (sent ∷ three)) ≡ 1)
strip_counted_example =
    strip_counted (sent ∷ three) three (sent ∷ []) three (sent ∷ []) x_sources other_sources [] []
      [] none (λ (v : Verdict). v.source) (text "x") three_first-IsBad three_first-HasHash x_first
      (record { parts = ∣ Permᴰ.nil ∣₁; all = tt; none_else = tt })

abbrev an_action : Action
an_action = record {
  action = text "isolate";
  timestamp = text "now";
  device_id = none;
  record_id = none;
  hash = none;
  actor = some (text "ada");
}

abbrev mixed : List Entry
mixed = judged (a_verdict (text "sample")) ∷ acted an_action ∷ []

mixed_overview :
    row_overview (map row_of mixed)
    ≡ (text "Manual upload", 1)
      ∷ (text "undefined", 1)
      ∷ (text "Detonated & scored", 1)
      ∷ (text "undefined", 1)
      ∷ []
unfolding row_overview count_by increment source_label method_label text text_eq
mixed_overview = refl

actions_counted_example :
    (row_strip (map row_of mixed) [] none ≡ stat_strip (verdicts_of mixed) [] none)
    × (count_at (text "x") (count_by source_of (map row_of mixed))
        ≡ count_at (text "x") (count_by (λ (v : Verdict). v.source) (verdicts_of mixed))
          + (if text_eq (text "undefined") (text "x") then length (actions_of mixed) else 0))
    × (count_at (text "x") (count_by method_of (map row_of mixed))
        ≡ count_at (text "x") (count_by (λ (v : Verdict). v.detection_method) (verdicts_of mixed))
          + (if text_eq (text "undefined") (text "x") then length (actions_of mixed) else 0))
actions_counted_example = actions_counted mixed [] none (text "x")
