-- ===== src/VerdictPanel.antt =====
-- frontend/src/components/VerdictPanel.tsx: what is rendered of a verdict. The rounding of a hundred
-- times the confidence is a parameter.
pub mod Headline
mod Tests
use mirraura.Base.{
  ℕ, List, [], ◌∷◌, Text, text, text_eq, Option, none, some, is_nonempty, if◌then◌else◌,
}
use mirraura.Presentation.{BadgeTone, Badge, verdict_tone, verdict_badge}
use mirraura.Types.{Double, Verdict, VerdictLabel, normal, suspicious, compromised, inconclusive}

pub data MethodIcon : Type 0 where
  fingerprint zap flask_conical : MethodIcon

-- The label and the icon of a known method.
unfoldable pub method_of : Text → Option (Text × MethodIcon)
method_of method =
    if text_eq method (text "known_bad_hash")
    then some (text "known-bad match", fingerprint)
    else if text_eq method (text "static_triage")
    then some (text "instant static match (not detonated)", zap)
    else if text_eq method (text "dynamic")
    then some (text "detonated & scored", flask_conical)
    else none

pub data CausalChain : Type 0 where
  nothing_suspicious : CausalChain
  timeline : List Text → CausalChain

abbrev causal_chain : List Text → CausalChain
causal_chain [] = nothing_suspicious
causal_chain (reason ∷ reasons) = timeline (reason ∷ reasons)

pub record View : Type 0 where
  pub tone : BadgeTone
  pub badge : Badge
  pub method : Option (Text × MethodIcon)
  pub confidence_pct : ℕ
  pub file : Text
  pub sample_hash : Text
  pub detonated : Text
  pub chain : CausalChain

-- `none` if nothing has been detonated yet.
unfoldable pub view : (Double → ℕ) → Option Verdict → Option View
unfolding method_of
view percent none = none
view percent (some v) = some (record {
  tone = verdict_tone v.verdict;
  badge = verdict_badge v.verdict;
  method = method_of v.detection_method;
  confidence_pct = percent v.confidence;
  file = if is_nonempty v.sample_filename then v.sample_filename else text "—";
  sample_hash = v.sample_hash;
  detonated = v.timestamp;
  chain = causal_chain v.causal_chain;
})
