-- ===== src/Presentation.antt =====
-- The components without a state in frontend/src/components: Badge.tsx, Card.tsx, Skeleton.tsx and
-- Wordmark.tsx, and the tones and icons that go with the four labels of a verdict.
use mirraura.Base.{
  ℕ, zero, suc, Bool, true, List, [], ◌∷◌, ◌++◌, Text, text, Option, none, some, is_nonempty,
  if◌then◌else◌,
}
use mirraura.Types.{VerdictLabel, normal, suspicious, compromised, inconclusive}

pub data BadgeTone : Type 0 where
  normal_tone suspicious_tone compromised_tone inconclusive_tone neutral_tone : BadgeTone

-- The icons that stand in a badge.
pub data Icon : Type 0 where
  check_circle alert_triangle shield_alert shield_check help_circle wifi wifi_off : Icon

pub record Badge : Type 0 where
  pub tone : BadgeTone
  pub icon : Icon
  pub content : Text

-- The tables of AuditLogTable.tsx and VerdictPanel.tsx.
abbrev pub verdict_tone : VerdictLabel → BadgeTone
verdict_tone normal = normal_tone
verdict_tone suspicious = suspicious_tone
verdict_tone compromised = compromised_tone
verdict_tone inconclusive = inconclusive_tone

abbrev pub verdict_icon : VerdictLabel → Icon
verdict_icon normal = check_circle
verdict_icon suspicious = alert_triangle
verdict_icon compromised = shield_alert
verdict_icon inconclusive = help_circle

abbrev pub label_text : VerdictLabel → Text
label_text normal = text "Normal"
label_text suspicious = text "Suspicious"
label_text compromised = text "Compromised"
label_text inconclusive = text "Inconclusive"

-- The badge of a verdict, with the same tone and icon wherever it is used.
abbrev pub verdict_badge : VerdictLabel → Badge
verdict_badge label = record {
  tone = verdict_tone label;
  icon = verdict_icon label;
  content = label_text label;
}

-- A card, whose action is rendered if it is there.
pub record Card {ℓ κ} (A : Type ℓ) (B : Type κ) : Type (ℓ ⊔ κ) where
  pub title : Text
  pub action : Option A
  pub body : B

-- The keys of the rows of a skeleton, 3 unless it says otherwise.
abbrev count_up : ℕ → ℕ → List ℕ
count_up i zero = []
count_up i (suc n) = i ∷ count_up (suc i) n

unfoldable pub skeleton : Option ℕ → List ℕ
skeleton none = count_up 0 3
skeleton (some rows) = count_up 0 rows

pub record Wordmark : Type 0 where
  pub size : ℕ
  pub text_shown : Option Text
  pub class_name : Text

-- With the defaults of the source in place of what is left out.
unfoldable pub wordmark : Option ℕ → Option Bool → Option Text → Wordmark
wordmark size with_text class_name = record {
  size = elim size [ none ↦ 20 | some n ↦ n ];
  text_shown =
      let shown : Bool = elim with_text [ none ↦ true | some b ↦ b ] in
      if shown then some (text "Mirraura") else none;
  class_name = elim class_name [
    | none ↦ text "wordmark"
    | some name ↦ if is_nonempty name then text "wordmark " ++ name else text "wordmark"
  ];
}
