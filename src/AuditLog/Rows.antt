-- ===== src/AuditLog/Rows.antt =====
-- frontend/src/components/AuditLogTable.tsx, lines 138 to 157 and 287 to 352: what is rendered of the
-- log. The relative time and `toFixed(2)` of a number are parameters.
use mirraura.Base.{
  ℕ, suc, ltb, Bool, true, false, List, [], ◌∷◌, length, Text, Option, none, some, map_some,
  get_or_else, if◌then◌else◌, ◌≡◌, ◌⊎◌, All, refl, inl, inr, Bool-cases, or_undefined, ◌++◌, text,
}
use mirraura.Presentation.{Badge, neutral_tone, help_circle, verdict_badge}
use mirraura.Types.{Double, VerdictLabel}
use mirraura.Api.Endpoints.{ChainStatus}
use mirraura.Stats.{source_label}
use mirraura.AuditLog.{
  AuditRow, AuditLog, filtered, page_count, current_page, previous_disabled, next_disabled, text,
}

abbrev pub dash : Text
dash = 8212 ∷ []

-- `s || "—"`
abbrev pub or_dash : Option Text → Text
or_dash none = dash
or_dash (some []) = dash
or_dash (some (c ∷ s)) = c ∷ s

-- `!row.action`
abbrev pub lacks : Option Text → Bool
lacks none = true
lacks (some []) = true
lacks (some (c ∷ s)) = false

abbrev nonempty : Option Text → Option Text
nonempty none = none
nonempty (some []) = none
nonempty (some (c ∷ s)) = some (c ∷ s)

-- The badge of what is no verdict.
abbrev pub neutral_badge : Text → Badge
neutral_badge content = record { tone = neutral_tone; icon = help_circle; content = content }

-- The badge of a row without an action, and of one with.
abbrev row_badge : Option VerdictLabel → Option Text → Badge
row_badge (some label) action = verdict_badge label
row_badge none action = neutral_badge (get_or_else action dash)

-- `r.verdict_id ?? r.record_id ?? ...`, by which a row is told from the others.
abbrev pub row_key : AuditRow → Text
row_key r = get_or_else r.verdict_id (
    get_or_else r.record_id (
      or_undefined r.action
      ++ (text "-" ++ (or_undefined r.device_id ++ (text "-" ++ r.timestamp)))))

pub record Row : Type 0 where
  pub key : Text
  pub time : Text
  pub title : Text
  pub file : Text
  pub hash : Option Text
  pub source : Option Text
  pub badge : Badge
  pub actor : Text
  pub confidence : Text

abbrev cons_rows : Option Row → Option (List Row) → Option (List Row)
cons_rows none qs = none
cons_rows (some q) none = none
cons_rows (some q) (some qs) = some (q ∷ qs)

module _ (relative : Text → Text) (to_fixed_2 : Double → Text) where
  abbrev pub verdict_row : AuditRow → Double → Row
  verdict_row r c = record {
    key = row_key r;
    time = relative r.timestamp;
    title = r.timestamp;
    file = or_dash r.sample_filename;
    hash = nonempty r.sample_hash;
    source = map_some source_label r.source;
    badge = row_badge r.verdict r.action;
    actor = or_dash r.actor;
    confidence = to_fixed_2 c;
  }

  abbrev pub action_row : AuditRow → Row
  action_row r = record {
    key = row_key r;
    time = relative r.timestamp;
    title = r.timestamp;
    file = dash;
    hash = nonempty r.hash;
    source = some dash;
    badge = neutral_badge (get_or_else r.action dash);
    actor = or_dash r.actor;
    confidence = dash;
  }

  -- `none` if rendering throws, which it does at the missing confidence of a row without an action.
  unfoldable pub row : AuditRow → Option Row
  row r = if lacks r.action then map_some (verdict_row r) r.confidence else some (action_row r)

  abbrev pub all_rows : List AuditRow → Option (List Row)
  all_rows [] = some []
  all_rows (r ∷ rs) = cons_rows (row r) (all_rows rs)

pub data ChainIndicator : Type 0 where
  chain_intact : (entries : ℕ) (verified : Option Text) → ChainIndicator
  chain_broken : (at : Option ℕ) (checked : Option Text) → ChainIndicator

-- `when` is the relative time of the check.
unfoldable pub chain_indicator : Option ChainStatus → Option Text → Option ChainIndicator
chain_indicator none when = none
chain_indicator (some status) when =
    some (
      if status.intact
      then chain_intact status.entries when
      else chain_broken status.broken_at when)

pub record Pagination : Type 0 where
  pub page_number : ℕ
  pub pages : ℕ
  pub previous_off : Bool
  pub next_off : Bool

unfoldable pub pagination : (Text → Text) → AuditLog → Option Pagination
pagination lower s =
    let n = length (filtered lower s) in
    if ltb 1 (page_count n)
    then some (record {
      page_number = suc (current_page s.page n);
      pages = page_count n;
      previous_off = previous_disabled lower s;
      next_off = next_disabled lower s;
    })
    else none

-- A record of an action, or a verdict with its label and its confidence.
abbrev pub IsWhole : AuditRow → Type 0
IsWhole r =
    (lacks r.action ≡ false)
    ⊎ ((label : VerdictLabel) × (c : Double) × (r.verdict ≡ some label) × (r.confidence ≡ some c))

-- What the badge says: the action if there is one, and else the verdict.
abbrev pub TellsOf : AuditRow → Row → Type 0
TellsOf r q =
    (lacks r.action ≡ false → q.badge ≡ neutral_badge (get_or_else r.action dash))
    × (lacks r.action ≡ true
        → (label : VerdictLabel) × (r.verdict ≡ some label) × (q.badge ≡ verdict_badge label))
    × (q.title ≡ r.timestamp)

-- The rows of a page tell of the rows of the log, one each and in the same order.
abbrev pub AllTell : List AuditRow → List Row → Type 0
AllTell [] [] = Unit {0}
AllTell [] (q ∷ qs) = ⊥
AllTell (r ∷ rs) [] = ⊥
AllTell (r ∷ rs) (q ∷ qs) = TellsOf r q × AllTell rs qs

module _ (relative : Text → Text) (to_fixed_2 : Double → Text) where
  row_tells :
      (r : AuditRow) → IsWhole r → (q : Row) × (row relative to_fixed_2 r ≡ some q) × TellsOf r q
  unfolding row
  row_tells r (inl a) =
      (action_row relative to_fixed_2 r, rw a refl, ((λ b. refl), (λ b. absurd (cc)), refl))
  row_tells r (inr (label, c, v, k)) = elim (Bool-cases (lacks r.action)) [
    | inl b ↦ (
      verdict_row relative to_fixed_2 r c,
      rw (b, k) refl,
      ((λ d. absurd (cc)), (λ d. (label, v, rw v refl)), refl),
    )
    | inr b ↦ (action_row relative to_fixed_2 r, rw b refl, ((λ d. refl), (λ d. absurd (cc)), refl))
  ]

  -- A page whose rows are records of actions or whole verdicts is rendered without an exception, and
  -- has a row for each of them, in order, whose badge is the action if there is one and else the
  -- verdict.
  pub all_rows_lem :
      (rs : List AuditRow)
      → All IsWhole rs
      → (qs : List Row) × (all_rows relative to_fixed_2 rs ≡ some qs) × AllTell rs qs
  all_rows_lem [] h = ([], refl, tt)
  all_rows_lem (r ∷ rs) h =
      let (q, e, t) = row_tells r h.0 in
      let (qs, f, u) = all_rows_lem rs h.1 in (q ∷ qs, rw (e, f) refl, (t, u))
