-- ===== src/Stats/Bag.antt =====
-- The verdicts without their order: what frontend/src/components/StatStrip.tsx and
-- DetectionsOverview.tsx show is a function of the bag of verdicts.
use mirraura.Stats.{StatStrip, stat_strip, is_compromised, count_by}
use mathlib.Core.Logic.{∥∥₁_elim}
use mathlib.Core.List.{Perm, Permᴰ}
use mathlib.Core.Quot
use mathlib.Core.Quot.{Quot}
use native.Mathlib.Nat.{ℕ_set}
use mirraura.Base.{
  text_eq_iff, ◌↔◌, ◌≢◌, ◌++◌, suc, true, All, Bool-cases, inl, inr, ltb, sym, is_nonempty, Option,
  ℕ, ◌≡◌, refl, ap, ◌∙◌, Bool, List, [], ◌∷◌, filter, length, Text, text_eq, arith,
}
use mirraura.Types.{
  Verdict, VerdictLabel, normal, suspicious, compromised, inconclusive, ReviewStatus,
}
use mirraura.Api.Endpoints.{HashEntry, is_pending}
use mirraura.Stats.Counts.{count_at, count_by_lem}

module _ {A : Type 0} where
  abbrev tally : (A → Bool) → List A → ℕ
  tally p vs = length (filter p vs)

  tally-cons :
      (p : A → Bool) (v : A) (us vs : List A)
      → tally p us ≡ tally p vs
      → tally p (v ∷ us) ≡ tally p (v ∷ vs)
  tally-cons p v us vs e = ground arith

  tally-swap : (p : A → Bool) (u v : A) (vs : List A) → tally p (u ∷ v ∷ vs) ≡ tally p (v ∷ u ∷ vs)
  tally-swap p u v vs = ground arith

  tally-permuted : (p : A → Bool) {us vs : List A} → Permᴰ us vs → tally p us ≡ tally p vs
  tally-permuted p Permᴰ.nil = refl
  tally-permuted p (Permᴰ.cons {a} {b} {l₁} {l₂} e d) =
      tally-cons p a l₁ l₂ (tally-permuted p d) ∙ ap (λ v. tally p (v ∷ l₂)) e
  tally-permuted p (Permᴰ.swap {a} {b} {a'} {b'} {l} e f) =
      tally-swap p a b l ∙ ap (λ v. tally p (v ∷ a ∷ l)) f ∙ ap (λ v. tally p (a' ∷ v ∷ l)) e
  tally-permuted p (Permᴰ.trans d f) = tally-permuted p d ∙ tally-permuted p f

  tally-Perm : (p : A → Bool) (us vs : List A) → Perm us vs → tally p us ≡ tally p vs
  tally-Perm p us vs perm = ∥∥₁_elim perm (ℕ_set _ _) (tally-permuted p)

pub VerdictBag : Type 0
VerdictBag = Quot (Perm {A = Verdict})

-- How many verdicts of a bag pass a test.
bag_tally : (Verdict → Bool) → VerdictBag → ℕ
unfolding VerdictBag
bag_tally p = Quot.lift ℕ_set (tally p) (tally-Perm p)

-- The numbers of a key, and of the statistics, as functions of the bag.
pub bag_count : (Verdict → Text) → Text → VerdictBag → ℕ
unfolding bag_tally
bag_count key k = bag_tally (λ v. text_eq (key v) k)

pub bag_of : List Verdict → VerdictBag
unfolding VerdictBag
bag_of vs = Quot.mk vs

-- What the code computes from a list is the number of the bag.
count_at-bag :
    (key : Verdict → Text) (k : Text) (vs : List Verdict)
    → count_at k (count_by key vs) ≡ bag_count key k (bag_of vs)
unfolding bag_count bag_tally bag_of
count_at-bag key k vs = (count_by_lem key k vs).0

-- The statistics of a bag.
pub bag_strip : VerdictBag → List HashEntry → Option Bool → StatStrip
unfolding bag_tally
bag_strip bag hashes chain_intact =
    let bad = bag_tally (λ (v : Verdict). is_compromised v.verdict) bag in
    record (stat_strip [] hashes chain_intact) {
      samples_analyzed = bag_tally (λ (v : Verdict). is_nonempty v.sample_hash) bag;
      compromised_count = bad;
      compromised_tone = ltb 0 bad;
    }

stat_strip-bag :
    (vs : List Verdict) (hashes : List HashEntry) (chain_intact : Option Bool)
    → stat_strip vs hashes chain_intact ≡ bag_strip (bag_of vs) hashes chain_intact
unfolding stat_strip bag_strip bag_of bag_tally
stat_strip-bag vs hashes chain_intact = refl

permuted_bag : (us vs : List Verdict) → Perm us vs → bag_of us ≡ bag_of vs
unfolding bag_of VerdictBag
permuted_bag us vs perm = Quot.sound perm

-- The statistics and every count of the overview are the same for the same verdicts in another order.
order_forgotten :
    (us vs : List Verdict) (hashes : List HashEntry) (chain_intact : Option Bool)
    (key : Verdict → Text) (k : Text)
    → Perm us vs
    → (stat_strip us hashes chain_intact ≡ stat_strip vs hashes chain_intact)
      × (count_at k (count_by key us) ≡ count_at k (count_by key vs))
order_forgotten us vs hashes chain_intact key k perm =
    let same = permuted_bag us vs perm in
    (
      stat_strip-bag us hashes chain_intact
          ∙ ap (λ bag. bag_strip bag hashes chain_intact) same
          ∙ sym (stat_strip-bag vs hashes chain_intact),
      count_at-bag key k us ∙ ap (bag_count key k) same ∙ sym (count_at-bag key k vs),
    )

-- The elements of a list, in any order, are those with a property, of which there are `those`, and the
-- others.
pub record Parted {A : Type 0} (P : A → Type 0) (xs those rest : List A) : Type 0 where
  pub parts : Perm xs (those ++ rest)
  pub all : All P those
  pub none_else : All (λ x. P x → ⊥) rest

module _ {A : Type 0} (P : A → Type 0) (p : A → Bool) (reads : (x : A) → (p x ≡ true) ↔ P x) where
  tally_none : (rest : List A) → All (λ x. P x → ⊥) rest → tally p rest ≡ 0
  tally_none [] h = refl
  tally_none (x ∷ rest) (n, h) = elim (Bool-cases (p x)) [
    | inl t ↦ absurd (n ((reads x).0 t))
    | inr f ↦ rw f (tally_none rest h)
  ]

  tally_parts :
      (those rest : List A)
      → All P those
      → All (λ x. P x → ⊥) rest
      → tally p (those ++ rest) ≡ length those
  tally_parts [] rest h n = tally_none rest n
  tally_parts (x ∷ those) rest (t, h) n = rw ((reads x).1 t) (ap suc (tally_parts those rest h n))

  tally-Parted : (xs those rest : List A) → Parted P xs those rest → tally p xs ≡ length those
  tally-Parted xs those rest h =
      tally-Perm p xs (those ++ rest) h.parts ∙ tally_parts those rest h.all h.none_else

some_if : {A : Type 0} (xs : List A) → (ltb 0 (length xs) ≡ true) ↔ (xs ≢ [])
some_if [] = ground arith
some_if (x ∷ xs) = (λ _ e. cc, λ _. ground arith)

abbrev pub IsBad : Verdict → Type 0
IsBad v = v.verdict ≡ compromised

abbrev pub HasHash : Verdict → Type 0
HasHash v = v.sample_hash ≢ []

abbrev pub IsWaiting : HashEntry → Type 0
IsWaiting h = h.status ≡ ReviewStatus.pending

reads_bad : (l : VerdictLabel) → (is_compromised l ≡ true) ↔ (l ≡ compromised)
reads_bad normal = ground arith
reads_bad suspicious = ground arith
reads_bad compromised = (λ _. refl, λ _. refl)
reads_bad inconclusive = ground arith

reads_waiting : (s : ReviewStatus) → (is_pending s ≡ true) ↔ (s ≡ ReviewStatus.pending)
reads_waiting ReviewStatus.pending = (λ _. refl, λ _. refl)
reads_waiting ReviewStatus.approved = ground arith
reads_waiting ReviewStatus.rejected = ground arith

reads_hash : (t : Text) → (is_nonempty t ≡ true) ↔ (t ≢ [])
reads_hash [] = ground arith
reads_hash (x ∷ t) = (λ _ e. cc, λ _. refl)

-- In whatever order the verdicts and the hashes come: the samples analyzed are the verdicts that have a
-- hash, the compromised ones those with that verdict, and the pending approvals the hashes with that
-- status; the two tones are set exactly if there is one; and the overview counts for a key the verdicts
-- with that key.
pub strip_counted :
    (vs bad good sampled bare keyed others : List Verdict) (hs waiting reviewed : List HashEntry)
    (chain_intact : Option Bool) (key : Verdict → Text) (k : Text)
    → Parted IsBad vs bad good
    → Parted HasHash vs sampled bare
    → Parted (λ v. key v ≡ k) vs keyed others
    → Parted IsWaiting hs waiting reviewed
    → let s = stat_strip vs hs chain_intact in
      (s.samples_analyzed ≡ length sampled)
      × (s.compromised_count ≡ length bad)
      × ((s.compromised_tone ≡ true) ↔ (bad ≢ []))
      × (s.pending_approvals ≡ length waiting)
      × ((s.pending_tone ≡ true) ↔ (waiting ≢ []))
      × (count_at k (count_by key vs) ≡ length keyed)
unfolding stat_strip
strip_counted vs bad good sampled bare keyed others hs waiting reviewed chain_intact key k b h q w =
    let bads =
      tally-Parted IsBad (λ v. is_compromised v.verdict) (λ v. reads_bad v.verdict) vs bad good b in
    let pendings =
      tally-Parted IsWaiting (λ e. is_pending e.status) (λ e. reads_waiting e.status) hs waiting
        reviewed w in
    (
      tally-Parted HasHash (λ v. is_nonempty v.sample_hash) (λ v. reads_hash v.sample_hash) vs
          sampled bare h,
      bads,
      rw bads (some_if bad),
      pendings,
      rw pendings (some_if waiting),
      (count_by_lem key k vs).0
          ∙ tally-Parted (λ v. key v ≡ k) (λ v. text_eq (key v) k) (λ v. text_eq_iff (key v) k) vs
              keyed others q,
    )
