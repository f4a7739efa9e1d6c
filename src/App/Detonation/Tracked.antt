-- ===== src/App/Detonation/Tracked.antt =====
-- The uploads of frontend/src/components/UploadPanel.tsx under the sessions of frontend/src/App.tsx.
use mirraura.Base.{
  ℕ, ◌==◌, ◌<◌, ◌≤◌, Bool, true, false, ◌≡◌, refl, inl, inr, Bool-cases, arith, ◌∙◌, subst, sym,
}
use mirraura.Types.{Verdict}
use mirraura.Api.Request.{Outcome, fulfilled, rejected}
use mirraura.Upload.{Upload, last_step, upload_answered}
use mirraura.App.Dashboard.{remove_one}
use mirraura.App.Detonation.{UploadMount, answer_arrives}
use mirraura.App.Detonation.Runs.{
  count, count-remove_one, count-remove_one_other, count-remove_one_le,
}
use mirraura.App.Detonation.Panel.{Tracked}

-- Whatever the answer to an upload is, it ends it.
pub upload_ends :
    (answer : Outcome Verdict) (u : Upload)
    → u.step_index ≤ last_step
    → let v = (upload_answered answer u).0 in
      (v.busy ≡ false) × (v.ticking ≡ false) × (v.step_index ≤ last_step)
unfolding upload_answered
upload_ends (fulfilled v) u l = (refl, refl, omega arith)
upload_ends (rejected e) u l = ground arith

-- The uploads after one of the mount `k` has been answered.
module _ {here : Bool} (k : ℕ) (m : UploadMount) (h : Tracked here m) where
  later-remove_one : (j : ℕ) → m.mount < j → count j (remove_one k m.runs) ≡ 0
  later-remove_one j l =
      let none_left = h.later j l in omega (arith, count-remove_one_le j k m.runs)

  single-remove_one : (j : ℕ) → count j (remove_one k m.runs) ≤ 1
  single-remove_one j = let one = h.single j in omega (arith, count-remove_one_le j k m.runs)

-- The answer to an upload of the mount that is there.
own-Tracked :
    (answer : Outcome Verdict) (m : UploadMount)
    → Tracked true m
    → Tracked true (record m {
      upload = (upload_answered answer m.upload).0;
      runs = remove_one m.mount m.runs;
    })
own-Tracked answer m h =
    let (idle, stopped, within) = upload_ends answer m.upload h.bounded in
    let one = h.single m.mount in
    record {
      one_run = λ s. rw idle (omega (arith, count-remove_one m.mount m.runs));
      ticker = cc;
      chosen = λ e. cc;
      underway = λ e. cc;
      bounded = within;
      later = later-remove_one m.mount m h;
      single = single-remove_one m.mount m h;
    }

-- The answer to one of another mount, or to one of a mount that is gone.
other-Tracked :
    {here : Bool} (k : ℕ) (m : UploadMount)
    → (here ≡ true → m.mount == k ≡ false)
    → Tracked here m
    → Tracked here (record m { runs = remove_one k m.runs })
other-Tracked k m d h = record {
  one_run = λ s. count-remove_one_other m.mount k m.runs (d s) ∙ h.one_run s;
  ticker = h.ticker;
  chosen = h.chosen;
  underway = h.underway;
  bounded = h.bounded;
  later = later-remove_one k m h;
  single = single-remove_one k m h;
}

pub answer-Tracked :
    (here : Bool) (k : ℕ) (answer : Outcome Verdict) (m : UploadMount)
    → Tracked here m
    → Tracked here (answer_arrives here k answer m)
unfolding answer_arrives
answer-Tracked false k answer m h = other-Tracked k m (λ s. cc) h
answer-Tracked true k answer m h = elim (Bool-cases (k == m.mount)) [
  | inl t ↦
      let same : k ≡ m.mount = ground arith in
      rw t (
        subst
          (λ j.
            Tracked true (record m {
              upload = (upload_answered answer m.upload).0;
              runs = remove_one j m.runs;
            }))
          (sym same) (own-Tracked answer m h))
  | inr f ↦ rw f (other-Tracked k m (λ s. ground arith) h)
]
