-- ===== src/App/Detonation/Panel.antt =====
-- The upload panel of frontend/src/components/UploadPanel.tsx with its uploads: what the user, the ticker and
-- the digests do to it.
use mirraura.Base.{
  ℕ, suc, ◌==◌, ◌-◌, ◌<◌, ◌≤◌, Bool, true, false, List, ◌∷◌, elem, Option, none, some, ◌≡◌, ◌≢◌,
  refl, inl, inr, Bool-cases, arith, Text, if◌then◌else◌, ◌&&◌,
}
use mirraura.Api.Request.{File, Outcome, fulfilled, rejected}
use mirraura.Upload.{
  Upload, last_step, handle_file, hash_answered, handle_upload, tick, drag, handle_drop,
  run_disabled,
}
use mirraura.App.{UserState}
use mirraura.App.Connected.{is_signed_in}
use mirraura.App.Dashboard.{remove_one}
use mirraura.App.Detonation.{
  UploadMount, zone_settled, pick, drop_file, drag_over, run_sample, interval, digest_arrives,
}
use mirraura.App.Detonation.Runs.{count}

-- A panel with its uploads; it is there, or it is what a session has left.
pub record Tracked (here : Bool) (m : UploadMount) : Type 0 where
  pub one_run : here ≡ true → count m.mount m.runs ≡ (if m.upload.busy then 1 else 0)
  pub ticker : m.upload.ticking ≡ m.upload.busy
  pub chosen : m.upload.busy ≡ true → m.upload.file ≢ none
  pub underway : m.upload.busy ≡ true → m.upload.step_index ≤ last_step - 1
  pub bounded : m.upload.step_index ≤ last_step
  pub later : (k : ℕ) → m.mount < k → count k m.runs ≡ 0
  pub single : (k : ℕ) → count k m.runs ≤ 1

-- What a change of the panel that starts and ends no upload needs.
changed-Tracked :
    {here : Bool} (m : UploadMount) (u : Upload) (asked : List ℕ)
    → u.busy ≡ m.upload.busy
    → u.ticking ≡ m.upload.ticking
    → u.step_index ≡ m.upload.step_index
    → (u.busy ≡ true → u.file ≢ none)
    → Tracked here m
    → Tracked here (record m { upload = u; digests = asked })
changed-Tracked m u asked b t i c h = record {
  one_run = λ s. let own = h.one_run s in ground arith;
  ticker = let same = h.ticker in cc;
  chosen = c;
  underway = λ e. let own = h.underway in ground arith;
  bounded = let own = h.bounded in ground arith;
  later = h.later;
  single = h.single;
}

pub settled-Tracked :
    (a b : UserState) (m : UploadMount)
    → Tracked (is_signed_in a) m
    → Tracked (is_signed_in b) (zone_settled a b m)
unfolding zone_settled
settled-Tracked a b m h = elim (Bool-cases (is_signed_in b)) [
  | inr f ↦ rw f (record {
    one_run = λ s. cc;
    ticker = h.ticker;
    chosen = h.chosen;
    underway = h.underway;
    bounded = h.bounded;
    later = h.later;
    single = h.single;
  })
  | inl t ↦ elim (Bool-cases (is_signed_in a)) [
    | inl t' ↦ rw (t, t') (let own : Tracked true m = rw t' at h in own)
    | inr f' ↦
        rw (t, f')
          (record {
            one_run = λ s. h.later (suc m.mount) (omega arith);
            ticker = refl;
            chosen = λ e. cc;
            underway = λ e. cc;
            bounded = omega arith;
            later = λ k l. h.later k (omega arith);
            single = h.single;
          })
  ]
]

either-Tracked :
    {here : Bool} (b : Bool) (m n : UploadMount)
    → Tracked here m
    → Tracked here n
    → Tracked here (if b then m else n)
either-Tracked true m n h g = h
either-Tracked false m n h g = g

pub pick-Tracked : (f : File) (m : UploadMount) → Tracked true m → Tracked true (pick f m)
unfolding pick handle_file
pick-Tracked f m h = either-Tracked m.upload.busy m _ h (
    changed-Tracked m (handle_file f m.upload) (m.mount ∷ m.digests) refl refl refl
      (λ b. ground arith) h)

pub drop-Tracked :
    (f : Option File) (m : UploadMount) → Tracked true m → Tracked true (drop_file f m)
unfolding drop_file handle_drop handle_file
drop-Tracked none m h =
    changed-Tracked m (handle_drop none m.upload) m.digests refl refl refl h.chosen h
drop-Tracked (some f) m h =
    changed-Tracked m (handle_drop (some f) m.upload) (m.mount ∷ m.digests) refl refl refl
      (λ b. ground arith) h

pub drag-Tracked :
    (over : Bool) (m : UploadMount) → Tracked true m → Tracked true (drag_over over m)
unfolding drag_over drag
drag-Tracked over m h = changed-Tracked m (drag over m.upload) m.digests refl refl refl h.chosen h

digest_either :
    {here : Bool} (b : Bool) (answer : Outcome Text) (m : UploadMount) (asked : List ℕ)
    → Tracked here m
    → Tracked here (record m {
      upload = if b then hash_answered answer m.upload else m.upload;
      digests = asked;
    })
unfolding hash_answered
digest_either false answer m asked h = changed-Tracked m m.upload asked refl refl refl h.chosen h
digest_either true (fulfilled d) m asked h =
    changed-Tracked m (hash_answered (fulfilled d) m.upload) asked refl refl refl h.chosen h
digest_either true (rejected e) m asked h =
    changed-Tracked m m.upload asked refl refl refl h.chosen h

pub digest-Tracked :
    (here : Bool) (k : ℕ) (answer : Outcome Text) (m : UploadMount)
    → Tracked here m
    → Tracked here (digest_arrives here k answer m)
unfolding digest_arrives
digest-Tracked here k answer m h =
    either-Tracked (elem k m.digests) _ m
      (digest_either (here && k == m.mount) answer m (remove_one k m.digests) h) h

pub run-Tracked :
    (m : UploadMount) → run_disabled m.upload ≡ false → Tracked true m → Tracked true (run_sample m)
unfolding run_sample handle_upload run_disabled
run-Tracked m d h =
    let own = h.one_run refl in
    let before = h.later in
    let ones = h.single in
    record {
      one_run = λ s. ground arith;
      ticker = ground arith;
      chosen = λ e. ground arith;
      underway = λ e. ground arith;
      bounded = ground arith;
      later = λ k l. ground (arith, before k);
      single = λ k. ground (arith, ones k);
    }

tick-Tracked :
    (m : UploadMount) → Tracked true m → Tracked true (record m { upload = tick m.upload })
unfolding tick
tick-Tracked m h = record {
  one_run = h.one_run;
  ticker = h.ticker;
  chosen = h.chosen;
  underway = λ e. omega arith;
  bounded = omega arith;
  later = h.later;
  single = h.single;
}

pub interval-Tracked : (m : UploadMount) → Tracked true m → Tracked true (interval m)
unfolding interval
interval-Tracked m h = either-Tracked m.upload.ticking _ m (tick-Tracked m h) h
