-- ===== src/Toast/Timers.antt =====
-- What holds of the notifications of frontend/src/components/Toast.tsx after any events.
use mirraura.Base.{
  ℕ, suc, ◌≤◌, ◌<◌, ◌≡◌, ◌==◌, Bool, true, not, List, [], ◌∷◌, ◌++◌, map, Text, filter, All, elem,
  elem-append, elem-cons, elem-nil, arith, All-filter, All-append, refl,
}
use mirraura.Toast.{
  ToastTone, ToastItem, Host, Bus, hear, dismiss, push, mount_host, listen, unmount_host, start,
  fire,
}

abbrev pub keep : ℕ → ToastItem → Bool
keep id t = not (t.id == id)

abbrev pub IsCovered : List ℕ → List ToastItem → Type 0
IsCovered timers = All (λ (t : ToastItem). elem t.id timers ≡ true)

-- The ids grow along the list, from the bound on.
abbrev pub IsIncreasing : ℕ → List ToastItem → Type 0
IsIncreasing lo [] = Unit {0}
IsIncreasing lo (t ∷ ts) = (lo ≤ t.id) × IsIncreasing (suc t.id) ts

abbrev pub IsBelow : ℕ → List ToastItem → Type 0
IsBelow n = All (λ (t : ToastItem). t.id < n)

IsCovered-append :
    (tm : List ℕ) (n : ℕ) (ts : List ToastItem) → IsCovered tm ts → IsCovered (tm ++ n ∷ []) ts
IsCovered-append tm n [] h = tt
IsCovered-append tm n (t ∷ ts) h =
    ground (arith, IsCovered-append tm n ts h.1, elem-append t.id tm (n ∷ []))

IsCovered-filter :
    (id : ℕ) (tm : List ℕ) (ts : List ToastItem)
    → IsCovered tm ts
    → IsCovered tm (filter (keep id) ts)
IsCovered-filter id tm [] h = tt
IsCovered-filter id tm (t ∷ ts) h = ground (arith, IsCovered-filter id tm ts h.1)

-- The timer that fires is no longer needed once its toast is gone.
IsCovered-fire :
    (before after : List ℕ) (id : ℕ) (ts : List ToastItem)
    → IsCovered (before ++ id ∷ after) ts
    → IsCovered (before ++ after) (filter (keep id) ts)
IsCovered-fire before after id [] h = tt
IsCovered-fire before after id (t ∷ ts) h = ground (
  arith,
  IsCovered-fire before after id ts h.1,
  elem-append t.id before (id ∷ after),
  elem-append t.id before after,
  elem-cons t.id id after,
)

IsIncreasing-mono :
    (lo hi : ℕ) (ts : List ToastItem) → lo ≤ hi → IsIncreasing hi ts → IsIncreasing lo ts
IsIncreasing-mono lo hi [] h k = tt
IsIncreasing-mono lo hi (t ∷ ts) h k = (omega arith, k.1)

IsIncreasing-filter :
    (id lo : ℕ) (ts : List ToastItem) → IsIncreasing lo ts → IsIncreasing lo (filter (keep id) ts)
IsIncreasing-filter id lo [] h = tt
IsIncreasing-filter id lo (t ∷ ts) h = ground (
  arith,
  IsIncreasing-filter id (suc t.id) ts h.1,
  IsIncreasing-mono lo (suc t.id) (filter (keep id) ts),
)

IsIncreasing-append :
    (lo : ℕ) (ts : List ToastItem) (item : ToastItem)
    → lo ≤ item.id
    → IsIncreasing lo ts
    → IsBelow item.id ts
    → IsIncreasing lo (ts ++ item ∷ [])
IsIncreasing-append lo [] item l h b = (l, tt)
IsIncreasing-append lo (t ∷ ts) item l h b =
    (h.0, IsIncreasing-append (suc t.id) ts item b.0 h.1 b.1)

IsBelow-append :
    (n : ℕ) (ts : List ToastItem) (item : ToastItem)
    → item.id ≡ n
    → IsBelow n ts
    → IsBelow (suc n) (ts ++ item ∷ [])
IsBelow-append n [] item e h = (omega arith, tt)
IsBelow-append n (t ∷ ts) item e h = (omega (arith, h.0), IsBelow-append n ts item e h.1)

IsBelow-filter : (id n : ℕ) (ts : List ToastItem) → IsBelow n ts → IsBelow n (filter (keep id) ts)
IsBelow-filter id n ts h = All-filter (λ (t : ToastItem). t.id < n) (keep id) ts h

pub record HasTimers (b : Bus) : Type 0 where
  -- No two toasts have one id, and no new one will take an id again.
  pub increasing : IsIncreasing 0 b.toasts
  pub below : IsBelow b.next_id b.toasts
  -- Every toast has a timer that will dismiss it.
  pub covered : IsCovered b.timers b.toasts

-- A listening host shows the toasts of the bus.
abbrev pub IsCurrent : Bus → Type 0
IsCurrent b = All (λ (h : Host). h.listening ≡ true → h.items ≡ b.toasts) b.hosts

pub data Step (b c : Bus) : Type 0 where
  pushes : (message : Text) (tone : ToastTone) → c ≡ push message tone b → Step b c
  fires :
      (before : List ℕ) (id : ℕ) (after : List ℕ)
      → b.timers ≡ before ++ id ∷ after
      → c ≡ fire before id after b
      → Step b c
  clicks_close : (id : ℕ) → c ≡ dismiss id b → Step b c
  mounts : c ≡ mount_host b → Step b c
  listens : c ≡ listen b → Step b c
  unmounts : (i : ℕ) → c ≡ unmount_host i b → Step b c

pub data Reach : Bus → Type 0 where
  begin : Reach start
  next : {b c : Bus} → Reach b → Step b c → Reach c

elem_last : (n : ℕ) (tm : List ℕ) → elem n (tm ++ n ∷ []) ≡ true
elem_last n tm = ground (arith, elem-append n tm (n ∷ []), elem-cons n n [])

push-HasTimers :
    (message : Text) (tone : ToastTone) (b : Bus) → HasTimers b → HasTimers (push message tone b)
unfolding push
push-HasTimers message tone b v =
    let item : ToastItem = record { id = b.next_id; message = message; tone = tone } in
    record {
      increasing = IsIncreasing-append 0 b.toasts item (omega arith) v.increasing v.below;
      below = IsBelow-append b.next_id b.toasts item refl v.below;
      covered =
          All-append (λ (t : ToastItem). elem t.id (b.timers ++ b.next_id ∷ []) ≡ true) b.toasts
            (item ∷ []) (IsCovered-append b.timers b.next_id b.toasts v.covered)
            (elem_last b.next_id b.timers, tt);
    }

fire-HasTimers :
    (before : List ℕ) (id : ℕ) (after : List ℕ) (b : Bus)
    → b.timers ≡ before ++ id ∷ after
    → HasTimers b
    → HasTimers (fire before id after b)
unfolding dismiss
fire-HasTimers before id after b e v = record {
  increasing = IsIncreasing-filter id 0 b.toasts v.increasing;
  below = IsBelow-filter id b.next_id b.toasts v.below;
  covered = IsCovered-fire before after id b.toasts (rw e at v.covered);
}

dismiss-HasTimers : (id : ℕ) (b : Bus) → HasTimers b → HasTimers (dismiss id b)
unfolding dismiss
dismiss-HasTimers id b v = record {
  increasing = IsIncreasing-filter id 0 b.toasts v.increasing;
  below = IsBelow-filter id b.next_id b.toasts v.below;
  covered = IsCovered-filter id b.timers b.toasts v.covered;
}

Step-HasTimers : {b c : Bus} → Step b c → HasTimers b → HasTimers c
unfolding mount_host listen unmount_host
Step-HasTimers {b} (pushes message tone e) v = rw e (push-HasTimers message tone b v)
Step-HasTimers {b} (fires before id after t e) v = rw e (fire-HasTimers before id after b t v)
Step-HasTimers {b} (clicks_close id e) v = rw e (dismiss-HasTimers id b v)
Step-HasTimers (mounts e) v =
    rw e (record { increasing = v.increasing; below = v.below; covered = v.covered })
Step-HasTimers (listens e) v =
    rw e (record { increasing = v.increasing; below = v.below; covered = v.covered })
Step-HasTimers (unmounts i e) v =
    rw e (record { increasing = v.increasing; below = v.below; covered = v.covered })

covered_by_none : (ts : List ToastItem) → IsCovered [] ts → ts ≡ []
covered_by_none [] h = refl
covered_by_none (t ∷ ts) h = cc (elem-nil t.id, h.0)

-- After any pushes, timers, clicks on a toast, and mounting or unmounting of hosts, the ids of the
-- toasts are distinct and below the next one, every toast has a running timer that will dismiss it,
-- and once no timer is running no toast is left.
pub Reach-HasTimers : {b : Bus} → Reach b → HasTimers b × (b.timers ≡ [] → b.toasts ≡ [])
Reach-HasTimers {b} r = let v = sound r in (v, λ e. covered_by_none b.toasts (rw e at v.covered))
  where
    sound : {c : Bus} → Reach c → HasTimers c
    sound begin = record { increasing = tt; below = tt; covered = tt }
    sound (next q s) = Step-HasTimers s (sound q)

hear-IsCurrent :
    (ts : List ToastItem) (hs : List Host)
    → All (λ (h : Host). h.listening ≡ true → h.items ≡ ts) (map (hear ts) hs)
hear-IsCurrent ts [] = tt
hear-IsCurrent ts (h ∷ hs) = (ground arith, hear-IsCurrent ts hs)

-- After a push or a dismissal, every host that listens shows exactly the toasts of the bus; a push
-- puts the new toast last, and a dismissal leaves the toasts of every other id in their order.
pub emit-IsCurrent :
    (message : Text) (tone : ToastTone) (id : ℕ) (b : Bus)
    → IsCurrent (push message tone b)
      × IsCurrent (dismiss id b)
      × ((push message tone b).toasts
          ≡ b.toasts ++ record { id = b.next_id; message = message; tone = tone } ∷ [])
      × ((dismiss id b).toasts ≡ filter (keep id) b.toasts)
unfolding push dismiss
emit-IsCurrent message tone id b = (hear-IsCurrent _ b.hosts, hear-IsCurrent _ b.hosts, refl, refl)
