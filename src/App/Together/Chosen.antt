-- ===== src/App/Together/Chosen.antt =====
-- The tabs that a user of frontend/src/App.tsx can choose: what all of the tabs that are rendered have in
-- common is true of the chosen one.
use mirraura.Base.{ℕ, zero, suc, List, [], ◌∷◌, some, get_elem?, All, Text, ◌≡◌, ◌⊎◌, subst}
use mirraura.Api.Request.{fulfilled}
use mirraura.Api.Endpoints.{Session}
use mirraura.Tabs.{TabItem, Key, handle_key_down, next_index}
use mirraura.App.{UserState, unknown, signed_out, signed_in}
use mirraura.App.Events.{knows, logs_in, TabEvent, clicks, presses, target}
use mirraura.App.Together.{Event, page}

abbrev pub OneOf : Text → List Text → Type 0
OneOf x [] = ⊥
OneOf x (y ∷ ys) = (x ≡ y) ⊎ OneOf x ys

-- A property of a value that is kept with it.
abbrev pub IfUser : (Session → Type 0) → UserState → Type 0
IfUser Allowed unknown = Unit
IfUser Allowed signed_out = Unit
IfUser Allowed (signed_in u) = Allowed u

-- Every session that begins is an allowed one.
unfoldable pub Admits : (Session → Type 0) → Event → Type 0
Admits Allowed (page (knows (fulfilled u))) = Allowed u
Admits Allowed (page (logs_in u)) = Allowed u
Admits Allowed _ = Unit

get-All :
    {A : Type 0} (P : A → Type 0) (xs : List A) (i : ℕ) (x : A)
    → All P xs
    → get_elem? xs i ≡ some x
    → P x
get-All P [] i x h e = cc
get-All P (y ∷ xs) zero x h e = let same : y ≡ x = cc in subst P same h.0
get-All P (y ∷ xs) (suc i) x h e = get-All P xs i x h.1 e

key-All :
    (P : TabItem → Type 0) (key : Key) (i : ℕ) (items : List TabItem) (t : TabItem)
    → All P items
    → handle_key_down key i items ≡ some t
    → P t
unfolding handle_key_down next_index
key-All P Key.arrow_right i items t h e = get-All P items _ t h e
key-All P Key.arrow_left i items t h e = get-All P items _ t h e
key-All P Key.other_key i items t h e = cc

pub target-All :
    (P : TabItem → Type 0) (e : TabEvent) (items : List TabItem) (t : TabItem)
    → All P items
    → target e items ≡ some t
    → P t
target-All P (clicks i) items t h e = get-All P items i t h e
target-All P (presses key i) items t h e = key-All P key i items t h e
