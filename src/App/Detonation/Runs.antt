-- ===== src/App/Detonation/Runs.antt =====
-- How many of the uploads of frontend/src/components/UploadPanel.tsx belong to a mount of the panel.
use mirraura.Base.{
  ℕ, suc, ◌==◌, ◌-◌, ◌<◌, ◌≤◌, true, false, List, [], ◌∷◌, elem, elem-cons, ◌≡◌, refl, arith,
  if◌then◌else◌,
}
use mirraura.App.Dashboard.{remove_one}

abbrev pub count : ℕ → List ℕ → ℕ
count k [] = 0
count k (n ∷ ns) = let rest = count k ns in if k == n then suc rest else rest

pub count-remove_one : (k : ℕ) (ns : List ℕ) → count k (remove_one k ns) ≡ count k ns - 1
count-remove_one k [] = omega arith
count-remove_one k (n ∷ ns) = ground (arith, count-remove_one k ns)

pub count-remove_one_other :
    (j k : ℕ) (ns : List ℕ) → j == k ≡ false → count j (remove_one k ns) ≡ count j ns
count-remove_one_other j k [] d = refl
count-remove_one_other j k (n ∷ ns) d = ground (arith, count-remove_one_other j k ns d)

pub count-remove_one_le : (j k : ℕ) (ns : List ℕ) → count j (remove_one k ns) ≤ count j ns
count-remove_one_le j k [] = omega arith
count-remove_one_le j k (n ∷ ns) = ground (arith, count-remove_one_le j k ns)

pub elem-count : (k : ℕ) (ns : List ℕ) → elem k ns ≡ false → count k ns ≡ 0
elem-count k [] e = refl
elem-count k (n ∷ ns) e = ground (arith, elem-cons k n ns, elem-count k ns)

pub count_some : (k : ℕ) (ns : List ℕ) → elem k ns ≡ true → 0 < count k ns
unfolding elem
count_some k [] e = cc
count_some k (n ∷ ns) e = ground (arith, elem-cons k n ns, count_some k ns)
