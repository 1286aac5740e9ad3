-- ===== src/Budget/Find.antt =====
-- Which budget `find_budget` finds: the first one whose label is the same text.
use ceell.Prelude.{
  ℕ, zero, suc, ◌+◌, ◌<◌, ◌≡◌, refl, ap, sym, subst, ◌∙◌, true, false, Option, none, some, List, [],
  ◌∷◌, arith, get_or, Bool-cases, inl, inr,
}
use ceell.Bytes.{Bytes, cstr, bytes_eq_iff}
use ceell.Budget.{TimingBudget, Budgets, zero_budget, is_labelled, find_from, find_budget}

abbrev pub Carries : Bytes → Option Bytes → Type 0
Carries label none = ⊥
Carries label (some l) = cstr l ≡ cstr label

-- The `k`th of the first `n` budgets is the first with the label, or none of them has it.
abbrev pub IsFirst : ℕ → List TimingBudget → Bytes → Option ℕ → Type 0
IsFirst n bs label none = (j : ℕ) → j < n → ¬ Carries label (get_or bs j zero_budget).label
IsFirst n bs label (some k) =
    (k < n)
    × Carries label (get_or bs k zero_budget).label
    × ((j : ℕ) → j < k → ¬ Carries label (get_or bs j zero_budget).label)

is_labelled-true :
    (label : Bytes) (o : Option Bytes) (u v : ℕ)
    → is_labelled label (record { label = o; budget_us = u; violation_count = v }) ≡ true
    → Carries label o
is_labelled-true label none u v e = cc
is_labelled-true label (some l) u v e = (bytes_eq_iff (cstr l) (cstr label)).0 e

is_labelled-false :
    (label : Bytes) (o : Option Bytes) (u v : ℕ)
    → is_labelled label (record { label = o; budget_us = u; violation_count = v }) ≡ false
    → ¬ Carries label o
is_labelled-false label none u v e h = h
is_labelled-false label (some l) u v e h = cc ((bytes_eq_iff (cstr l) (cstr label)).1 h, e)

-- The first budget that is not the one looked for shifts the others by one.
none_behind :
    (n : ℕ) (b : TimingBudget) (bs : List TimingBudget) (label : Bytes)
    → ¬ Carries label b.label
    → IsFirst n bs label none
    → IsFirst (suc n) (b ∷ bs) label none
none_behind n b bs label miss h zero lt = miss
none_behind n b bs label miss h (suc j) lt = h j (omega arith)

some_behind :
    (n k : ℕ) (b : TimingBudget) (bs : List TimingBudget) (label : Bytes)
    → ¬ Carries label b.label
    → IsFirst n bs label (some k)
    → IsFirst (suc n) (b ∷ bs) label (some (suc k))
some_behind n k b bs label miss (lt, here, before) = (omega arith, here, earlier)
  where
    earlier : (j : ℕ) → j < suc k → ¬ Carries label (get_or (b ∷ bs) j zero_budget).label
    earlier zero h = miss
    earlier (suc j) h = before j (omega arith)

abbrev shift : ℕ → Option ℕ → Option ℕ
shift i none = none
shift i (some k) = some (i + k)

find_from-IsFirst :
    (n : ℕ) (bs : List TimingBudget) (label : Bytes)
    → (o : Option ℕ) × IsFirst n bs label o × ((i : ℕ) → find_from n i bs label ≡ shift i o)
unfolding find_from
find_from-IsFirst zero bs label = (none, λ j h. absurd (omega arith), λ i. refl)
find_from-IsFirst (suc n) [] label = (none, λ j h c. c, λ i. refl)
find_from-IsFirst (suc n) (b ∷ bs) label = elim (Bool-cases (is_labelled label b)) [
  | inl hit ↦ (
    some 0,
    (
      omega arith,
      is_labelled-true label b.label b.budget_us b.violation_count hit,
      λ j h. absurd (omega arith),
    ),
    λ i. rw hit (ap some (omega arith)),
  )
  | inr miss ↦
      behind (is_labelled-false label b.label b.budget_us b.violation_count miss) miss
        (find_from-IsFirst n bs label)
]
  where
    behind :
        ¬ Carries label b.label
        → is_labelled label b ≡ false
        → ((o : Option ℕ) × IsFirst n bs label o × ((i : ℕ) → find_from n i bs label ≡ shift i o))
        → (o : Option ℕ) × IsFirst (suc n) (b ∷ bs) label o
          × ((i : ℕ) → find_from (suc n) i (b ∷ bs) label ≡ shift i o)
    behind other miss (none, first, f) =
        (none, none_behind n b bs label other first, λ i. rw miss (f (i + 1)))
    behind other miss (some k, first, f) = (
      some (suc k),
      some_behind n k b bs label other first,
      λ i. rw miss (f (i + 1) ∙ ap some (omega arith)),
    )

unshifted : (o : Option ℕ) → shift 0 o ≡ o
unshifted none = refl
unshifted (some k) = ap some (omega arith)

pub find_budget-IsFirst :
    (s : Budgets) (label : Bytes) → IsFirst s.budget_count s.budgets label (find_budget s label)
unfolding find_budget
find_budget-IsFirst s label =
    let (o, first, f) = find_from-IsFirst s.budget_count s.budgets label in
    subst (IsFirst s.budget_count s.budgets label) (sym (f 0 ∙ unshifted o)) first
