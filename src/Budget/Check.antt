-- ===== src/Budget/Check.antt =====
-- What a check answers and counts, and how it goes with a definition.
use native.Mathlib.Numerals.{add-one}
use ceell.Prelude.{
  dec_lt, ℕ, zero, suc, ◌+◌, ◌%◌, ◌^◌, ◌<◌, ◌≤◌, ◌≡◌, ◌≢◌, refl, sym, ap, ◌∙◌, ◌⊎◌, inl, inr, true,
  false, Option, none, some, List, [], ◌∷◌, arith, length, get_or, set, length-set, if◌then◌else◌,
  leb, ◌==◌, Bool-cases, get_or-set_self, get_or-set_ne,
}
use ceell.Errno.{Ret, ok, err, minus_one}
use ceell.Bytes.{Bytes, cstr, bytes_eq_refl}
use ceell.Budget.Find.{IsFirst, find_budget-IsFirst}
use ceell.Budget.{
  TimingBudget, Budgets, timing_budget_max, zero_budget, is_labelled, find_from, find_budget,
  ensure_init, define_at, check_at, timing_budget_define, timing_budget_check,
}

pub record IsValid (s : Budgets) : Type 0 where
  pub size : length s.budgets ≡ timing_budget_max
  pub streaks : length s.consecutive_violations ≡ timing_budget_max
  pub count_in : s.budget_count ≤ timing_budget_max
  pub ready : s.initialized ≡ true

-- The entry that is found has the label, and stands among the first `n`.
find_from-some :
    (n i : ℕ) (bs : List TimingBudget) (label : Bytes) (idx : ℕ)
    → find_from n i bs label ≡ some idx
    → (j : ℕ) × (idx ≡ i + j) × (j < n) × (is_labelled label (get_or bs j zero_budget) ≡ true)
unfolding find_from
find_from-some zero i bs label idx e = cc
find_from-some (suc n) i [] label idx e = cc
find_from-some (suc n) i (b ∷ bs) label idx e = elim (Bool-cases (is_labelled label b)) [
  | inl hit ↦ (0, ground (arith, e), omega arith, hit)
  | inr miss ↦
      let (j, q, lt, l) = find_from-some n (i + 1) bs label idx (ground (arith, e)) in
      (suc j, omega arith, omega arith, l)
]

-- Writing an entry that keeps its label changes no search.
find_from-set :
    (n i k : ℕ) (bs : List TimingBudget) (label : Bytes) (b : TimingBudget)
    → b.label ≡ (get_or bs k zero_budget).label
    → find_from n i (set bs k b) label ≡ find_from n i bs label
unfolding find_from
find_from-set zero i k bs label b e = refl
find_from-set (suc n) i k [] label b e = refl
find_from-set (suc n) i zero (x ∷ bs) label b e = ground (arith, e)
find_from-set (suc n) i (suc k) (x ∷ bs) label b e =
    rw (find_from-set n (i + 1) k bs label b e) refl

-- A label that is not found is found once it is written behind the others.
find_from-new :
    (n i : ℕ) (bs : List TimingBudget) (label : Bytes) (b : TimingBudget)
    → find_from n i bs label ≡ none
    → n < length bs
    → is_labelled label b ≡ true
    → find_from (suc n) i (set bs n b) label ≡ some (i + n)
unfolding find_from
find_from-new zero i [] label b e h l = absurd (omega arith)
find_from-new zero i (x ∷ bs) label b e h l = rw l (ap some (omega arith))
find_from-new (suc n) i [] label b e h l = absurd (omega arith)
find_from-new (suc n) i (x ∷ bs) label b e h l = ground (arith, find_from-new n (i + 1) bs label b)

-- What a check on a valid table answers, counts and leaves alone.
abbrev pub Checked : Budgets → Bytes → ℕ → Option ℕ → Ret × Budgets → Type 0
Checked s label actual_us none (ret, s') = (ret ≡ err minus_one) × (s' ≡ s)
Checked s label actual_us (some k) (ret, s') =
    let b = get_or s.budgets k zero_budget in
    let b' = get_or s'.budgets k zero_budget in
    let c = get_or s.consecutive_violations k 0 in
    let c' = get_or s'.consecutive_violations k 0 in
    (((b.budget_us < actual_us)
        × (ret ≡ err minus_one)
        × (b'.violation_count ≡ (b.violation_count + 1) % 2 ^ 32)
        × (c' ≡ (c + 1) % 2 ^ 32))
      ⊎ ((actual_us ≤ b.budget_us)
          × (ret ≡ ok)
          × (b'.violation_count ≡ b.violation_count)
          × (c' ≡ 0)))
    × ((j : ℕ)
        → j ≢ k
        → (get_or s'.budgets j zero_budget ≡ get_or s.budgets j zero_budget)
          × (get_or s'.consecutive_violations j 0 ≡ get_or s.consecutive_violations j 0))
    × (b'.budget_us ≡ b.budget_us)
    × (b'.label ≡ b.label)

check_at-Checked :
    (s : Budgets) (label : Bytes) (actual_us : ℕ) (found : Option ℕ)
    → IsValid s
    → find_budget s label ≡ found
    → Checked s label actual_us found (check_at s found actual_us)
      × IsValid (check_at s found actual_us).1
unfolding check_at find_budget
check_at-Checked s label actual_us none v e = ((refl, refl), v)
check_at-Checked s label actual_us (some k) v e =
    let (j, q, lt, l) = find_from-some s.budget_count 0 s.budgets label k e in
    let b = get_or s.budgets k zero_budget in
    let b' : TimingBudget = record b { violation_count = (b.violation_count + 1) % 2 ^ 32 } in
    let c = get_or s.consecutive_violations k 0 in
    let c' = (c + 1) % 2 ^ 32 in
    let room : k < timing_budget_max = omega (arith, v.count_in, q, lt) in
    let self = get_or-set_self s.budgets k b' zero_budget (omega (arith, v.size, room)) in
    let streak = get_or-set_self s.consecutive_violations k c' 0 (omega (arith, v.streaks, room)) in
    let reset = get_or-set_self s.consecutive_violations k 0 0 (omega (arith, v.streaks, room)) in
    (
      (
        ground (arith, self, streak, reset),
        λ i ne. other i (λ h. ne (sym h)),
        ground (arith, self),
        ground (arith, self),
      ),
      ground (
        arith,
        length-set s.budgets k b',
        length-set s.consecutive_violations k c',
        length-set s.consecutive_violations k 0,
      ),
    )
  where
    other :
        (i : ℕ)
        → k ≢ i
        → (get_or (check_at s (some k) actual_us).1.budgets i zero_budget
            ≡ get_or s.budgets i zero_budget)
          × (get_or (check_at s (some k) actual_us).1.consecutive_violations i 0
              ≡ get_or s.consecutive_violations i 0)
    other i ne =
        let b = get_or s.budgets k zero_budget in
        let b' : TimingBudget = record b { violation_count = (b.violation_count + 1) % 2 ^ 32 } in
        let c' = (get_or s.consecutive_violations k 0 + 1) % 2 ^ 32 in
        ground (
          arith,
          get_or-set_ne s.budgets {i = k} {j = i} b' zero_budget ne,
          get_or-set_ne s.consecutive_violations {i = k} {j = i} c' 0 ne,
          get_or-set_ne s.consecutive_violations {i = k} {j = i} 0 0 ne,
        )

ensure_init_id : (s : Budgets) → IsValid s → ensure_init s ≡ s
unfolding ensure_init
ensure_init_id s v = ground (arith, v.ready)

-- On a valid table a check looks for the first budget whose label is the same text. Without one it
-- returns -1 and changes nothing. Above that budget it returns -1 and counts one violation and one more
-- in a row; within it it returns 0 and ends the row. No other budget is touched, no budget is changed,
-- and the table stays valid.
pub timing_budget_check_lem :
    (s : Budgets) (label : Bytes) (actual_us : ℕ)
    → IsValid s
    → (found : Option ℕ) × IsFirst s.budget_count s.budgets label found
      × Checked s label actual_us found (timing_budget_check s (some label) actual_us)
      × IsValid (timing_budget_check s (some label) actual_us).1
unfolding timing_budget_check
timing_budget_check_lem s label actual_us v =
    let c = check_at-Checked s label actual_us (find_budget s label) v refl in
    (
      find_budget s label,
      find_budget-IsFirst s label,
      rw (ensure_init_id s v) c.0,
      rw (ensure_init_id s v) c.1,
    )

define_at-lem :
    (s : Budgets) (label : Bytes) (budget_us : ℕ) (found : Option ℕ)
    → IsValid s
    → find_budget s label ≡ found
    → (define_at s found label budget_us).0 ≡ ok
    → let s' = (define_at s found label budget_us).1 in
      IsValid s'
      × (k : ℕ) × (find_budget s' label ≡ some k)
      × ((get_or s'.budgets k zero_budget).budget_us ≡ budget_us)
unfolding define_at find_budget
define_at-lem s label budget_us (some k) v e h =
    let (j, q, lt, l) = find_from-some s.budget_count 0 s.budgets label k e in
    let b : TimingBudget = record (get_or s.budgets k zero_budget) { budget_us = budget_us } in
    (
      ground (arith, length-set s.budgets k b),
      k,
      find_from-set s.budget_count 0 k s.budgets label b refl ∙ e,
      ap (λ (t : TimingBudget). t.budget_us)
          (get_or-set_self s.budgets k b zero_budget (omega (arith, v.size, v.count_in, q, lt))),
    )
define_at-lem s label budget_us none v e h = elim (dec_lt s.budget_count timing_budget_max) [
  | no full ↦ absurd (full_refused full)
  | yes room ↦
      let b : TimingBudget = record {
        label = some label;
        budget_us = budget_us;
        violation_count = 0;
      } in
      rw (room_test s.budget_count timing_budget_max room) (
        ground (
          arith,
          length-set s.budgets s.budget_count b,
          length-set s.consecutive_violations s.budget_count 0,
        ),
        s.budget_count,
        rw add-one (
            find_from-new s.budget_count 0 s.budgets label b e (omega (arith, v.size, room))
              (bytes_eq_refl (cstr label))
            ∙ ap some (omega arith)),
        ap (λ (t : TimingBudget). t.budget_us)
            (get_or-set_self s.budgets s.budget_count b zero_budget (omega (arith, v.size, room))),
      )
]
  where
    room_test : (a b : ℕ) → a < b → leb b a ≡ false
    room_test a b h = ground arith

    full_refused : ¬ (s.budget_count < timing_budget_max) → ⊥
    full_refused full = ground (arith, h)

define_eq :
    (s : Budgets) (label : Bytes) (budget_us : ℕ)
    → IsValid s
    → timing_budget_define s (some label) budget_us ≡ (
        if budget_us == 0
        then (err minus_one, s)
        else define_at s (find_budget s label) label budget_us)
unfolding timing_budget_define
define_eq s label budget_us v = rw (ensure_init_id s v) refl

check_eq :
    (s : Budgets) (label : Bytes) (actual_us : ℕ)
    → IsValid s
    → timing_budget_check s (some label) actual_us ≡ check_at s (find_budget s label) actual_us
unfolding timing_budget_check
check_eq s label actual_us v = rw (ensure_init_id s v) refl

check_found :
    (s : Budgets) (label : Bytes) (k budget_us actual_us : ℕ)
    → IsValid s
    → find_budget s label ≡ some k
    → (get_or s.budgets k zero_budget).budget_us ≡ budget_us
    → (timing_budget_check s (some label) actual_us).0
      ≡ (if leb actual_us budget_us then ok else err minus_one)
unfolding check_at
check_found s label k budget_us actual_us v e b =
    rw (check_eq s label actual_us v, e) (ground (arith, b))

-- After a definition that returns 0, a check of the label succeeds exactly up to the budget that was
-- given, whether the label was new or had a budget already.
pub check-define :
    (s : Budgets) (label : Bytes) (budget_us actual_us : ℕ)
    → IsValid s
    → (timing_budget_define s (some label) budget_us).0 ≡ ok
    → (timing_budget_check
        (timing_budget_define s (some label) budget_us).1
        (some label)
        actual_us).0
      ≡ (if leb actual_us budget_us then ok else err minus_one)
check-define s label budget_us actual_us v h = elim (Bool-cases (budget_us == 0)) [
  | inl e ↦ absurd (refused e)
  | inr e ↦
      let d = define_eq s label budget_us v ∙ rw e refl in
      let found =
        define_at-lem s label budget_us (find_budget s label) v refl
          (ap (λ (p : Ret × Budgets). p.0) (sym d) ∙ h) in
      rw d (
        check_found (define_at s (find_budget s label) label budget_us).1 label found.1 budget_us
          actual_us found.0 found.2 found.3)
]
  where
    refused : (budget_us == 0) ≡ true → ⊥
    refused e = cc (ap (λ (p : Ret × Budgets). p.0) (define_eq s label budget_us v), h, e)
