-- ===== src/Budget.antt =====
-- ceell/core/timing_budget.c: budgets by label, with counts of violations.
-- A label is a pointer that may be NULL; the two arrays have `CEELL_TIMING_BUDGET_MAX` entries.
pub mod Find
pub mod Check
mod Tests
use ceell.Prelude.{
  ℕ, zero, suc, ◌+◌, ◌%◌, ◌^◌, Bool, true, false, Option, none, some, List, [], ◌∷◌, if◌then◌else◌,
  ltb, leb, ◌==◌, get_or, set, replicate,
}
use ceell.Errno.{Ret, ok, err, minus_one}
use ceell.Bytes.{Bytes, str_eq, bytes_eq}

abbrev pub timing_budget_max : ℕ
timing_budget_max = 16

-- `struct ceell_timing_budget`
pub record TimingBudget : Type 0 where
  pub label : Option Bytes
  pub budget_us : ℕ
  pub violation_count : ℕ

pub record Budgets : Type 0 where
  pub budgets : List TimingBudget
  pub budget_count : ℕ
  pub consecutive_violations : List ℕ
  pub initialized : Bool

abbrev pub zero_budget : TimingBudget
zero_budget = record { label = none; budget_us = 0; violation_count = 0 }

abbrev pub cleared : Budgets
cleared = record {
  budgets = replicate timing_budget_max zero_budget;
  budget_count = 0;
  consecutive_violations = replicate timing_budget_max 0;
  initialized = true;
}

unfoldable pub ensure_init : Budgets → Budgets
ensure_init s = if s.initialized then s else cleared

abbrev pub is_labelled : Bytes → TimingBudget → Bool
is_labelled label b = elim b.label [ none ↦ false | some l ↦ str_eq l label ]

-- The index of the first of the `n` budgets with the label; -1 is `none`.
pub find_from : ℕ → ℕ → List TimingBudget → Bytes → Option ℕ
find_from zero i bs label = none
find_from (suc n) i [] label = none
find_from (suc n) i (b ∷ bs) label =
    if is_labelled label b then some i else find_from n (i + 1) bs label

unfoldable pub find_budget : Budgets → Bytes → Option ℕ
unfolding find_from
find_budget s label = find_from s.budget_count 0 s.budgets label

-- `ceell_timing_budget_define` with the index that `find_budget` gave.
unfoldable pub define_at : Budgets → Option ℕ → Bytes → ℕ → Ret × Budgets
define_at s (some idx) label budget_us = (
  ok,
  record s {
    budgets =
        set s.budgets idx (record (get_or s.budgets idx zero_budget) { budget_us = budget_us });
  },
)
define_at s none label budget_us =
    if leb timing_budget_max s.budget_count then (err minus_one, s) else (
      ok,
      record s {
        budgets =
            set s.budgets s.budget_count
              (record { label = some label; budget_us = budget_us; violation_count = 0 });
        consecutive_violations = set s.consecutive_violations s.budget_count 0;
        budget_count = s.budget_count + 1;
      },
    )

unfoldable pub timing_budget_define : Budgets → Option Bytes → ℕ → Ret × Budgets
timing_budget_define s none budget_us = (err minus_one, s)
timing_budget_define s (some label) budget_us =
    let s' = ensure_init s in
    if budget_us == 0
    then (err minus_one, s)
    else define_at s' (find_budget s' label) label budget_us

-- `ceell_timing_budget_check` with the index that `find_budget` gave.
unfoldable pub check_at : Budgets → Option ℕ → ℕ → Ret × Budgets
check_at s none actual_us = (err minus_one, s)
check_at s (some idx) actual_us =
    let b = get_or s.budgets idx zero_budget in
    let c = get_or s.consecutive_violations idx 0 in
    if ltb b.budget_us actual_us
    then (
      err minus_one,
      record s {
        budgets =
            set s.budgets idx (record b { violation_count = (b.violation_count + 1) % 2 ^ 32 });
        consecutive_violations = set s.consecutive_violations idx ((c + 1) % 2 ^ 32);
      },
    )
    else (ok, record s { consecutive_violations = set s.consecutive_violations idx 0 })

unfoldable pub timing_budget_check : Budgets → Option Bytes → ℕ → Ret × Budgets
timing_budget_check s none actual_us = (err minus_one, s)
timing_budget_check s (some label) actual_us =
    let s' = ensure_init s in check_at s' (find_budget s' label) actual_us

-- The rows that `ceell_timing_budget_report` prints: label, budget, violations.
pub report_rows : ℕ → List TimingBudget → List (Option Bytes × ℕ × ℕ)
report_rows zero bs = []
report_rows (suc n) [] = []
report_rows (suc n) (b ∷ bs) = (b.label, b.budget_us, b.violation_count) ∷ report_rows n bs

unfoldable pub timing_budget_report : Budgets → List (Option Bytes × ℕ × ℕ) × Budgets
unfolding ensure_init report_rows
timing_budget_report s = let s' = ensure_init s in (report_rows s'.budget_count s'.budgets, s')
