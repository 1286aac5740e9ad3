-- ===== src/Budget/Tests.antt =====
-- Runs of ceell/core/timing_budget.c at one budget.
use ceell.Prelude.{true, ℕ, ◌≡◌, Option, replicate, refl, some, [], ◌∷◌, arith}
use ceell.Bytes.{Bytes, bytes_eq, cstr}
use ceell.Budget.{Budgets, zero_budget, find_budget, find_from, timing_budget_check}
use ceell.Budget.Find.{IsFirst}
use ceell.Budget.Check.{IsValid, Checked, timing_budget_check_lem}

abbrev send : Bytes
send = b's' ∷ b'e' ∷ b'n' ∷ b'd' ∷ 0 ∷ []

abbrev recv : Bytes
recv = b'r' ∷ b'e' ∷ b'c' ∷ b'v' ∷ []

-- Two budgets, of which "send" has been violated three times, twice in a row.
abbrev two : Budgets
two = record {
  budgets =
      record { label = some recv; budget_us = 500; violation_count = 0 }
      ∷ record { label = some send; budget_us = 100; violation_count = 3 }
      ∷ replicate 14 zero_budget;
  budget_count = 2;
  consecutive_violations = 0 ∷ 2 ∷ replicate 14 0;
  initialized = true;
}

two-IsValid : IsValid two
two-IsValid = record { size = refl; streaks = refl; count_in = omega arith; ready = refl }

timing_budget_check_lem_example :
    (found : Option ℕ) × IsFirst 2 two.budgets send found
    × Checked two send 150 found (timing_budget_check two (some send) 150)
    × IsValid (timing_budget_check two (some send) 150).1
timing_budget_check_lem_example = timing_budget_check_lem two send 150 two-IsValid

-- The budget that is found there.
found_send : find_budget two send ≡ some 1
unfolding find_budget find_from bytes_eq cstr
found_send = refl
