-- ===== src/Timing.antt =====
-- ceell/core/timing.c: a ring of timing samples with statistics by label.
-- The cycle counter is the operating system's: its reading is an argument. `samples_max` and `hz` are
-- `CONFIG_CEELL_TIMING_SAMPLES` and `CONFIG_SYS_CLOCK_HW_CYCLES_PER_SEC`. A label is a pointer that
-- may be NULL.
pub mod Store
pub mod Stats
mod Tests
use ceell.Prelude.{
  ℕ, zero, suc, ◌+◌, ◌-◌, ◌*◌, ◌/◌, ◌%◌, ◌^◌, Bool, true, false, ◌&&◌, Option, none, some, List, [],
  ◌∷◌, ◌++◌, if◌then◌else◌, ltb, ◌==◌, length, set, replicate,
}
use ceell.Bytes.{Bytes, str_eq, bytes_eq}

pub record TimingSample : Type 0 where
  pub label : Option Bytes
  pub start_cycle : ℕ
  pub end_cycle : ℕ
  pub duration_us : ℕ

pub record Timing : Type 0 where
  pub samples : List TimingSample
  pub sample_head : ℕ
  pub sample_count : ℕ
  pub initialized : Bool

pub record TimingStats : Type 0 where
  pub min_us : ℕ
  pub max_us : ℕ
  pub avg_us : ℕ
  pub count : ℕ

abbrev pub zero_sample : TimingSample
zero_sample = record { label = none; start_cycle = 0; end_cycle = 0; duration_us = 0 }

-- `s->label != NULL && strcmp(s->label, label) == 0`
abbrev pub has_label : Bytes → TimingSample → Bool
has_label label s = elim s.label [ none ↦ false | some l ↦ str_eq l label ]

-- The product is in `uint64_t`, the result in `uint32_t`.
unfoldable pub cycles_to_us : ℕ → ℕ → ℕ
cycles_to_us hz cycles = ((cycles * 1000000) % 2 ^ 64 / hz) % 2 ^ 32

-- The end minus the start, in `uint32_t`.
unfoldable pub cycle_diff : ℕ → ℕ → ℕ
cycle_diff end_cycle handle = (end_cycle + 2 ^ 32 - handle) % 2 ^ 32

pub record Acc : Type 0 where
  pub min_us : ℕ
  pub max_us : ℕ
  pub sum_us : ℕ
  pub count : ℕ

-- One sample of the label, in the loop of `ceell_timing_get_stats`.
pub add_sample : Acc → ℕ → Acc
add_sample a d = record {
  min_us = if ltb d a.min_us then d else a.min_us;
  max_us = if ltb a.max_us d then d else a.max_us;
  sum_us = (a.sum_us + d) % 2 ^ 64;
  count = (a.count + 1) % 2 ^ 32;
}

pub stats_loop : ℕ → List TimingSample → Bytes → Acc → Acc
stats_loop zero ss label a = a
stats_loop (suc n) [] label a = a
stats_loop (suc n) (s ∷ ss) label a =
    stats_loop n ss label (if has_label label s then add_sample a s.duration_us else a)

abbrev pub stats_start : Acc
stats_start = record { min_us = 2 ^ 32 - 1; max_us = 0; sum_us = 0; count = 0 }

-- `none` is the return of -1. `out` says whether the pointer for the result is there.
unfoldable pub timing_get_stats : Timing → Option Bytes → Bool → Option TimingStats
timing_get_stats t none out = none
timing_get_stats t (some label) false = none
timing_get_stats t (some label) true =
    let a = stats_loop t.sample_count t.samples label stats_start in
    let stats : TimingStats = record {
      min_us = a.min_us;
      max_us = a.max_us;
      avg_us = (a.sum_us / a.count) % 2 ^ 32;
      count = a.count;
    } in
    if t.initialized then (if a.count == 0 then none else some stats) else none

-- The inner loop of `ceell_timing_print_stats`.
pub label_seen : List Bytes → Bytes → Bool
label_seen [] l = false
label_seen (x ∷ xs) l = if str_eq x l then true else label_seen xs l

module _ (samples_max hz : ℕ) where
  unfoldable pub timing_init : Timing
  timing_init = record {
    samples = replicate samples_max zero_sample;
    sample_head = 0;
    sample_count = 0;
    initialized = true;
  }

  -- `end_cycle` is what the cycle counter shows.
  unfoldable pub timing_stop : Timing → Option Bytes → ℕ → ℕ → Timing
  timing_stop t none handle end_cycle = t
  timing_stop t (some label) handle end_cycle =
      let sample : TimingSample = record {
        label = some label;
        start_cycle = handle;
        end_cycle = end_cycle;
        duration_us = cycles_to_us hz (cycle_diff end_cycle handle);
      } in
      if t.initialized
      then record t {
        samples = set t.samples (t.sample_head % samples_max) sample;
        sample_head = (t.sample_head + 1) % samples_max;
        sample_count =
            if ltb t.sample_count samples_max then t.sample_count + 1 else t.sample_count;
      }
      else t

  -- The labels that `ceell_timing_print_stats` collects, in the order of the array.
  pub labels_loop : ℕ → List TimingSample → List Bytes → List Bytes
  labels_loop zero ss seen = seen
  labels_loop (suc n) [] seen = seen
  labels_loop (suc n) (s ∷ ss) seen = labels_loop n ss (note s.label)
    where
      note : Option Bytes → List Bytes
      note none = seen
      note (some l) =
          if label_seen seen l
          then seen
          else if ltb (length seen) samples_max
          then seen ++ (l ∷ [])
          else seen

  -- The lines that it prints: a label with its statistics, where there are any.
  pub print_lines : Timing → List Bytes → List (Bytes × TimingStats)
  print_lines t [] = []
  print_lines t (l ∷ ls) = elim (timing_get_stats t (some l) true) [
    | none ↦ print_lines t ls
    | some st ↦ (l, st) ∷ print_lines t ls
  ]

  unfoldable pub timing_print_stats : Timing → List (Bytes × TimingStats)
  unfolding label_seen labels_loop print_lines timing_get_stats
  timing_print_stats t =
      if t.initialized then print_lines t (labels_loop t.sample_count t.samples []) else []
