-- ===== src/Timing/Store.antt =====
-- What `ceell_timing_stop` stores: the ring keeps the newest samples, with the measured duration.
use ceell.Prelude.{
  ℕ, zero, suc, ◌+◌, ◌*◌, ◌/◌, ◌%◌, ◌^◌, ◌<◌, ◌≤◌, ◌≡◌, refl, true, Option, none, some, List, [],
  ◌∷◌, arith, length, take, set, replicate, All, length-set, length-replicate,
}
use ceell.Bytes.{Bytes}
use native.Mathlib.Nat.{mod-lt, mod-eq_of_lt, mul-le-mul_right, div-le_of_le-mul}
use ceell.Recent.{recent, recent-push}
use ceell.Timing.{
  TimingSample, Timing, zero_sample, cycles_to_us, cycle_diff, timing_init, timing_stop,
}

abbrev pub IsShort : TimingSample → Type 0
IsShort s = s.duration_us < 2 ^ 32

All-set :
    (ss : List TimingSample) (i : ℕ) (s : TimingSample)
    → All IsShort ss
    → IsShort s
    → All IsShort (set ss i s)
All-set [] i s h k = tt
All-set (x ∷ ss) zero s h k = (k, h.1)
All-set (x ∷ ss) (suc i) s h k = (h.0, All-set ss i s h.1 k)

All-zero : (n : ℕ) → All IsShort (replicate n zero_sample)
All-zero zero = tt
All-zero (suc n) = (omega arith, All-zero n)

cycles_to_us-lt : (hz c : ℕ) → cycles_to_us hz c < 2 ^ 32
unfolding cycles_to_us
cycles_to_us-lt hz c = omega arith

-- The counter may wrap between start and stop: the difference is the number of cycles that passed.
pub cycle_diff_wrap :
    (start passed : ℕ)
    → start < 2 ^ 32
    → passed < 2 ^ 32
    → cycle_diff ((start + passed) % 2 ^ 32) start ≡ passed
unfolding cycle_diff
cycle_diff_wrap start passed h k = omega arith

-- With a clock of at least 1 MHz the conversion loses no high bits.
pub cycles_to_us_exact :
    (hz c : ℕ) → 1000000 ≤ hz → c < 2 ^ 32 → cycles_to_us hz c ≡ c * 1000000 / hz
unfolding cycles_to_us
cycles_to_us_exact hz c h k =
    let small : c * 1000000 / hz ≤ c =
      div-le_of_le-mul hz (grind (arith, mul-le-mul_right {m = 1000000} {n = hz} c h)) in
    rw (mod-eq_of_lt {n = c * 1000000} {m = 2 ^ 64} (omega arith))
      (mod-eq_of_lt {n = c * 1000000 / hz} {m = 2 ^ 32} (omega arith))

module _ (samples_max hz : ℕ) where
  pub record IsValid (t : Timing) : Type 0 where
    pub size : length t.samples ≡ samples_max
    pub head_in : t.sample_head < samples_max
    pub count_in : t.sample_count ≤ samples_max
    pub short : All IsShort t.samples
    pub ready : t.initialized ≡ true

  -- The stored samples, newest first.
  abbrev pub history : Timing → List TimingSample
  history t = recent samples_max zero_sample t.samples t.sample_head t.sample_count

  -- With room for a sample, `ceell_timing_init` leaves a valid and empty store.
  pub timing_init-IsValid :
      0 < samples_max
      → IsValid (timing_init samples_max hz) × (history (timing_init samples_max hz) ≡ [])
  unfolding timing_init recent
  timing_init-IsValid h = (
    record {
      size = length-replicate samples_max zero_sample;
      head_in = h;
      count_in = omega arith;
      short = All-zero samples_max;
      ready = refl;
    },
    refl,
  )

  -- On a valid store, and with a cycle counter of 1 MHz or more, stopping a measurement that took `passed`
  -- cycles, fewer than 2 ^ 32, puts a sample with its label
  -- and its duration in microseconds before the others, keeps the newest `samples_max`, and keeps the
  -- ring valid. A NULL label changes nothing.
  pub timing_stop_lem :
      (t : Timing) (label : Bytes) (start passed : ℕ)
      → IsValid t
      → 1000000 ≤ hz
      → start < 2 ^ 32
      → passed < 2 ^ 32
      → let end_cycle = (start + passed) % 2 ^ 32 in
        let t' = timing_stop samples_max hz t (some label) start end_cycle in
        (history t'
          ≡ take samples_max (
              record {
                label = some label;
                start_cycle = start;
                end_cycle = end_cycle;
                duration_us = passed * 1000000 / hz;
              }
              ∷ history t))
        × IsValid t'
        × (timing_stop samples_max hz t none start end_cycle ≡ t)
  unfolding timing_stop
  timing_stop_lem t label start passed v hhz hs hp =
      let end_cycle = (start + passed) % 2 ^ 32 in
      let us = cycles_to_us hz (cycle_diff end_cycle start) in
      let sample : TimingSample = record {
        label = some label;
        start_cycle = start;
        end_cycle = end_cycle;
        duration_us = us;
      } in
      ground (
        arith,
        mod-eq_of_lt {n = t.sample_head} {m = samples_max} v.head_in,
        mod-lt (t.sample_head + 1) {m = samples_max} (omega arith),
        cycle_diff_wrap start passed hs hp,
        cycles_to_us_exact hz passed hhz hp,
        cycles_to_us-lt hz (cycle_diff end_cycle start),
        recent-push samples_max zero_sample t.samples sample t.sample_head t.sample_count v.size
            v.head_in v.count_in,
        length-set t.samples t.sample_head sample,
        All-set t.samples t.sample_head sample v.short,
      )

  -- Whatever the handle and the cycle counter are, a stop keeps the store valid.
  pub timing_stop-IsValid :
      (t : Timing) (label : Option Bytes) (start end_cycle : ℕ)
      → IsValid t
      → IsValid (timing_stop samples_max hz t label start end_cycle)
  unfolding timing_stop
  timing_stop-IsValid t none start end_cycle v = v
  timing_stop-IsValid t (some label) start end_cycle v =
      let sample : TimingSample = record {
        label = some label;
        start_cycle = start;
        end_cycle = end_cycle;
        duration_us = cycles_to_us hz (cycle_diff end_cycle start);
      } in
      ground (
        arith,
        mod-eq_of_lt {n = t.sample_head} {m = samples_max} v.head_in,
        mod-lt (t.sample_head + 1) {m = samples_max} (omega arith),
        cycles_to_us-lt hz (cycle_diff end_cycle start),
        length-set t.samples t.sample_head sample,
        All-set t.samples t.sample_head sample v.short,
      )
