-- ===== src/Timing/Stats.antt =====
-- What `ceell_timing_get_stats` computes: minimum, maximum, average and count of the samples of one
-- label.
use ceell.Prelude.{
  ap₂, ◌∙◌, ◌/◌, ◌%◌, ℕ, zero, suc, ◌+◌, ◌-◌, ◌*◌, ◌/◌, ◌%◌, ◌^◌, ◌<◌, ◌≤◌, ◌≡◌, refl, ◌∙◌, ◌⊎◌,
  inl, inr, Bool, true, false, ◌||◌, Option, none, some, List, [], ◌∷◌, arith, length, All,
  if◌then◌else◌, ◌==◌, Bool-cases,
}
use native.Mathlib.Nat.{mod-eq_of_lt, div-le_of_le-mul}
use ceell.Bytes.{Bytes}
use ceell.Timing.{
  TimingSample, Timing, TimingStats, Acc, has_label, add_sample, stats_loop, stats_start,
  timing_get_stats,
}
use ceell.Timing.Store.{IsShort, IsValid}

-- The durations of the label among the first `n` samples of the array.
pub durations : ℕ → List TimingSample → Bytes → List ℕ
durations zero ss label = []
durations (suc n) [] label = []
durations (suc n) (s ∷ ss) label =
    let rest = durations n ss label in if has_label label s then s.duration_us ∷ rest else rest

pub sum : List ℕ → ℕ
sum [] = 0
sum (d ∷ ds) = d + sum ds

pub is_one_of : ℕ → List ℕ → Bool
is_one_of x [] = false
is_one_of x (d ∷ ds) = (x == d) || is_one_of x ds

-- The statistics of a list of durations.
pub record IsStats (ds : List ℕ) (st : TimingStats) : Type 0 where
  pub lower : All (λ d. st.min_us ≤ d) ds
  pub upper : All (λ d. d ≤ st.max_us) ds
  pub min_taken : is_one_of st.min_us ds ≡ true
  pub max_taken : is_one_of st.max_us ds ≡ true
  pub average : st.avg_us ≡ sum ds / length ds
  pub counted : st.count ≡ length ds

fold_durations : List ℕ → Acc → Acc
fold_durations [] a = a
fold_durations (d ∷ ds) a = fold_durations ds (add_sample a d)

stats_loop-fold :
    (n : ℕ) (ss : List TimingSample) (label : Bytes) (a : Acc)
    → stats_loop n ss label a ≡ fold_durations (durations n ss label) a
unfolding stats_loop durations fold_durations
stats_loop-fold zero ss label a = refl
stats_loop-fold (suc n) [] label a = refl
stats_loop-fold (suc n) (s ∷ ss) label a = elim (Bool-cases (has_label label s)) [
  | inl e ↦ rw e (stats_loop-fold n ss label (add_sample a s.duration_us))
  | inr e ↦ rw e (stats_loop-fold n ss label a)
]

-- What the loop makes of `ds`, started at `a`, while neither sum nor count wraps.
record Folded (ds : List ℕ) (a r : Acc) : Type 0 where
  min_le : r.min_us ≤ a.min_us
  lower : All (λ d. r.min_us ≤ d) ds
  min_taken : (r.min_us ≡ a.min_us) ⊎ (is_one_of r.min_us ds ≡ true)
  max_ge : a.max_us ≤ r.max_us
  upper : All (λ d. d ≤ r.max_us) ds
  max_taken : (r.max_us ≡ a.max_us) ⊎ (is_one_of r.max_us ds ≡ true)
  total : r.sum_us ≡ a.sum_us + sum ds
  counted : r.count ≡ a.count + length ds

fold-Folded :
    (ds : List ℕ) (a : Acc)
    → a.sum_us + sum ds < 2 ^ 64
    → a.count + length ds < 2 ^ 32
    → Folded ds a (fold_durations ds a)
unfolding fold_durations sum is_one_of add_sample
fold-Folded [] a hs hc = record {
  min_le = omega arith;
  lower = tt;
  min_taken = inl refl;
  max_ge = omega arith;
  upper = tt;
  max_taken = inl refl;
  total = omega arith;
  counted = omega arith;
}
fold-Folded (d ∷ ds) a hs hc =
    let ih = fold-Folded ds (add_sample a d) (omega arith) (omega arith) in
    record {
      min_le = ground (arith, ih.min_le);
      lower = (ground (arith, ih.min_le), ih.lower);
      min_taken = ground (arith, ih.min_taken);
      max_ge = ground (arith, ih.max_ge);
      upper = (ground (arith, ih.max_ge), ih.upper);
      max_taken = ground (arith, ih.max_taken);
      total = omega (arith, ih.total);
      counted = omega (arith, ih.counted);
    }

abbrev AreShort : List ℕ → Type 0
AreShort ds = All (λ d. d < 2 ^ 32) ds

durations-AreShort :
    (n : ℕ) (ss : List TimingSample) (label : Bytes)
    → All IsShort ss
    → AreShort (durations n ss label)
unfolding durations
durations-AreShort zero ss label h = tt
durations-AreShort (suc n) [] label h = tt
durations-AreShort (suc n) (s ∷ ss) label h = ground (arith, durations-AreShort n ss label h.1)

length-durations-le :
    (n : ℕ) (ss : List TimingSample) (label : Bytes) → length (durations n ss label) ≤ n
unfolding durations
length-durations-le zero ss label = omega arith
length-durations-le (suc n) [] label = omega arith
length-durations-le (suc n) (s ∷ ss) label = ground (arith, length-durations-le n ss label)

sum-le : (ds : List ℕ) → AreShort ds → sum ds ≤ length ds * (2 ^ 32 - 1)
unfolding sum
sum-le [] h = omega arith
sum-le (d ∷ ds) h = omega (arith, sum-le ds h.1)

-- Where the loop runs over a list that is not empty, its extremes are taken.
taken_min :
    (d : ℕ) (ds : List ℕ) (r : Acc)
    → AreShort (d ∷ ds)
    → Folded (d ∷ ds) stats_start r
    → is_one_of r.min_us (d ∷ ds) ≡ true
unfolding is_one_of
taken_min d ds r h f = ground (arith, f.min_taken, f.lower)

taken_max :
    (d : ℕ) (ds : List ℕ) (r : Acc)
    → Folded (d ∷ ds) stats_start r
    → is_one_of r.max_us (d ∷ ds) ≡ true
unfolding is_one_of
taken_max d ds r f = ground (arith, f.max_taken, f.upper)

-- The answer for a list of durations: -1 exactly if there is none.
abbrev pub Answer : List ℕ → Option TimingStats → Type 0
Answer ds none = ds ≡ []
Answer ds (some st) = IsStats ds st

abbrev close : Acc → Option TimingStats
close a =
    let st : TimingStats = record {
      min_us = a.min_us;
      max_us = a.max_us;
      avg_us = (a.sum_us / a.count) % 2 ^ 32;
      count = a.count;
    } in
    if a.count == 0 then none else some st

close-Answer :
    (ds : List ℕ) (r : Acc)
    → AreShort ds
    → length ds < 2 ^ 32
    → Folded ds stats_start r
    → Answer ds (close r)
close-Answer [] r h l f = rw f.counted refl
close-Answer (d ∷ ds) r h l f =
    let e : r.count ≡ suc (length ds) = omega (arith, f.counted) in
    let test : (r.count == 0) ≡ false = ground (arith, e) in
    let mean : r.sum_us / r.count ≤ 2 ^ 32 - 1 =
      div-le_of_le-mul r.count (grind (arith, sum-le (d ∷ ds) h, e, f.total)) in
    rw test (record {
      lower = f.lower;
      upper = f.upper;
      min_taken = taken_min d ds r h f;
      max_taken = taken_max d ds r f;
      average =
          mod-eq_of_lt {n = r.sum_us / r.count} {m = 2 ^ 32} (omega (arith, mean))
          ∙ ap₂ ◌/◌ (omega (arith, f.total)) e;
      counted = e;
    })

-- On a valid store of fewer than 2 ^ 32 slots `ceell_timing_get_stats` returns -1 exactly if no sample
-- stored has the label, and else the least, the greatest and the average of their durations, and their
-- number.
pub timing_get_stats_lem :
    (samples_max hz : ℕ) (t : Timing) (label : Bytes)
    → IsValid samples_max hz t
    → samples_max < 2 ^ 32
    → Answer (durations t.sample_count t.samples label) (timing_get_stats t (some label) true)
unfolding timing_get_stats
timing_get_stats_lem samples_max hz t label v h =
    let ds = durations t.sample_count t.samples label in
    let short = durations-AreShort t.sample_count t.samples label v.short in
    let len = length-durations-le t.sample_count t.samples label in
    rw v.ready (
      close-Answer ds (stats_loop t.sample_count t.samples label stats_start) short
        (omega (arith, len, v.count_in))
        (rw (← stats_loop-fold t.sample_count t.samples label stats_start) at (
          fold-Folded ds stats_start (omega (arith, sum-le ds short, len, v.count_in))
            (omega (arith, len, v.count_in)))))
