-- ===== src/Recent.antt =====
-- The ring arrays of ceell/core/timing.c and ceell/network/msg_redundancy.c, read from the newest
-- entry back. Both write at `head`, move `head` on modulo the size, and count up to the size.
use native.Mathlib.Nat.{mod-add-mod, mod-eq_of_lt, mod-eq-sub-mod, mod-lt}
use ceell.Prelude.{
  ℕ, zero, suc, ◌+◌, ◌-◌, ◌%◌, ◌<◌, ◌≤◌, ◌≡◌, ◌≢◌, refl, ap, ap₂, ◌∙◌, sym, List, [], ◌∷◌, arith,
  length, get_or, set, take_all, take, get_or-set_self, get_or-set_ne, dec_lt, if◌then◌else◌, ltb,
}

-- The index before `h`.
abbrev pub prev : ℕ → ℕ → ℕ
prev size h = (h + size - 1) % size

module _ {ℓ} {A : Type ℓ} (size : ℕ) (d : A) where
  -- The `n` entries before `h`, newest first.
  unfoldable pub recent : List A → ℕ → ℕ → List A
  recent buf h zero = []
  recent buf h (suc n) = get_or buf (prev size h) d ∷ recent buf (prev size h) n

  pub length-recent : (buf : List A) (h n : ℕ) → length (recent buf h n) ≡ n
  unfolding recent
  length-recent buf h zero = refl
  length-recent buf h (suc n) = ap suc (length-recent buf (prev size h) n)

  pub take-recent : (buf : List A) (h n k : ℕ) → n ≤ k → take n (recent buf h k) ≡ recent buf h n
  unfolding recent
  take-recent buf h zero k le = refl
  take-recent buf h (suc n) zero le = absurd (omega arith)
  take-recent buf h (suc n) (suc k) le =
      ap (◌∷◌ (get_or buf (prev size h) d)) (take-recent buf (prev size h) n k (omega arith))

prev-lt : (size h : ℕ) → 0 < size → prev size h < size
prev-lt size h p = mod-lt (h + size - 1) p

mod_step_ne : (size h k : ℕ) → h < size → 0 < k → k < size → (h + k) % size ≢ h
mod_step_ne size h k hh k0 kk = elim (dec_lt (h + k) size) [
  | yes p ↦ omega (arith, mod-eq_of_lt {n = h + k} {m = size} p)
  | no p ↦ omega (
    arith,
    mod-eq-sub-mod {n = h + k} {m = size} (omega arith),
    mod-eq_of_lt {n = h + k - size} {m = size} (omega arith),
  )
]

-- Going back one step and on by one more ends at the same place.
prev_add : (size h e : ℕ) → 0 < size → h < size → (prev size h + suc e) % size ≡ (h + e) % size
prev_add size h e p hh =
    mod-add-mod (h + size - 1) size (suc e)
    ∙ ap (λ t. t % size) {x = h + size - 1 + suc e} {y = h + e + size} (omega arith)
    ∙ mod-eq-sub-mod {n = h + e + size} {m = size} (omega arith)
    ∙ ap (λ t. t % size) (omega arith)

prev_next : (size h : ℕ) → h < size → prev size ((h + 1) % size) ≡ h
prev_next size h hh = elim (dec_lt (h + 1) size) [
  | yes p ↦ rw (mod-eq_of_lt p) (
      mod-eq-sub-mod {n = h + 1 + size - 1} {m = size} (omega arith)
      ∙ mod-eq_of_lt {n = h + 1 + size - 1 - size} {m = size} (omega arith)
      ∙ omega arith)
  | no p ↦ rw (wraps p) (mod-eq_of_lt {n = 0 + size - 1} {m = size} (omega arith) ∙ omega arith)
]
  where
    wraps : ¬ (h + 1 < size) → (h + 1) % size ≡ 0
    wraps p = omega (
      arith,
      mod-eq-sub-mod {n = h + 1} {m = size} (omega arith),
      mod-eq_of_lt {n = h + 1 - size} {m = size} (omega arith),
    )

module _ {ℓ} {A : Type ℓ} (size : ℕ) (d : A) where
  recent-set_far :
      (buf : List A) (x : A) (n h e i : ℕ)
      → h < size
      → e + n < size
      → i ≡ (h + e) % size
      → recent size d (set buf i x) h n ≡ recent size d buf h n
  unfolding recent
  recent-set_far buf x zero h e i hh he eq = refl
  recent-set_far buf x (suc n) h e i hh he eq =
      let h' = prev size h in
      let back : i ≡ (h' + suc e) % size = eq ∙ sym (prev_add size h e (omega arith) hh) in
      let lt : h' < size = prev-lt size h (omega arith) in
      ap₂ ◌∷◌
        (get_or-set_ne buf x d
          (λ q. mod_step_ne size h' (suc e) lt (omega arith) (omega arith) (sym back ∙ q)))
        (recent-set_far buf x n h' (suc e) i lt (omega arith) back)

  -- The entries once `x` is written and `head` has moved, where `m` older ones are kept.
  recent-set_head :
      (buf : List A) (x : A) (head m : ℕ)
      → length buf ≡ size
      → head < size
      → m < size
      → recent size d (set buf head x) ((head + 1) % size) (suc m) ≡ x ∷ recent size d buf head m
  unfolding recent
  recent-set_head buf x head m l hh hm = rw (prev_next size head hh) (
      ap₂ ◌∷◌ (get_or-set_self buf head x d (omega arith)) (
        recent-set_far buf x m head 0 head hh (omega arith)
          (omega (arith, mod-eq_of_lt {n = head + 0} {m = size} (omega arith)))))

  -- Writing at `head` and moving on puts the new entry first and keeps at most `size` entries.
  pub recent-push :
      (buf : List A) (x : A) (head count : ℕ)
      → length buf ≡ size
      → head < size
      → count ≤ size
      → recent size d
          (set buf head x)
          ((head + 1) % size)
          (if ltb count size then count + 1 else count)
        ≡ take size (x ∷ recent size d buf head count)
  recent-push buf x head count l hh hc = elim (dec_lt count size) [
    | yes p ↦
        ap (recent size d (set buf head x) ((head + 1) % size)) {y = suc count} (ground arith)
        ∙ recent-set_head buf x head count l hh p
        ∙ sym (
            take_all size (x ∷ recent size d buf head count)
              (omega (arith, length-recent size d buf head count)))
    | no p ↦
        ap (recent size d (set buf head x) ((head + 1) % size)) {y = suc (size - 1)} (ground arith)
        ∙ recent-set_head buf x head (size - 1) l hh (omega arith)
        ∙ ap (◌∷◌ x) (sym (take-recent size d buf head (size - 1) count (omega arith)))
        ∙ ap (λ t. take t (x ∷ recent size d buf head count)) {x = suc (size - 1)} (omega arith)
  ]
