-- ===== src/Redundancy/Window.antt =====
-- The ring as the list of the last sequence numbers that were new.
use ceell.Prelude.{
  sym, none, some, ◌⊎◌, ℕ, zero, suc, ◌+◌, ◌-◌, ◌%◌, ◌<◌, ◌≤◌, ◌≡◌, refl, ap, ◌∙◌, Bool, true,
  false, ◌||◌, Option, List, [], ◌∷◌, arith, ◌==◌, length, take, length-set, if◌then◌else◌, ltb,
  Bool-cases, inl, inr,
}
use ceell.Errno.{Ret, ok, err, failed}
use ceell.Recent.{recent, prev, recent-push}
use ceell.Redundancy.{
  Dedup, dedup_ring_size, search_ring, dedup_check, check_all, cleared, redundancy_init,
}

pub record IsValid (s : Dedup) : Type 0 where
  pub size : length s.dedup_ring ≡ dedup_ring_size
  pub head_in : s.dedup_head < dedup_ring_size
  pub count_in : s.dedup_count ≤ dedup_ring_size

-- The numbers in the ring, newest first.
abbrev pub window : Dedup → List ℕ
window s = recent dedup_ring_size 0 s.dedup_ring s.dedup_head s.dedup_count

pub is_in : ℕ → List ℕ → Bool
is_in q [] = false
is_in q (x ∷ xs) = (x == q) || is_in q xs

-- What the check promises: a bounded memory of the last 32 new numbers.
pub window_check : List ℕ → ℕ → Bool × List ℕ
window_check w q = if is_in q w then (true, w) else (false, take dedup_ring_size (q ∷ w))

-- `head` after `i` steps back.
back : ℕ → ℕ → ℕ
back head i = (head + dedup_ring_size - i) % dedup_ring_size

search_ring-recent :
    (n i : ℕ) (ring : List ℕ) (head q : ℕ)
    → head < dedup_ring_size
    → i + n ≤ dedup_ring_size
    → search_ring n i ring head q ≡ is_in q (recent dedup_ring_size 0 ring (back head i) n)
unfolding search_ring is_in recent back
search_ring-recent zero i ring head q hh h = refl
search_ring-recent (suc n) i ring head q hh h =
    let here : (head + dedup_ring_size - 1 - i) % dedup_ring_size
        ≡ prev dedup_ring_size (back head i) =
      omega arith in
    let there : back head (i + 1) ≡ prev dedup_ring_size (back head i) = omega arith in
    rw (here, search_ring-recent n (i + 1) ring head q hh (omega arith), there) (ground arith)

search_ring-window :
    (s : Dedup) (q : ℕ)
    → IsValid s
    → search_ring
        (if ltb s.dedup_count dedup_ring_size then s.dedup_count else dedup_ring_size)
        0
        s.dedup_ring
        s.dedup_head
        q
      ≡ is_in q (window s)
unfolding back
search_ring-window s q v =
    let n : (if ltb s.dedup_count dedup_ring_size then s.dedup_count else dedup_ring_size)
        ≡ s.dedup_count =
      ground arith in
    let h : back s.dedup_head 0 ≡ s.dedup_head = omega arith in
    rw n (
      rw (search_ring-recent s.dedup_count 0 s.dedup_ring s.dedup_head q v.head_in (omega arith), h)
        refl)

-- On a valid ring the check answers and changes as the bounded memory does, and stays valid.
pub dedup_check-window :
    (s : Dedup) (q : ℕ)
    → IsValid s
    → let (dup, s') = dedup_check s q in ((dup, window s') ≡ window_check (window s) q) × IsValid s'
unfolding dedup_check window_check
dedup_check-window s q v = ground (
  arith,
  search_ring-window s q v,
  recent-push dedup_ring_size 0 s.dedup_ring q s.dedup_head s.dedup_count v.size v.head_in
      v.count_in,
  length-set s.dedup_ring s.dedup_head q,
)

-- The bounded memory over a sequence of messages.
pub window_check_all : List ℕ → List ℕ → List Bool × List ℕ
window_check_all w [] = ([], w)
window_check_all w (q ∷ qs) =
    let (dup, w') = window_check w q in
    let (dups, w'') = window_check_all w' qs in (dup ∷ dups, w'')

-- No sequence of messages tells the ring from the bounded memory of the last 32 new numbers.
pub check_all-window :
    (s : Dedup) (qs : List ℕ)
    → IsValid s
    → let (dups, s') = check_all s qs in
      ((dups, window s') ≡ window_check_all (window s) qs) × IsValid s'
unfolding check_all window_check_all
check_all-window s [] v = (refl, v)
check_all-window s (q ∷ qs) v =
    let one = dedup_check-window s q v in
    ground (arith, one, check_all-window (dedup_check s q).1 qs one.1)

-- `q` is among the `k` newest.
abbrev Among : ℕ → ℕ → List ℕ → Type 0
Among k q w = is_in q (take k w) ≡ true

Among-suc : (k q : ℕ) (w : List ℕ) → Among k q w → Among (suc k) q w
unfolding is_in
Among-suc zero q w h = cc
Among-suc (suc k) q [] h = cc
Among-suc (suc k) q (x ∷ w) h = ground (arith, Among-suc k q w)

is_in-take : (k q : ℕ) (w : List ℕ) → Among k q w → is_in q w ≡ true
unfolding is_in
is_in-take zero q w h = cc
is_in-take (suc k) q [] h = cc
is_in-take (suc k) q (x ∷ w) h = ground (arith, is_in-take k q w)

take-take : (k n : ℕ) (w : List ℕ) → k ≤ n → take k (take n w) ≡ take k w
take-take zero n w h = refl
take-take (suc k) zero w h = absurd (omega arith)
take-take (suc k) (suc n) [] h = refl
take-take (suc k) (suc n) (x ∷ w) h = ap (◌∷◌ x) (take-take k n w (omega arith))

added : (k q x : ℕ) (w : List ℕ) → Among k q w → is_in q (x ∷ take k w) ≡ true
unfolding is_in
added k q x w a = ground arith

-- One more message pushes `q` back by one place at most.
Among-window_check :
    (k q x : ℕ) (w : List ℕ)
    → suc k ≤ dedup_ring_size
    → Among k q w
    → Among (suc k) q (window_check w x).1
unfolding window_check
Among-window_check k q x w h a = elim (Bool-cases (is_in x w)) [
  | inl e ↦ rw e (Among-suc k q w a)
  | inr e ↦ rw e (rw (take-take k 31 w (omega arith)) (added k q x w a))
]

Among-all :
    (qs : List ℕ) (k q : ℕ) (w : List ℕ)
    → k + length qs ≤ dedup_ring_size
    → Among k q w
    → is_in q (window_check_all w qs).1 ≡ true
unfolding window_check_all
Among-all [] k q w h a = is_in-take k q w a
Among-all (x ∷ qs) k q w h a =
    Among-all qs (suc k) q (window_check w x).1 (omega arith)
      (Among-window_check k q x w (omega arith) a)

Among-new : (q : ℕ) (w : List ℕ) → (window_check w q).0 ≡ false → Among 1 q (window_check w q).1
unfolding window_check is_in
Among-new q w h = ground arith

known : (q : ℕ) (w : List ℕ) → is_in q w ≡ true → (window_check w q).0 ≡ true
unfolding window_check
known q w e = rw e

-- A number that was taken as new is still known after up to 31 further messages, whatever they
-- are: its copy from the other path is taken for a duplicate.
pub dedup_remembers :
    (s : Dedup) (q : ℕ) (qs : List ℕ)
    → IsValid s
    → (dedup_check s q).0 ≡ false
    → length qs < dedup_ring_size
    → (dedup_check (check_all (dedup_check s q).1 qs).1 q).0 ≡ true
dedup_remembers s q qs v new h =
    let one = dedup_check-window s q v in
    let all = check_all-window (dedup_check s q).1 qs one.1 in
    let last = dedup_check-window (check_all (dedup_check s q).1 qs).1 q all.1 in
    let answer = ap (λ (p : Bool × List ℕ). p.0) one.0 in
    let now = ap (λ (p : Bool × List ℕ). p.1) one.0 in
    let end = ap (λ (p : List Bool × List ℕ). p.1) all.0 in
    let kept : is_in q (window_check_all (window_check (window s) q).1 qs).1 ≡ true =
      Among-all qs 1 q (window_check (window s) q).1 (omega arith)
        (Among-new q (window s) (sym answer ∙ new)) in
    ap (λ (p : Bool × List ℕ). p.0) last.0
    ∙ known q (window (check_all (dedup_check s q).1 qs).1)
        (ap (is_in q) (end ∙ ap (λ w. (window_check_all w qs).1) now) ∙ kept)

cleared-IsValid : IsValid cleared
cleared-IsValid = omega arith

-- Past the mutex `ceell_msg_redundancy_init` leaves a valid and empty ring, and a secondary socket
-- exactly if it succeeds.
pub redundancy_init-window :
    (sock bind : Ret) (fd : ℕ) (s : Dedup) (secondary : Option ℕ)
    → let (ret, s', secondary') = redundancy_init ok sock fd bind s secondary in
      IsValid s'
      × (window s' ≡ [])
      × (((ret ≡ ok) × (secondary' ≡ some fd)) ⊎ ((failed ret ≡ true) × (secondary' ≡ none)))
unfolding redundancy_init recent
redundancy_init-window (err e) bind fd s secondary = (cleared-IsValid, refl, inr (refl, refl))
redundancy_init-window ok (err e) fd s secondary = (cleared-IsValid, refl, inr (refl, refl))
redundancy_init-window ok ok fd s secondary = (cleared-IsValid, refl, inl (refl, refl))
