-- ===== src/Health/Slots.antt =====
-- Which slot of the table a peer gets, and what one refresh does to the view of each peer.
use ceell.Prelude.{
  ℕ, zero, suc, ◌+◌, ◌<◌, ◌≡◌, refl, ap, ◌⊎◌, inl, inr, Bool, true, false, ◌||◌, Option, none, some,
  List, [], ◌∷◌, arith, length, get_or, set, length-set, if◌then◌else◌, ◌==◌, Bool-cases,
  get_or-set_self, ==_iff,
}
use ceell.Health.{
  HealthState, PeerHealth, Sighting, Slot, taken, free, full, zero_health, is_slot, find_slot,
  take_slot, find_or_alloc,
}

-- The state and the mark of the first slot that the peer has.
unfoldable pub view : ℕ → List PeerHealth → List Bool → Option (HealthState × Bool)
view id [] fs = none
view id (h ∷ hs) [] = none
view id (h ∷ hs) (f ∷ fs) = if is_slot id h then some (h.state, f) else view id hs fs

unfoldable pub is_tracked : ℕ → List PeerHealth → Bool
is_tracked id [] = false
is_tracked id (h ∷ hs) = is_slot id h || is_tracked id hs

unfoldable pub active_count : List PeerHealth → ℕ
active_count [] = 0
active_count (h ∷ hs) = (if h.active then 1 else 0) + active_count hs

-- No slot before `j` is the peer's.
abbrev pub Before : ℕ → ℕ → List PeerHealth → Type 0
Before id zero hs = Unit {0}
Before id (suc j) [] = Unit {0}
Before id (suc j) (h ∷ hs) = (is_slot id h ≡ false) × Before id j hs

-- What the search finds, from index `i` on with nothing noted yet.
abbrev pub Found : ℕ → ℕ → List PeerHealth → Slot → Type 0
Found id i hs (taken k) =
    (j : ℕ) × (k ≡ i + j)
    × (j < length hs)
    × Before id j hs
    × (is_slot id (get_or hs j zero_health) ≡ true)
Found id i hs (free k) =
    (j : ℕ) × (k ≡ i + j)
    × (j < length hs)
    × (is_tracked id hs ≡ false)
    × ((get_or hs j zero_health).active ≡ false)
Found id i hs full = (is_tracked id hs ≡ false) × (active_count hs ≡ length hs)

-- With a free slot noted the search finds the peer's slot or keeps that one.
noted :
    (id i k : ℕ) (hs : List PeerHealth)
    → ((is_tracked id hs ≡ false) × (find_slot id i hs (free k) ≡ free k))
      ⊎ ((j : ℕ) × (find_slot id i hs (free k) ≡ taken (i + j))
          × (j < length hs)
          × Before id j hs
          × (is_slot id (get_or hs j zero_health) ≡ true))
unfolding find_slot is_tracked
noted id i k [] = inl (refl, refl)
noted id i k (h ∷ hs) = elim (Bool-cases (is_slot id h)) [
  | inl hit ↦ inr (0, ground (arith, hit), omega arith, tt, hit)
  | inr miss ↦ elim (noted id (i + 1) k hs) [
    | inl (u, e) ↦ inl (ground (arith, miss, u), ground (arith, miss, e))
    | inr (j, e, lt, b, s) ↦ inr (suc j, ground (arith, miss, e), omega arith, (miss, b), s)
  ]
]

Found-shift :
    (id i : ℕ) (h : PeerHealth) (hs : List PeerHealth) (s : Slot)
    → is_slot id h ≡ false
    → h.active ≡ true
    → Found id (i + 1) hs s
    → Found id i (h ∷ hs) s
unfolding is_tracked active_count
Found-shift id i h hs (taken k) miss a (j, e, lt, b, t) =
    (suc j, omega arith, omega arith, (miss, b), t)
Found-shift id i h hs (free k) miss a (j, e, lt, u, t) =
    (suc j, omega arith, omega arith, ground (arith, miss, u), t)
Found-shift id i h hs full miss a (u, c) = (ground (arith, miss, u), ground (arith, a, c))

pub find_slot-Found :
    (id i : ℕ) (hs : List PeerHealth) (s : Slot) → find_slot id i hs full ≡ s → Found id i hs s
unfolding find_slot is_tracked active_count
find_slot-Found id i [] s e = rw (← e) (refl, refl)
find_slot-Found id i (h ∷ hs) s e = elim (Bool-cases (is_slot id h)) [
  | inl hit ↦
      let q : taken i ≡ s = ground (arith, e, hit) in
      rw (← q) (0, omega arith, omega arith, tt, hit)
  | inr miss ↦ elim (Bool-cases h.active) [
    | inl a ↦
        Found-shift id i h hs s miss a
          (find_slot-Found id (i + 1) hs s (ground (arith, e, miss, a)))
    | inr a ↦ elim (noted id (i + 1) i hs) [
      | inl (u, n) ↦
          let q : free i ≡ s = ground (arith, e, miss, a, n) in
          rw (← q) (0, omega arith, omega arith, ground (arith, miss, u), a)
      | inr (j, n, lt, b, t) ↦
          let q : taken (i + 1 + j) ≡ s = ground (arith, e, miss, a, n) in
          rw (← q) (suc j, omega arith, omega arith, (miss, b), t)
    ]
  ]
]

pub view-untracked :
    (id : ℕ) (hs : List PeerHealth) (fs : List Bool)
    → is_tracked id hs ≡ false
    → view id hs fs ≡ none
unfolding view is_tracked
view-untracked id [] fs e = refl
view-untracked id (h ∷ hs) [] e = refl
view-untracked id (h ∷ hs) (f ∷ fs) e = ground (arith, view-untracked id hs fs)

Before-untracked : (id j : ℕ) (hs : List PeerHealth) → is_tracked id hs ≡ false → Before id j hs
unfolding is_tracked
Before-untracked id zero hs e = tt
Before-untracked id (suc j) [] e = tt
Before-untracked id (suc j) (h ∷ hs) e = (ground arith, Before-untracked id j hs (ground arith))

-- The peer's entry at its slot is what is seen of it.
pub view-set_self :
    (id j : ℕ) (hs : List PeerHealth) (fs : List Bool) (h : PeerHealth)
    → Before id j hs
    → j < length hs
    → length fs ≡ length hs
    → is_slot id h ≡ true
    → view id (set hs j h) (set fs j true) ≡ some (h.state, true)
unfolding view
view-set_self id j [] fs h b lt l t = absurd (omega arith)
view-set_self id j (x ∷ hs) [] h b lt l t = absurd (omega arith)
view-set_self id zero (x ∷ hs) (f ∷ fs) h b lt l t = ground (arith, t)
view-set_self id (suc j) (x ∷ hs) (f ∷ fs) h b lt l t =
    ground (arith, b.0, view-set_self id j hs fs h b.1 (omega arith) (omega arith) t)

-- A slot that is not the peer's before or after changes nothing of it.
pub view-set_ne :
    (id j : ℕ) (hs : List PeerHealth) (fs : List Bool) (h : PeerHealth)
    → is_slot id (get_or hs j zero_health) ≡ false
    → is_slot id h ≡ false
    → view id (set hs j h) (set fs j true) ≡ view id hs fs
unfolding view
view-set_ne id j [] fs h o n = refl
view-set_ne id zero (x ∷ hs) [] h o n = refl
view-set_ne id (suc j) (x ∷ hs) [] h o n = refl
view-set_ne id zero (x ∷ hs) (f ∷ fs) h o n = ground (arith, o, n)
view-set_ne id (suc j) (x ∷ hs) (f ∷ fs) h o n = ground (arith, view-set_ne id j hs fs h o n)

pub tracked-set :
    (id j : ℕ) (hs : List PeerHealth) (h : PeerHealth)
    → (is_slot id (get_or hs j zero_health) ≡ true → is_slot id h ≡ true)
    → is_tracked id hs ≡ true
    → is_tracked id (set hs j h) ≡ true
unfolding is_tracked
tracked-set id j [] h k e = e
tracked-set id zero (x ∷ hs) h k e = ground (arith, k)
tracked-set id (suc j) (x ∷ hs) h k e = ground (arith, tracked-set id j hs h k)

pub tracked_at :
    (id j : ℕ) (hs : List PeerHealth)
    → j < length hs
    → is_slot id (get_or hs j zero_health) ≡ true
    → is_tracked id hs ≡ true
unfolding is_tracked
tracked_at id j [] lt t = absurd (omega arith)
tracked_at id zero (x ∷ hs) lt t = ground (arith, t)
tracked_at id (suc j) (x ∷ hs) lt t = ground (arith, tracked_at id j hs (omega arith) t)

pub active-set :
    (j : ℕ) (hs : List PeerHealth) (h : PeerHealth)
    → j < length hs
    → h.active ≡ true
    → active_count (set hs j h) + (if (get_or hs j zero_health).active then 1 else 0)
      ≡ active_count hs + 1
unfolding active_count
active-set j [] h lt a = absurd (omega arith)
active-set zero (x ∷ hs) h lt a = ground arith
active-set (suc j) (x ∷ hs) h lt a = omega (arith, active-set j hs h (omega arith) a)

set-set {ℓ} : {A : Type ℓ} (xs : List A) (i : ℕ) (v w : A) → set (set xs i v) i w ≡ set xs i w
set-set [] i v w = refl
set-set (x ∷ xs) zero v w = refl
set-set (x ∷ xs) (suc i) v w = ap (◌∷◌ x) (set-set xs i v w)

-- What one round of the first loop of `ceell_health_update` leaves of the table: the slot that the
-- peer gets, whether it had it before, and the entry written there.
pub record Placed (p : Sighting) (hs : List PeerHealth) (found : Option ℕ) (hs' : List PeerHealth)
    : Type 0 where
  pub same_size : length hs' ≡ length hs
  pub slot : ℕ
  pub is_found : found ≡ some slot
  pub in_range : slot < length hs
  pub before : Before p.node_id slot hs
  pub mine : is_slot p.node_id (get_or hs' slot zero_health) ≡ true
  pub write : (h : PeerHealth) → set hs' slot h ≡ set hs slot h
  pub origin :
      (is_slot p.node_id (get_or hs slot zero_health) ≡ true)
      ⊎ ((is_tracked p.node_id hs ≡ false) × ((get_or hs slot zero_health).active ≡ false))

-- The index that the search finds, counted from 0.
Placed-at :
    (p : Sighting) (hs : List PeerHealth) (s : Slot)
    → Found p.node_id 0 hs s
    → (is_tracked p.node_id hs ≡ true) ⊎ (active_count hs < length hs)
    → Placed p hs (take_slot p.node_id hs s).0 (take_slot p.node_id hs s).1
unfolding take_slot
Placed-at p hs (taken k) (j, e, lt, b, t) room =
    let q : k ≡ j = omega (arith, e) in
    record {
      same_size = refl;
      slot = j;
      is_found = ap some q;
      in_range = lt;
      before = b;
      mine = t;
      write = λ h. refl;
      origin = inl t;
    }
Placed-at p hs (free k) (j, e, lt, u, t) room =
    let q : k ≡ j = omega (arith, e) in
    let h : PeerHealth = record zero_health { node_id = p.node_id; active = true } in
    rw q (record {
      same_size = length-set hs j h;
      slot = j;
      is_found = refl;
      in_range = lt;
      before = Before-untracked p.node_id j hs u;
      mine = rw (get_or-set_self hs j h zero_health lt) (own p.node_id);
      write = set-set hs j h;
      origin = inr (u, t);
    })
  where
    own : (id : ℕ) → (id == id) ≡ true
    own id = (==_iff id id).1 refl
Placed-at p hs full (u, c) (inl t) = absurd (clash u t)
  where
    clash : {b : Bool} → b ≡ false → b ≡ true → ⊥
    clash u t = cc
Placed-at p hs full (u, c) (inr lt) = absurd (omega (arith, c, lt))

-- Where the peer is tracked or a slot is free, it gets a slot.
pub find_or_alloc-Placed :
    (p : Sighting) (hs : List PeerHealth)
    → (is_tracked p.node_id hs ≡ true) ⊎ (active_count hs < length hs)
    → Placed p hs (find_or_alloc p.node_id hs).0 (find_or_alloc p.node_id hs).1
unfolding find_or_alloc
find_or_alloc-Placed p hs room =
    Placed-at p hs (find_slot p.node_id 0 hs full)
      (find_slot-Found p.node_id 0 hs (find_slot p.node_id 0 hs full) refl) room
