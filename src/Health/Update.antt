-- ===== src/Health/Update.antt =====
-- What the health table says of each peer after `ceell_health_update`.
use ceell.Prelude.{
  subst, ℕ, zero, suc, ◌+◌, ◌<◌, ◌≤◌, ◌≡◌, ◌≢◌, refl, ap, ◌∙◌, ◌⊎◌, inl, inr, Bool, true, false,
  Option, none, some, List, [], ◌∷◌, arith, length, get_or, set, replicate, length-set,
  length-replicate, if◌then◌else◌, ◌==◌, ==_iff, Bool-cases,
}
use ceell.Health.{
  HealthState, lost, PeerHealth, Sighting, Health, zero_health, is_slot, find_or_alloc, refresh,
  compute_state, state_eq, refresh_all, expire_entry, expire_all, health_update, get_state,
  health_get_state,
}
use ceell.Health.Slots.{
  view, is_tracked, active_count, Placed, find_or_alloc-Placed, view-set_self, view-set_ne,
  tracked-set, active-set, tracked_at,
}

-- When the peer was last heard, as the copy of the peer table has it.
unfoldable pub latest : ℕ → List Sighting → Option ℕ
latest id [] = none
latest id (p ∷ ps) = elim (latest id ps) [
  | some seen ↦ some seen
  | none ↦ if p.node_id == id then some p.last_seen else none
]

-- How many of the peers have no slot yet.
unfoldable pub untracked : List Sighting → List PeerHealth → ℕ
untracked [] hs = 0
untracked (p ∷ ps) hs = (if is_tracked p.node_id hs then 0 else 1) + untracked ps hs

state_eq→≡ : (a b : HealthState) → state_eq a b ≡ true → a ≡ b
state_eq→≡ a b h = ground arith

untracked-le :
    (ps : List Sighting) (hs hs' : List PeerHealth)
    → ((id : ℕ) → is_tracked id hs ≡ true → is_tracked id hs' ≡ true)
    → untracked ps hs' ≤ untracked ps hs
unfolding untracked
untracked-le [] hs hs' k = omega arith
untracked-le (p ∷ ps) hs hs' k = ground (arith, k p.node_id, untracked-le ps hs hs' k)

differ : (a b : ℕ) → (a == b) ≡ false → a ≢ b
differ a b f e = ground (arith, f, e)

module _ (interval timeout : ℕ) where
  refresh_fields :
      (now : ℕ) (p : Sighting) (h : PeerHealth)
      → let h' = refresh interval timeout now p h in
        (h'.node_id ≡ h.node_id)
        × (h'.active ≡ h.active)
        × (h'.state ≡ compute_state interval timeout now p.last_seen)
  unfolding refresh
  refresh_fields now p h =
      let new = compute_state interval timeout now p.last_seen in
      ground (arith, state_eq→≡ new h.state)

  -- One peer of the first loop: its own view and nobody else's changes, and the room left covers the
  -- peers to come.
  pub record Refreshed (now : ℕ) (p : Sighting) (hs : List PeerHealth) (fs : List Bool)
      (hs' : List PeerHealth) (fs' : List Bool) : Type 0 where
    pub same_size : length hs' ≡ length hs
    pub marks : length fs' ≡ length hs'
    pub own : view p.node_id hs' fs' ≡ some (compute_state interval timeout now p.last_seen, true)
    pub others : (id : ℕ) → p.node_id ≢ id → view id hs' fs' ≡ view id hs fs
    pub kept : (id : ℕ) → is_tracked id hs ≡ true → is_tracked id hs' ≡ true
    pub active : active_count hs' ≡ active_count hs + (if is_tracked p.node_id hs then 0 else 1)

  pub Refreshed-step :
      (now : ℕ) (p : Sighting) (hs : List PeerHealth) (fs : List Bool) (found : Option ℕ)
      (hs1 : List PeerHealth) (pl : Placed p hs found hs1)
      → length fs ≡ length hs
      → Refreshed now p hs fs
          (set hs1 pl.slot (refresh interval timeout now p (get_or hs1 pl.slot zero_health)))
          (set fs pl.slot true)
  Refreshed-step now p hs fs found hs1 pl l =
      let old = get_or hs1 pl.slot zero_health in
      let h = refresh interval timeout now p old in
      let f = refresh_fields now p old in
      let is_mine : is_slot p.node_id h ≡ true = ground (arith, f, pl.mine) in
      rw (pl.write h) (record {
        same_size = length-set hs pl.slot h;
        marks = omega (arith, length-set fs pl.slot true, length-set hs pl.slot h, l);
        own =
            view-set_self p.node_id pl.slot hs fs h pl.before pl.in_range l is_mine
            ∙ ap (λ st. some (st, true)) f.2;
        others = λ id ne. view-set_ne id pl.slot hs fs h (was_not id ne) (is_not id ne h is_mine);
        kept = λ id t. tracked-set id pl.slot hs h (keeps id h is_mine) t;
        active = counted h is_mine pl.origin;
      })
    where
      counted :
          (h : PeerHealth)
          → is_slot p.node_id h ≡ true
          → (is_slot p.node_id (get_or hs pl.slot zero_health) ≡ true)
            ⊎ ((is_tracked p.node_id hs ≡ false) × ((get_or hs pl.slot zero_health).active ≡ false))
          → active_count (set hs pl.slot h)
            ≡ active_count hs + (if is_tracked p.node_id hs then 0 else 1)
      counted h m (inl t) =
          rw (tracked_at p.node_id pl.slot hs pl.in_range t)
            (ground (arith, active-set pl.slot hs h pl.in_range, t, m))
      counted h m (inr (u, a)) = rw u (ground (arith, active-set pl.slot hs h pl.in_range, a, m))

      is_not :
          (id : ℕ)
          → p.node_id ≢ id
          → (h : PeerHealth) → is_slot p.node_id h ≡ true
          → is_slot id h ≡ false
      is_not id ne h m = ground (arith, ne)

      was_not : (id : ℕ) → p.node_id ≢ id → is_slot id (get_or hs pl.slot zero_health) ≡ false
      was_not id ne = ground (arith, ne, pl.origin)

      keeps :
          (id : ℕ) (h : PeerHealth)
          → is_slot p.node_id h ≡ true
          → is_slot id (get_or hs pl.slot zero_health) ≡ true
          → is_slot id h ≡ true
      keeps id h m t = ground (arith, pl.origin)

  -- What the first loop leaves of a peer's view.
  abbrev pub seen_view : ℕ → Option ℕ → Option (HealthState × Bool) → Option (HealthState × Bool)
  seen_view now none old = old
  seen_view now (some seen) old = some (compute_state interval timeout now seen, true)

  seen_step :
      (id now : ℕ) (p : Sighting) (o : Option ℕ) (v v0 : Option (HealthState × Bool))
      → ((p.node_id == id) ≡ true → v ≡ some (compute_state interval timeout now p.last_seen, true))
      → ((p.node_id == id) ≡ false → v ≡ v0)
      → seen_view now o v
        ≡ seen_view now
            (elim o [
              | some seen ↦ some seen
              | none ↦ if p.node_id == id then some p.last_seen else none
            ])
            v0
  seen_step id now p (some seen) v v0 same other = refl
  seen_step id now p none v v0 same other = elim (Bool-cases (p.node_id == id)) [
    | inl t ↦ rw t (same t)
    | inr t ↦ rw t (other t)
  ]

  pub refresh_all-view :
      (id now : ℕ) (cb : Bool) (ps : List Sighting) (hs : List PeerHealth) (fs : List Bool)
      → length fs ≡ length hs
      → active_count hs + untracked ps hs ≤ length hs
      → let (calls, hs', fs') = refresh_all interval timeout cb now ps hs fs in
        (view id hs' fs' ≡ seen_view now (latest id ps) (view id hs fs)) × (length fs' ≡ length hs')
  unfolding refresh_all latest untracked
  refresh_all-view id now cb [] hs fs l room = (refl, l)
  refresh_all-view id now cb (p ∷ ps) hs fs l room =
      let pl = find_or_alloc-Placed p hs (has_room room) in
      let r =
        Refreshed-step now p hs fs (find_or_alloc p.node_id hs).0 (find_or_alloc p.node_id hs).1 pl
          l in
      let hs' = set (find_or_alloc p.node_id hs).1 pl.slot (
        refresh interval timeout now p
          (get_or (find_or_alloc p.node_id hs).1 pl.slot zero_health)) in
      let fs' = set fs pl.slot true in
      let ih =
        refresh_all-view id now cb ps hs' fs' r.marks
          (omega (arith, r.active, r.same_size, untracked-le ps hs hs' r.kept)) in
      rw (pl.is_found, refresh_all)
        (
          ih.0
              ∙ seen_step id now p (latest id ps) (view id hs' fs') (view id hs fs)
                  (λ t.
                    subst
                      (λ i.
                        view i hs' fs'
                        ≡ some (compute_state interval timeout now p.last_seen, true))
                      ((==_iff p.node_id id).0 t) r.own)
                  (λ t. r.others id (λ e. differ p.node_id id t e)),
          ih.1,
        )
    where
      has_room :
          active_count hs + ((if is_tracked p.node_id hs then 0 else 1) + untracked ps hs)
            ≤ length hs
          → (is_tracked p.node_id hs ≡ true) ⊎ (active_count hs < length hs)
      has_room room = elim (Bool-cases (is_tracked p.node_id hs)) [
        | inl t ↦ inl t
        | inr u ↦ inr (ground (arith, u))
      ]

pub expire-view :
    (id : ℕ) (cb : Bool) (hs : List PeerHealth) (fs : List Bool)
    → length fs ≡ length hs
    → get_state id (expire_all cb hs fs).1
      ≡ elim (view id hs fs) [ none ↦ lost | some (st, f) ↦ if f then st else lost ]
unfolding get_state expire_all expire_entry view
expire-view id cb [] fs l = refl
expire-view id cb (h ∷ hs) [] l = absurd (omega arith)
expire-view id cb (h ∷ hs) (f ∷ fs) l = ground (arith, expire-view id cb hs fs)

view-replicate :
    (id n : ℕ) (hs : List PeerHealth)
    → elim (view id hs (replicate n false)) [ none ↦ lost | some (st, f) ↦ if f then st else lost ]
      ≡ lost
unfolding view
view-replicate id n [] = refl
view-replicate id zero (h ∷ hs) = refl
view-replicate id (suc n) (h ∷ hs) = ground (arith, view-replicate id n hs)

-- Where every peer of the copy has a slot or finds a free one, `ceell_health_get_state` says after an
-- update: the state for the time since the peer was last heard, for each peer of the copy, and lost for
-- every other node.
pub health_update_lem :
    (interval timeout max_peers now : ℕ) (peers : List Sighting) (s : Health) (id : ℕ)
    → s.health_initialized ≡ true
    → length s.health_table ≡ max_peers
    → active_count s.health_table + untracked peers s.health_table ≤ max_peers
    → health_get_state (health_update interval timeout max_peers now peers s).1 id
      ≡ elim (latest id peers) [ some seen ↦ compute_state interval timeout now seen | none ↦ lost ]
unfolding health_update health_get_state
health_update_lem interval timeout max_peers now peers s id ready size room =
    let fs = replicate max_peers false in
    let l : length fs ≡ length s.health_table = omega (arith, length-replicate max_peers false) in
    let r =
      refresh_all-view interval timeout id now s.health_cb peers s.health_table fs l
        (omega arith) in
    rw ready (
      expire-view id s.health_cb
        (refresh_all interval timeout s.health_cb now peers s.health_table fs).1
        (refresh_all interval timeout s.health_cb now peers s.health_table fs).2 r.1
      ∙ rw r.0 (finish (latest id peers)))
  where
    finish :
        (o : Option ℕ)
        → elim (seen_view interval timeout now o
            (view id s.health_table (replicate max_peers false))) [
              | none ↦ lost
              | some (st, f) ↦ if f then st else lost
            ]
          ≡ elim o [ some seen ↦ compute_state interval timeout now seen | none ↦ lost ]
    finish none = view-replicate id max_peers s.health_table
    finish (some seen) = refl
