-- ===== src/Health.antt =====
-- ceell/core/health_monitor.c: the health of each peer from the time it was last heard.
-- `max_peers`, `interval` and `timeout` are `CONFIG_CEELL_DISCOVERY_MAX_PEERS`,
-- `CONFIG_CEELL_DISCOVERY_INTERVAL_MS` and `CONFIG_CEELL_PEER_TIMEOUT_MS`. The uptime and the copy of the
-- peer table that discovery hands over are arguments; the calls of the callback are returned.
pub mod Classify
pub mod Slots
pub mod Update
pub mod Full
pub mod Size
mod Tests
use ceell.Prelude.{
  ℕ, zero, suc, ◌+◌, ◌-◌, ◌*◌, ◌/◌, ◌%◌, Bool, true, false, not, ◌&&◌, Option, none, some, List, [],
  ◌∷◌, ◌++◌, if◌then◌else◌, ltb, leb, ◌==◌, get_or, set, replicate,
}
use ceell.Prelude.Int.{ℤ, pos, negsuc, ◌-ℤ◌, ltb_ℤ, leb_ℤ, i32, is_neg}
use ceell.Errno.{Ret, ok, err}

pub data HealthState : Type 0 where
  healthy degraded critical lost : HealthState

-- `struct ceell_peer_health`
pub record PeerHealth : Type 0 where
  pub node_id : ℕ
  pub state : HealthState
  pub last_seen : ℕ
  pub missed_count : ℤ
  pub active : Bool

-- What health reads of `struct ceell_peer`.
pub record Sighting : Type 0 where
  pub node_id : ℕ
  pub last_seen : ℕ

-- A call `health_cb(node_id, old_state, new_state)`.
pub record HealthCall : Type 0 where
  pub node_id : ℕ
  pub old_state : HealthState
  pub new_state : HealthState

pub record Health : Type 0 where
  pub health_table : List PeerHealth
  pub health_cb : Bool
  pub health_initialized : Bool

abbrev pub zero_health : PeerHealth
zero_health = record {
  node_id = 0;
  state = healthy;
  last_seen = 0;
  missed_count = pos 0;
  active = false;
}

abbrev pub state_eq : HealthState → HealthState → Bool
state_eq healthy healthy = true
state_eq degraded degraded = true
state_eq critical critical = true
state_eq lost lost = true
state_eq _ _ = false

abbrev pub is_slot : ℕ → PeerHealth → Bool
is_slot id h = h.active && (h.node_id == id)

-- What the loop of `find_or_alloc` finds: the slot of the peer, or the first free one, or neither.
pub data Slot : Type 0 where
  taken : ℕ → Slot
  free : ℕ → Slot
  full : Slot

abbrev pub note_free : ℕ → Bool → Slot → Slot
note_free i false full = free i
note_free i false (free j) = free j
note_free i false (taken j) = taken j
note_free i true s = s

-- `i` is the index of the first entry given, and `s` holds the free slot noted so far.
unfoldable pub find_slot : ℕ → ℕ → List PeerHealth → Slot → Slot
find_slot id i [] s = s
find_slot id i (h ∷ hs) s =
    if is_slot id h then taken i else find_slot id (i + 1) hs (note_free i h.active s)

-- A `NULL` is `none`; a free slot is cleared and taken.
unfoldable pub take_slot : ℕ → List PeerHealth → Slot → Option ℕ × List PeerHealth
take_slot id table (taken i) = (some i, table)
take_slot id table (free i) =
    (some i, set table i (record zero_health { node_id = id; active = true }))
take_slot id table full = (none, table)

unfoldable pub find_or_alloc : ℕ → List PeerHealth → Option ℕ × List PeerHealth
find_or_alloc id table = take_slot id table (find_slot id 0 table full)

-- C division of an `int64_t` by a positive `int`.
abbrev pub quot : ℤ → ℕ → ℤ
quot (pos n) d = pos (n / d)
quot (negsuc n) d = pos 0 -ℤ pos (suc n / d)

abbrev pub calls_for : Bool → ℕ → HealthState → HealthState → List HealthCall
calls_for cb id old new =
    if state_eq new old
    then []
    else if cb
    then record { node_id = id; old_state = old; new_state = new } ∷ []
    else []

-- An entry of the second loop: tracked, but no longer in discovery.
unfoldable pub expire_entry : Bool → PeerHealth → PeerHealth
expire_entry found h =
    if h.active && not found
    then if state_eq h.state lost then h else record h { state = lost; missed_count = negsuc 0 }
    else h

unfoldable pub expire_all : Bool → List PeerHealth → List Bool → List HealthCall × List PeerHealth
expire_all cb [] found = ([], [])
expire_all cb (h ∷ hs) [] = ([], h ∷ hs)
expire_all cb (h ∷ hs) (f ∷ fs) =
    let h' = expire_entry f h in
    let (calls, hs') = expire_all cb hs fs in
    (calls_for cb h.node_id h.state h'.state ++ calls, h' ∷ hs')

module _ (interval timeout : ℕ) where
  unfoldable pub compute_state : ℕ → ℕ → HealthState
  compute_state now last_seen =
      let elapsed = pos now -ℤ pos last_seen in
      let missed = i32 (quot elapsed interval) -ℤ pos 1 in
      if leb_ℤ elapsed (pos interval)
      then healthy
      else if leb_ℤ missed (pos 2)
      then degraded
      else if leb_ℤ (pos timeout) elapsed
      then lost
      else critical

  -- The missed count that is stored on a transition.
  unfoldable pub missed_for : HealthState → ℕ → ℕ → ℤ
  missed_for healthy now last_seen = pos 0
  missed_for _ now last_seen =
      let missed = i32 (quot (pos now -ℤ pos last_seen) interval) -ℤ pos 1 in
      if is_neg missed then pos 0 else missed

  -- The entry of a peer that discovery knows.
  unfoldable pub refresh : ℕ → Sighting → PeerHealth → PeerHealth
  refresh now p h =
      let new_state = compute_state now p.last_seen in
      let seen : PeerHealth = record h { last_seen = p.last_seen } in
      if state_eq new_state h.state
      then seen
      else record seen { state = new_state; missed_count = missed_for new_state now p.last_seen }

  -- The first loop of `ceell_health_update`, over the discovered peers: the table, `peer_found`, and
  -- the calls of the callback.
  unfoldable pub refresh_all :
      Bool
      → ℕ
      → List Sighting
      → List PeerHealth
      → List Bool
      → List HealthCall × List PeerHealth × List Bool
  refresh_all cb now [] table found = ([], table, found)
  refresh_all cb now (p ∷ ps) table found =
      let (slot, table') = find_or_alloc p.node_id table in
      elim slot [
        | none ↦ refresh_all cb now ps table' found
        | some idx ↦
            let h = get_or table' idx zero_health in
            let h' = refresh now p h in
            let (calls, table'', found') =
              refresh_all cb now ps (set table' idx h') (set found idx true) in
            (calls_for cb h.node_id h.state h'.state ++ calls, table'', found')
      ]

  module _ (max_peers : ℕ) where
    unfoldable pub health_update : ℕ → List Sighting → Health → List HealthCall × Health
    health_update now peers s =
        let (calls, table, found) =
          refresh_all s.health_cb now peers s.health_table (replicate max_peers false) in
        let (calls', table') = expire_all s.health_cb table found in
        if s.health_initialized
        then (calls ++ calls', record s { health_table = table' })
        else ([], s)

-- `mutex` is what `ceell_mutex_init` returns.
unfoldable pub health_init : ℕ → Ret → Health → Ret × Health
health_init max_peers (err e) s = (err e, s)
health_init max_peers ok s = (
  ok,
  record {
    health_table = replicate max_peers zero_health;
    health_cb = false;
    health_initialized = true;
  },
)

unfoldable pub health_register_cb : Health → Bool → Health
health_register_cb s cb = record s { health_cb = cb }

-- The loop of `ceell_health_get_state`: an unknown peer counts as lost.
unfoldable pub get_state : ℕ → List PeerHealth → HealthState
get_state id [] = lost
get_state id (h ∷ hs) = if is_slot id h then h.state else get_state id hs

unfoldable pub health_get_state : Health → ℕ → HealthState
unfolding get_state
health_get_state s id = get_state id s.health_table

-- The active entries, `max_count` at most. `count` is how many are copied already.
unfoldable pub copy_active : ℕ → ℕ → List PeerHealth → List PeerHealth
copy_active max_count count [] = []
copy_active max_count count (h ∷ hs) =
    let rest = copy_active max_count (count + 1) hs in
    let skip = copy_active max_count count hs in
    if h.active && ltb count max_count then h ∷ rest else skip

-- `out` says whether the pointer is there.
unfoldable pub health_get_table : Health → Bool → ℤ → List PeerHealth
unfolding copy_active
health_get_table s false max_count = []
health_get_table s true (negsuc n) = []
health_get_table s true (pos n) = copy_active n 0 s.health_table
