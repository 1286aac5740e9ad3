-- ===== src/Node/Lifecycle/Echo.antt =====
-- The echo test and the statistics over the rounds of ceell/core/lifecycle.c.
use ceell.Prelude.{
  ℕ, suc, ◌+◌, ◌/◌, ◌%◌, ◌<◌, ◌≡◌, refl, sym, ap, Bool, true, false, not, ◌&&◌, Option, none, some,
  List, [], ◌∷◌, ltb, ◌==◌, arith, length, replicate, ==_iff, Bool-cases, inl, inr, ◌⊎◌,
}
use ceell.Errno.{Ret, Errno, ok, err, failed}
use ceell.Config.{CeellConfig}
use ceell.Discovery.{discovery_peer_count, service_find_peer}
use ceell.Node.{Node, lifecycle_tick, echo_name}
use ceell.Node.Lifecycle.{
  stats_interval, Life, Outside, Shown, echo_test, lifecycle_round, lifecycle_rounds, lifecycle_run,
}

-- The results of the echo requests, in their order.
unfoldable pub attempts : List Shown → List Ret
attempts [] = []
attempts (o ∷ os) = elim o.echo [ none ↦ attempts os | some r ↦ r ∷ attempts os ]

-- Requests that stop at the first success; the Booleans say whether there was one before, and is one now.
abbrev pub StopAtSuccess : Bool → List Ret → Bool → Type 0
StopAtSuccess b [] b' = b ≡ b'
StopAtSuccess b (err e ∷ rs) b' = (b ≡ false) × StopAtSuccess false rs b'
StopAtSuccess b (ok ∷ rs) b' = (b ≡ false) × (rs ≡ []) × (b' ≡ true)

-- How many of the rounds print the statistics.
unfoldable pub prints : List Shown → ℕ
prints [] = 0
prints (o ∷ os) = elim o.stats [ none ↦ prints os | some st ↦ suc (prints os) ]

StopAtSuccess-some :
    (r : Ret) (rs : List Ret) (b' : Bool)
    → StopAtSuccess (not (failed r)) rs b'
    → StopAtSuccess false (r ∷ rs) b'
StopAtSuccess-some (err e) rs b' h = (refl, h)
StopAtSuccess-some ok [] b' h = (refl, refl, sym h)
StopAtSuccess-some ok (ok ∷ rs) b' h = absurd (clash h.0)
  where
    clash : true ≡ false → ⊥
    clash e = cc
StopAtSuccess-some ok (err e ∷ rs) b' h = absurd (clash h.0)
  where
    clash : true ≡ false → ⊥
    clash e = cc

-- What a round's echo test does to the results.
abbrev Added : Option Ret → Bool → Bool → Type 0
Added none b b' = b' ≡ b
Added (some r) b b' = (b ≡ false) × (b' ≡ not (failed r))

StopAtSuccess-round :
    (echo : Option Ret) (os : List Ret) (b b' b'' : Bool)
    → Added echo b b'
    → StopAtSuccess b' os b''
    → StopAtSuccess b (elim echo [ none ↦ os | some r ↦ r ∷ os ]) b''
StopAtSuccess-round none os b b' b'' e h = rw (sym e) h
StopAtSuccess-round (some r) os b b' b'' (e, f) h = rw e (StopAtSuccess-some r os b'' (rw f at h))

pub Ret-cases : (r : Ret) → (r ≡ ok) ⊎ ((e : Errno) × (r ≡ err e))
Ret-cases ok = inl refl
Ret-cases (err e) = inr (e, refl)

untested : (a b c : Bool) → (a && not b && c) ≡ true → b ≡ false
untested a b c h = ground (arith, h)

-- A round at the count `t` that prints, and one that does not.
print_due :
    (t t' t'' p n : ℕ)
    → (t' % stats_interval == 0) ≡ true
    → t' ≡ t + 1
    → t'' ≡ t'
    → p + t'' / 6 ≡ (t'' + n) / 6
    → suc p + t / 6 ≡ (t + suc n) / 6
print_due t t' t'' p n due e f h =
    let z : t' % 6 ≡ 0 = (==_iff (t' % 6) 0).0 due in omega (arith, z, e, f, h)

print_not_due :
    (t t' t'' p n : ℕ)
    → (t' % stats_interval == 0) ≡ false
    → t' ≡ t + 1
    → t'' ≡ t'
    → p + t'' / 6 ≡ (t'' + n) / 6
    → p + t / 6 ≡ (t + suc n) / 6
print_not_due t t' t'' p n not_due e f h =
    let z : 0 < t' % 6 = ground (arith, not_due) in omega (arith, z, e, f, h)

module _ {A : Type 0} (interval timeout max_peers samples_max hz : ℕ)
    (with_watchdog with_echo : Bool) where
  echo_test-Added :
      (o : Outside) (l : Life A)
      → let (echo, l') =
          echo_test interval timeout max_peers samples_max hz with_watchdog with_echo o l in
        Added echo l.echo_tested l'.echo_tested
  unfolding echo_test
  echo_test-Added o l =
      let peers = l.node.peers in
      let busy = with_echo && not l.echo_tested && ltb 0 (discovery_peer_count peers) in
      elim (Bool-cases busy) [
        | inr idle ↦ rw (idle, echo_test) refl
        | inl asks ↦
            elim (Ret-cases
              (service_find_peer max_peers peers (some echo_name) (some (replicate 16 0))).0) [
                | inr (e, f) ↦ rw (asks, f, echo_test) refl
                | inl f ↦ rw (asks, f, echo_test) (untested with_echo l.echo_tested _ asks, refl)
              ]
      ]

  rounds-StopAtSuccess :
      (os : List Outside) (l : Life A)
      → let (shown, l') =
          lifecycle_rounds interval timeout max_peers samples_max hz with_watchdog with_echo os l in
        StopAtSuccess l.echo_tested (attempts shown) l'.echo_tested
  unfolding lifecycle_rounds attempts
  rounds-StopAtSuccess [] l = refl
  rounds-StopAtSuccess (o ∷ os) l =
      let node =
        (lifecycle_tick interval timeout max_peers samples_max hz with_watchdog o.now o.start_cycle
          o.end_cycle l.node).1 in
      let l1 : Life A = record l { node = node } in
      let (echo, l') =
        echo_test interval timeout max_peers samples_max hz with_watchdog with_echo o l1 in
      let (shown, l'') =
        lifecycle_rounds interval timeout max_peers samples_max hz with_watchdog with_echo os l' in
      StopAtSuccess-round echo (attempts shown) l.echo_tested l'.echo_tested l''.echo_tested
        (echo_test-Added o l1) (rounds-StopAtSuccess os l')

  pub node-echo_test :
      (o : Outside) (l : Life A)
      → (echo_test interval timeout max_peers samples_max hz with_watchdog with_echo o l).1.node
        ≡ l.node
  unfolding echo_test
  node-echo_test o l =
      let peers = l.node.peers in
      let busy = with_echo && not l.echo_tested && ltb 0 (discovery_peer_count peers) in
      elim (Bool-cases busy) [
        | inr idle ↦ rw (idle, echo_test) refl
        | inl asks ↦
            elim (Ret-cases
              (service_find_peer max_peers peers (some echo_name) (some (replicate 16 0))).0) [
                | inr (e, f) ↦ rw (asks, f, echo_test) refl
                | inl f ↦ rw (asks, f, echo_test) refl
              ]
      ]

  tick_count-lifecycle_tick :
      (o : Outside) (l : Life A)
      → (lifecycle_tick interval timeout max_peers samples_max hz with_watchdog o.now o.start_cycle
          o.end_cycle l.node).1.tick_count
        ≡ l.node.tick_count + 1
  unfolding lifecycle_tick
  tick_count-lifecycle_tick o l = refl

  rounds-prints :
      (os : List Outside) (l : Life A)
      → let (shown, l') =
          lifecycle_rounds interval timeout max_peers samples_max hz with_watchdog with_echo os l in
        (prints shown + l.node.tick_count / 6 ≡ (l.node.tick_count + length os) / 6)
        × (l'.node.tick_count ≡ l.node.tick_count + length os)
  unfolding lifecycle_rounds prints
  rounds-prints [] l = (omega arith, omega arith)
  rounds-prints (o ∷ os) l =
      let node =
        (lifecycle_tick interval timeout max_peers samples_max hz with_watchdog o.now o.start_cycle
          o.end_cycle l.node).1 in
      let l1 : Life A = record l { node = node } in
      let l' =
        (echo_test interval timeout max_peers samples_max hz with_watchdog with_echo o l1).1 in
      let same : l'.node.tick_count ≡ node.tick_count =
        ap (λ (n : Node). n.tick_count) (node-echo_test o l1) in
      let ticked = tick_count-lifecycle_tick o l in
      let ih = rounds-prints os l' in
      (
        elim (Bool-cases (node.tick_count % stats_interval == 0)) [
          | inl due ↦ rw due (print_due l.node.tick_count _ _ _ _ due ticked same ih.0)
          | inr not_due ↦
              rw not_due (print_not_due l.node.tick_count _ _ _ _ not_due ticked same ih.0)
        ],
        omega (arith, ih.1, same, ticked),
      )

  length-rounds :
      (os : List Outside) (l : Life A)
      → length
          (lifecycle_rounds interval timeout max_peers samples_max hz with_watchdog with_echo os
            l).0
        ≡ length os
  unfolding lifecycle_rounds
  length-rounds [] l = refl
  length-rounds (o ∷ os) l = ap suc (
      length-rounds os
        (lifecycle_round interval timeout max_peers samples_max hz with_watchdog with_echo o l).1)

  -- Over any number of rounds of a node with an identity the loop sends echo requests until the first one
  -- that succeeds, none after it, and remembers whether there was one; it prints the statistics once
  -- for every six rounds; and it shows each round. Without an identity it returns and does nothing.
  pub lifecycle_run_lem :
      (id : CeellConfig) (os : List Outside) (l : Life A)
      → let run = lifecycle_run interval timeout max_peers samples_max hz with_watchdog with_echo in
        let (shown, l') = run (some id) os l in
        StopAtSuccess l.echo_tested (attempts shown) l'.echo_tested
        × (prints shown + l.node.tick_count / 6 ≡ (l.node.tick_count + length os) / 6)
        × (length shown ≡ length os)
        × (run none os l ≡ ([], l))
  unfolding lifecycle_run
  lifecycle_run_lem id os l =
      (rounds-StopAtSuccess os l, (rounds-prints os l).0, length-rounds os l, refl)
