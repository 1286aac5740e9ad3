-- ===== src/Discovery/Expiry.antt =====
-- What `ceell_discovery_expire_peers` keeps: exactly the peers heard within the timeout.
use native.Mathlib.Numerals.{add-one}
use ceell.Prelude.{
  ℕ, zero, suc, ◌+◌, ◌-◌, ◌<◌, ◌≤◌, ◌≡◌, refl, sym, ap, ◌∙◌, inl, inr, Bool, true, false, not, ◌&&◌,
  List, [], ◌∷◌, ◌++◌, arith, length, take, drop, drop_split, get_or, set, length-set,
  if◌then◌else◌, ltb, Bool-cases,
}
use ceell.Discovery.{Peer, Peers, zero_peer, is_stale, expire_loop, expire_peers}
use ceell.Discovery.Table.{contents}

-- How many entries pass the test. Two lists that agree for every test hold the same entries as often.
unfoldable pub tally {ℓ} : {A : Type ℓ} → (A → Bool) → List A → ℕ
tally q [] = 0
tally q (x ∷ xs) = (if q x then 1 else 0) + tally q xs

tally-append {ℓ} :
    {A : Type ℓ} (q : A → Bool) (xs ys : List A) → tally q (xs ++ ys) ≡ tally q xs + tally q ys
unfolding tally
tally-append q [] ys = omega arith
tally-append q (x ∷ xs) ys = omega (arith, tally-append q xs ys)

module _ {ℓ} {A : Type ℓ} (d : A) where
  take_last :
      (n : ℕ) (xs : List A) → n < length xs → take (suc n) xs ≡ take n xs ++ (get_or xs n d ∷ [])
  take_last n [] h = absurd (omega arith)
  take_last zero (x ∷ xs) h = refl
  take_last (suc n) (x ∷ xs) h = ap (◌∷◌ x) (take_last n xs (omega arith))

  drop-set :
      (i : ℕ) (xs : List A) (v : A) → i < length xs → drop i (set xs i v) ≡ v ∷ drop (suc i) xs
  drop-set i [] v h = absurd (omega arith)
  drop-set zero (x ∷ xs) v h = refl
  drop-set (suc i) (x ∷ xs) v h = drop-set i xs v (omega arith)

  take-set_self : (i : ℕ) (xs : List A) (v : A) → take i (set xs i v) ≡ take i xs
  take-set_self zero xs v = refl
  take-set_self (suc i) [] v = refl
  take-set_self (suc i) (x ∷ xs) v = ap (◌∷◌ x) (take-set_self i xs v)

  get_or-drop : (i k : ℕ) (xs : List A) → get_or (drop i xs) k d ≡ get_or xs (i + k) d
  get_or-drop zero k xs = ap (λ j. get_or xs j d) (omega arith)
  get_or-drop (suc i) k [] = refl
  get_or-drop (suc i) k (x ∷ xs) =
      get_or-drop i k xs ∙ ap (λ j. get_or (x ∷ xs) j d) {x = suc (i + k)} (omega arith)

  length-drop_lt : (i k : ℕ) (xs : List A) → i + k < length xs → k < length (drop i xs)
  length-drop_lt zero k xs h = omega arith
  length-drop_lt (suc i) k [] h = absurd (omega arith)
  length-drop_lt (suc i) k (x ∷ xs) h = length-drop_lt i k xs (omega arith)

-- Swapping the last entry into the place of the one that goes: what follows is the same multiset.
moved :
    (r : Peer → Bool) (f i last : ℕ) (ps : List Peer)
    → last ≡ i + f
    → last < length ps
    → let ps' = if ltb i last then set ps i (get_or ps last zero_peer) else ps in
      (tally r (take f (drop i ps')) ≡ tally r (take f (drop (suc i) ps)))
      × (take i ps' ≡ take i ps)
      × (length ps' ≡ length ps)
unfolding tally
moved r zero i last ps e h =
    let t : ltb i last ≡ false = ground (arith, e) in rw t (refl, refl, refl)
moved r (suc g) i last ps e h =
    let t : ltb i last ≡ true = ground (arith, e) in
    let v = get_or ps last zero_peer in
    let rest = drop (suc i) ps in
    let same : get_or rest g zero_peer ≡ v =
      get_or-drop zero_peer (suc i) g ps ∙ ap (λ j. get_or ps j zero_peer) (omega (arith, e)) in
    rw t (
      rw (drop-set zero_peer i ps v (omega arith)) (
          rw
            (
              take_last zero_peer g rest (length-drop_lt zero_peer (suc i) g ps (omega arith)),
              tally-append r (take g rest) (get_or rest g zero_peer ∷ []),
              same,
            )
            (omega arith)),
      take-set_self zero_peer i ps v,
      length-set ps i v,
    )

module _ (timeout now : ℕ) where
  abbrev pub fresh_and : (Peer → Bool) → Peer → Bool
  fresh_and q p = q p && not (is_stale timeout now p)

  seen_first : (n a b c d e : ℕ) → n ≡ a + b → a ≡ c + d → e ≡ d + b → n ≡ c + e
  seen_first n a b c d e h k l = omega (arith, h, k, l)

  module _ (q : Peer → Bool) (x : Peer) (xs : List Peer) where
    stale_gone :
        is_stale timeout now x ≡ true → tally (fresh_and q) (x ∷ xs) ≡ tally (fresh_and q) xs
    unfolding tally
    stale_gone stale = elim (Bool-cases (q x)) [
      | inl y ↦ rw (y, stale) (omega arith)
      | inr n ↦ rw n (omega arith)
    ]

    fresh_stays :
        is_stale timeout now x ≡ false
        → tally (fresh_and q) (x ∷ xs) ≡ tally q (x ∷ []) + tally (fresh_and q) xs
    unfolding tally
    fresh_stays fresh = elim (Bool-cases (q x)) [
      | inl y ↦ rw (y, fresh) (omega arith)
      | inr n ↦ rw n (omega arith)
    ]

  abbrev shrunk : ℕ → Peers → Peers
  shrunk i s =
      let last = s.peer_count - 1 in
      record {
        peers = if ltb i last then set s.peers i (get_or s.peers last zero_peer) else s.peers;
        peer_count = last;
      }

  module _ (f i : ℕ) (s : Peers) (expired : ℕ) (t : ltb i s.peer_count ≡ true) where
    stale_step :
        is_stale timeout now (get_or s.peers i zero_peer) ≡ true
        → expire_loop (suc f) timeout now i s expired
          ≡ expire_loop f timeout now i (shrunk i s) (expired + 1)
    unfolding expire_loop
    stale_step stale = rw (t, stale, expire_loop) refl

    fresh_step :
        is_stale timeout now (get_or s.peers i zero_peer) ≡ false
        → expire_loop (suc f) timeout now i s expired ≡ expire_loop f timeout now (i + 1) s expired
    unfolding expire_loop
    fresh_step fresh = rw (t, fresh, expire_loop) refl

  -- What the loop makes of the table, from index `i` on with `f` entries to look at.
  record Expired (q : Peer → Bool) (i f : ℕ) (s : Peers) (expired : ℕ) (out : ℕ × Peers)
      : Type 0 where
    kept :
        tally q (contents out.1)
        ≡ tally q (take i s.peers) + tally (fresh_and q) (take f (drop i s.peers))
    counted : out.0 + out.1.peer_count ≡ expired + s.peer_count
    same_size : length out.1.peers ≡ length s.peers
    fewer : out.1.peer_count ≤ s.peer_count

  expire_loop-Expired :
      (q : Peer → Bool) (f i : ℕ) (s : Peers) (expired : ℕ)
      → i + f ≡ s.peer_count
      → s.peer_count ≤ length s.peers
      → Expired q i f s expired (expire_loop f timeout now i s expired)
  unfolding expire_loop
  expire_loop-Expired q zero i s expired e h =
      let n : s.peer_count ≡ i = omega (arith, e) in
      record {
        kept = rw n (none_left (drop i s.peers));
        counted = refl;
        same_size = refl;
        fewer = omega arith;
      }
    where
      none_left :
          (ps : List Peer)
          → tally q (take i s.peers) ≡ tally q (take i s.peers) + tally (fresh_and q) []
      none_left ps = unfold tally in (omega arith)
  expire_loop-Expired q (suc f) i s expired e h =
      let x = get_or s.peers i zero_peer in
      let t : ltb i s.peer_count ≡ true = ground (arith, e) in
      let split = drop_split i s.peers zero_peer (omega (arith, e, h)) in
      let m = λ (r : Peer → Bool).
        moved r f i (s.peer_count - 1) s.peers (omega (arith, e)) (omega (arith, e, h)) in
      elim (Bool-cases (is_stale timeout now x)) [
        | inl stale ↦
            let ih =
              expire_loop-Expired q f i (shrunk i s) (expired + 1) (omega (arith, e))
                (omega (arith, e, h, (m q).2)) in
            let gone : tally (fresh_and q) (take (suc f) (drop i s.peers))
                ≡ tally (fresh_and q) (take f (drop (suc i) s.peers)) =
              rw split (stale_gone q x (take f (drop (suc i) s.peers)) stale) in
            rw (stale_step f i s expired t stale) (record {
              kept =
                  ih.kept
                  ∙ ap (λ ps. tally q ps + tally (fresh_and q) (take f (drop i (shrunk i s).peers)))
                      (m q).1
                  ∙ ap (◌+◌ (tally q (take i s.peers))) ((m (fresh_and q)).0 ∙ sym gone);
              counted = omega (arith, ih.counted, e);
              same_size = ih.same_size ∙ (m q).2;
              fewer = omega (arith, ih.fewer);
            })
        | inr fresh ↦
            let ih = expire_loop-Expired q f (i + 1) s expired (omega (arith, e)) h in
            let stays : tally (fresh_and q) (take (suc f) (drop i s.peers))
                ≡ tally q (x ∷ []) + tally (fresh_and q) (take f (drop (i + 1) s.peers)) =
              rw (add-one, split) (fresh_stays q x (take f (drop (suc i) s.peers)) fresh) in
            let longer : tally q (take (i + 1) s.peers)
                ≡ tally q (take i s.peers) + tally q (x ∷ []) =
              rw (add-one, take_last zero_peer i s.peers (omega (arith, e, h)))
                (tally-append q (take i s.peers) (x ∷ [])) in
            rw (fresh_step f i s expired t fresh) (record {
              kept = seen_first _ _ _ _ _ _ ih.kept longer stays;
              counted = ih.counted;
              same_size = ih.same_size;
              fewer = ih.fewer;
            })
      ]

-- After a sweep the table holds, as often as before, exactly the peers that were heard within the
-- timeout: no fresh peer is lost or doubled when the last entry moves into a gap, and no stale one stays.
-- The returned number is how many went.
pub expire_peers_lem :
    (timeout now : ℕ) (s : Peers)
    → s.peer_count ≤ length s.peers
    → ((q : Peer → Bool)
        → tally q (contents (expire_peers timeout now s).1)
          ≡ tally (λ p. q p && not (is_stale timeout now p)) (contents s))
      × ((expire_peers timeout now s).0 + (expire_peers timeout now s).1.peer_count ≡ s.peer_count)
      × (length (expire_peers timeout now s).1.peers ≡ length s.peers)
unfolding expire_peers tally
expire_peers_lem timeout now s h =
    let all =
      λ (q : Peer → Bool). expire_loop-Expired timeout now q s.peer_count 0 s 0 (omega arith) h in
    let any = all (λ p. true) in
    (λ q. omega (arith, (all q).kept), omega (arith, any.counted), any.same_size)
