-- ===== src/Discovery/Services.antt =====
-- Finding a peer by what it announced: ceell/network/service_discovery.c on the table of discovery.c.
use native.Mathlib.Numerals.{add-one}
use ceell.Prelude.{
  ℕ, zero, suc, ◌+◌, ◌-◌, ◌≤◌, ◌≡◌, refl, sym, ap, ◌∙◌, Option, none, some, List, [], ◌∷◌, ◌++◌,
  arith, length, All, replicate, append_assoc, length-append,
}
use ceell.Bytes.{Bytes, strncpy, copy_if, bytes_eq}
use ceell.Bytes.Copy.{NoNul, cstr-append_nul}
use ceell.Csv.{comma, strchr, csv_loop, csv_contains, join}
use ceell.Csv.Join.{
  IsPlain, IsText, any_eq, loop_step, loop_more, or_false, at_char_plain, take_prefix, length-join,
}
use ceell.Registry.Names.{NoNul-join}
use ceell.Discovery.{zero_peer}

-- An array of a new peer holds the text and then NULs.
strncpy-replicate_nil : (n m : ℕ) → strncpy (replicate m 0) [] n ≡ replicate m 0
unfolding strncpy
strncpy-replicate_nil zero m = refl
strncpy-replicate_nil (suc n) zero = refl
strncpy-replicate_nil (suc n) (suc m) = ap (◌∷◌ 0) (strncpy-replicate_nil n m)

strncpy-replicate :
    (src : Bytes) (n m d : ℕ)
    → NoNul src
    → length src ≤ n
    → m ≡ length src + d
    → strncpy (replicate m 0) src n ≡ src ++ replicate d 0
unfolding strncpy
strncpy-replicate [] n m d h l e = strncpy-replicate_nil n m ∙ ap (λ k. replicate k 0) (omega arith)
strncpy-replicate (zero ∷ src) n m d h l e = absurd (omega (arith, h.0))
strncpy-replicate (suc c ∷ src) zero m d h l e = absurd (omega arith)
strncpy-replicate (suc c ∷ src) (suc n) zero d h l e = absurd (omega arith)
strncpy-replicate (suc c ∷ src) (suc n) (suc m) d h l e =
    ap (◌∷◌ (suc c)) (strncpy-replicate src n m d h.1 (omega arith) (omega arith))

NoNul-text : (n : Bytes) → IsText n → NoNul n
NoNul-text [] h = tt
NoNul-text (c ∷ n) h = (h.0.0, NoNul-text n h.1)

strchr-nul : (n zs : Bytes) → IsText n → strchr (n ++ (0 ∷ zs)) comma ≡ none
unfolding strchr
strchr-nul [] zs h = refl
strchr-nul (zero ∷ n) zs h = refl
strchr-nul (suc c ∷ n) zs h = ground (arith, strchr-nul n zs h.1)

loop_last_nul :
    (fuel : ℕ) (n zs name : Bytes)
    → IsPlain n
    → IsPlain name
    → csv_loop (suc fuel) (n ++ (0 ∷ zs)) name ≡ bytes_eq n name
loop_last_nul fuel n zs name h k = ground (
  arith,
  loop_step fuel (n ++ (0 ∷ zs)) n name none (at_char_plain n (0 ∷ zs) h) (strchr-nul n zs h.0)
      (ap length (cstr-append_nul n zs (NoNul-text n h.0))) (take_prefix n (0 ∷ zs)) k,
)

-- The names joined in an array, which ends in NULs.
loop-join_nul :
    (ns : List Bytes) (zs name : Bytes) (fuel : ℕ)
    → All IsPlain ns
    → IsPlain name
    → length ns ≤ suc fuel
    → csv_loop (suc fuel) (join ns ++ (0 ∷ zs)) name ≡ any_eq name ns
unfolding join any_eq csv_loop
loop-join_nul [] zs name fuel h k le = refl
loop-join_nul (n ∷ []) zs name fuel h k le =
    loop_last_nul fuel n zs name h.0 k ∙ sym (or_false (bytes_eq n name))
loop-join_nul (n ∷ m ∷ ns) zs name zero h k le = absurd (omega arith)
loop-join_nul (n ∷ m ∷ ns) zs name (suc fuel) h k le = ground (
  arith,
  append_assoc n (comma ∷ join (m ∷ ns)) (0 ∷ zs),
  loop_more (suc fuel) n (join (m ∷ ns) ++ (0 ∷ zs)) name h.0 k,
  loop-join_nul (m ∷ ns) zs name fuel h.1 k (omega arith),
)

pub All-NoNul : (ns : List Bytes) → All IsPlain ns → All NoNul ns
All-NoNul [] h = tt
All-NoNul (n ∷ ns) h = (NoNul-text n h.0.0, All-NoNul ns h.1)

pub csv_contains-join_nul :
    (ns : List Bytes) (zs service : Bytes)
    → All IsPlain ns
    → IsPlain service
    → csv_contains (join ns ++ (0 ∷ zs)) service ≡ any_eq service ns
unfolding csv_contains
csv_contains-join_nul ns zs service h k = rw add-one (
    loop-join_nul ns zs service (length (join ns ++ (0 ∷ zs))) h k
      (omega (arith, length-join ns h, length-append (join ns) (0 ∷ zs))))

-- An array of services filled from a message names just what was announced.
pub csv_contains-announced :
    (ns : List Bytes) (services : Option Bytes) (service : Bytes)
    → All IsPlain ns
    → IsPlain service
    → length (join ns) ≤ 127
    → services ≡ some (join ns)
    → csv_contains (copy_if 128 zero_peer.services services) service ≡ any_eq service ns
csv_contains-announced ns none service h k l e = ground (arith, e)
csv_contains-announced ns (some t) service h k l e =
    ap (λ a. csv_contains (copy_if 128 zero_peer.services a) service) e
    ∙ ap (λ a. csv_contains a service)
        (strncpy-replicate (join ns) 127 128 (suc (127 - length (join ns)))
          (NoNul-join ns (All-NoNul ns h)) l (omega arith))
    ∙ csv_contains-join_nul ns (replicate (127 - length (join ns)) 0) service h k
