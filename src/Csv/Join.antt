-- ===== src/Csv/Join.antt =====
-- The words of a joined list of names, and a round of the token loop at one of them.
use ceell.Prelude.{
  ℕ, zero, suc, ◌<◌, ◌≤◌, ◌≡◌, ◌≢◌, refl, ap, Bool, true, false, Option, none, some, List, [], ◌∷◌,
  ◌++◌, arith, length, take, All, length-append, ◌||◌,
}
use ceell.Bytes.{Bytes, cstr, bytes_eq, eq_length_first}
use ceell.Csv.{comma, strchr, at_char, token_len, skip_comma, csv_loop, join}

-- A name with no NUL and no comma, and at least one character.
abbrev pub IsPlain : Bytes → Type 0
IsPlain n = All (λ c. (0 < c) × (c ≢ comma)) n × (0 < length n)

abbrev pub IsText : Bytes → Type 0
IsText n = All (λ c. (0 < c) × (c ≢ comma)) n

pub cstr_plain : (n : Bytes) → IsText n → cstr n ≡ n
unfolding cstr
cstr_plain [] h = refl
cstr_plain (zero ∷ n) h = absurd (omega arith)
cstr_plain (suc c ∷ n) h = ap (◌∷◌ (suc c)) (cstr_plain n h.1)

pub strchr-none : (n : Bytes) → IsText n → strchr n comma ≡ none
unfolding strchr
strchr-none [] h = refl
strchr-none (zero ∷ n) h = refl
strchr-none (suc c ∷ n) h = ground (arith, strchr-none n h.1)

pub strchr-comma : (n r : Bytes) → IsText n → strchr (n ++ (comma ∷ r)) comma ≡ some (comma ∷ r)
unfolding strchr
strchr-comma [] r h = refl
strchr-comma (zero ∷ n) r h = absurd (omega arith)
strchr-comma (suc c ∷ n) r h = ground (arith, strchr-comma n r h.1)

pub take_prefix : (n r : Bytes) → take (length n) (n ++ r) ≡ n
take_prefix [] r = refl
take_prefix (c ∷ n) r = ap (◌∷◌ c) (take_prefix n r)

pub at_char_plain : (n r : Bytes) → IsPlain n → at_char (n ++ r) ≡ true
at_char_plain [] r h = absurd (omega arith)
at_char_plain (zero ∷ n) r h = absurd (omega arith)
at_char_plain (suc c ∷ n) r h = refl

pub loop_step :
    (fuel : ℕ) (p n name : Bytes) (found : Option Bytes)
    → at_char p ≡ true
    → strchr p comma ≡ found
    → token_len p found ≡ length n
    → take (length n) p ≡ n
    → IsPlain name
    → csv_loop (suc fuel) p name ≡ elim (bytes_eq n name) [
      | true ↦ true
      | false ↦ elim found [ none ↦ false | some rest ↦ csv_loop fuel (skip_comma rest) name ]
    ]
unfolding csv_loop
loop_step fuel p n name found a e l t k =
    rw (a, e, csv_loop) (rw (l, t, cstr_plain name k.0) (ground (arith, e, eq_length_first n name)))

pub or_false : (b : Bool) → (b || false) ≡ b
or_false true = refl
or_false false = refl

pub loop_more :
    (fuel : ℕ) (n r name : Bytes)
    → IsPlain n
    → IsPlain name
    → csv_loop (suc fuel) (n ++ (comma ∷ r)) name
      ≡ elim (bytes_eq n name) [ true ↦ true | false ↦ csv_loop fuel r name ]
loop_more fuel n r name h k =
    loop_step fuel (n ++ (comma ∷ r)) n name (some (comma ∷ r)) (at_char_plain n _ h)
      (strchr-comma n r h.0) (omega (arith, length-append n (comma ∷ r))) (take_prefix n _) k

-- Some listed name is `name`.
unfoldable pub any_eq : Bytes → List Bytes → Bool
any_eq name [] = false
any_eq name (n ∷ ns) = bytes_eq n name || any_eq name ns

pub length-join : (ns : List Bytes) → All IsPlain ns → length ns ≤ length (join ns)
unfolding join
length-join [] h = omega arith
length-join (n ∷ []) h = omega arith
length-join (n ∷ (m ∷ ns)) h =
    omega (arith, length-append n (comma ∷ join (m ∷ ns)), length-join (m ∷ ns) h.1)
