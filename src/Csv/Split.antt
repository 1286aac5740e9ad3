-- ===== src/Csv/Split.antt =====
-- `csv_contains` of ceell/network/service_discovery.c against a definition that splits the text at its commas.
use ceell.Prelude.{
  ℕ, zero, suc, ◌+◌, ◌-◌, ◌<◌, ◌≤◌, ◌≡◌, refl, sym, ap, subst, ◌∙◌, Bool, true, false, ◌&&◌, Option,
  none, some, List, [], ◌∷◌, ◌++◌, if◌then◌else◌, ◌==◌, ==_iff, arith, length, take, ◌⊎◌, inl, inr,
  Bool-cases, length-append,
}
use ceell.Bytes.{Bytes, cstr, strlen, bytes_eq, eq_length_first}
use ceell.Csv.{comma, strchr, at_char, token_len, skip_comma, csv_loop, csv_contains}
use ceell.Csv.Join.{any_eq, take_prefix}

abbrev pub put_first : ℕ → List Bytes → List Bytes
put_first c [] = (c ∷ []) ∷ []
put_first c (w ∷ ws) = (c ∷ w) ∷ ws

-- What stands between the commas of a text; behind a last comma there is nothing.
unfoldable pub words : Bytes → List Bytes
words [] = []
words (c ∷ cs) = if c == comma then [] ∷ words cs else put_first c (words cs)

abbrev only : Bytes → List Bytes
only [] = []
only (c ∷ cs) = (c ∷ cs) ∷ []

-- The first word of the string at `p`, and what is behind its comma.
record First (p w rest : Bytes) : Type 0 where
  found : strchr p comma ≡ some (comma ∷ rest)
  whole : p ≡ w ++ (comma ∷ rest)
  split : words (cstr p) ≡ w ∷ words (cstr rest)
  shorter : length (cstr rest) < length (cstr p)

put_first-only : (c : ℕ) (t : Bytes) → put_first c (only t) ≡ (c ∷ t) ∷ []
put_first-only c [] = refl
put_first-only c (d ∷ t) = refl

split_cases :
    (p : Bytes)
    → ((strchr p comma ≡ none) × (words (cstr p) ≡ only (cstr p)))
      ⊎ ((w : Bytes) × (rest : Bytes) × First p w rest)
unfolding strchr words cstr
split_cases [] = inl (refl, refl)
split_cases (zero ∷ p) = inl (refl, refl)
split_cases (suc c ∷ p) = elim (Bool-cases (suc c == comma)) [
  | inl hit ↦ inr (
    [],
    p,
    record {
      found = rw hit (ap (λ d. some (d ∷ p)) ((==_iff (suc c) comma).0 hit));
      whole = ap (λ d. d ∷ p) ((==_iff (suc c) comma).0 hit);
      split = rw hit refl;
      shorter = omega arith;
    },
  )
  | inr miss ↦ elim (split_cases p) [
    | inl (n, s) ↦
        inl (rw miss n, rw miss (ap (put_first (suc c)) s ∙ put_first-only (suc c) (cstr p)))
    | inr (w, rest, f) ↦ inr (
      suc c ∷ w,
      rest,
      record {
        found = rw miss f.found;
        whole = ap (◌∷◌ (suc c)) f.whole;
        split = rw miss (ap (put_first (suc c)) f.split);
        shorter = omega (arith, f.shorter);
      },
    )
  ]
]

-- The token that is compared, and the two comparisons as one.
compared :
    (w p name : Bytes)
    → take (length w) p ≡ w
    → ((length w == strlen name) && bytes_eq (take (length w) p) (cstr name))
      ≡ bytes_eq w (cstr name)
compared w p name e = rw e (eq_length_first w (cstr name))

pub cstr-le : (p : Bytes) → length (cstr p) ≤ length p
unfolding cstr
cstr-le [] = omega arith
cstr-le (zero ∷ p) = omega arith
cstr-le (suc c ∷ p) = omega (arith, cstr-le p)

take-cstr : (p : Bytes) → take (length (cstr p)) p ≡ cstr p
unfolding cstr
take-cstr [] = refl
take-cstr (zero ∷ p) = refl
take-cstr (suc c ∷ p) = ap (◌∷◌ (suc c)) (take-cstr p)

at_char-false : (p : Bytes) → at_char p ≡ false → cstr p ≡ []
unfolding cstr
at_char-false [] e = refl
at_char-false (zero ∷ p) e = refl
at_char-false (suc c ∷ p) e = cc

at_char-true : (p : Bytes) → at_char p ≡ true → only (cstr p) ≡ cstr p ∷ []
unfolding cstr
at_char-true [] e = cc
at_char-true (zero ∷ p) e = cc
at_char-true (suc c ∷ p) e = refl

-- A round of the loop at the word `w`.
loop_word :
    (fuel : ℕ) (p w name : Bytes) (found : Option Bytes) (b : Bool)
    → at_char p ≡ true
    → strchr p comma ≡ found
    → token_len p found ≡ length w
    → take (length w) p ≡ w
    → bytes_eq w (cstr name) ≡ b
    → csv_loop (suc fuel) p name ≡ elim b [
      | true ↦ true
      | false ↦ elim found [ none ↦ false | some rest ↦ csv_loop fuel (skip_comma rest) name ]
    ]
unfolding csv_loop
loop_word fuel p w name found true more f len t e =
    rw (more, f, len, compared w p name t, e, csv_loop) refl
loop_word fuel p w name found false more f len t e =
    rw (more, f, len, compared w p name t, e, csv_loop) (rw f refl)

-- With fuel for every word the loop looks for the name among the words.
csv_loop-words :
    (fuel : ℕ) (p name : Bytes)
    → length (cstr p) < fuel
    → csv_loop fuel p name ≡ any_eq (cstr name) (words (cstr p))
unfolding csv_loop any_eq words
csv_loop-words zero p name h = absurd (omega arith)
csv_loop-words (suc fuel) p name h = elim (Bool-cases (at_char p)) [
  | inr end ↦
      rw (end, csv_loop) (ap (λ t. any_eq (cstr name) (words t)) (sym (at_char-false p end)))
  | inl more ↦ elim (split_cases p) [
    | inl (n, s) ↦ elim (Bool-cases (bytes_eq (cstr p) (cstr name))) [
      | inl y ↦
          loop_word fuel p (cstr p) name none true more n refl (take-cstr p) y
          ∙ sym (rw (s, at_char-true p more, y) refl)
      | inr y ↦
          loop_word fuel p (cstr p) name none false more n refl (take-cstr p) y
          ∙ sym (rw (s, at_char-true p more, y) refl)
    ]
    | inr (w, rest, f) ↦
        let len : length p - length (comma ∷ rest) ≡ length w =
          omega (arith, ap length f.whole, length-append w (comma ∷ rest)) in
        let t : take (length w) p ≡ w =
          subst (λ q. take (length w) q ≡ w) (sym f.whole) (take_prefix w (comma ∷ rest)) in
        elim (Bool-cases (bytes_eq w (cstr name))) [
          | inl y ↦
              loop_word fuel p w name (some (comma ∷ rest)) true more f.found len t y
              ∙ sym (rw (f.split, y) refl)
          | inr y ↦
              loop_word fuel p w name (some (comma ∷ rest)) false more f.found len t y
              ∙ csv_loop-words fuel rest name (omega (arith, f.shorter))
              ∙ sym (rw (f.split, y) refl)
        ]
  ]
]

-- For every text and every name the loop finds the name exactly if it is one of the words between the
-- commas, with any fuel above the length of the text: so `csv_contains`, which gives enough, ends by the
-- loop's own test.
pub csv_contains-words :
    (csv name : Bytes) (fuel : ℕ)
    → length (cstr csv) < fuel
    → (csv_contains csv name ≡ any_eq (cstr name) (words (cstr csv)))
      × (csv_loop fuel csv name ≡ csv_contains csv name)
unfolding csv_contains
csv_contains-words csv name fuel h =
    let enough = csv_loop-words (length csv + 1) csv name (omega (arith, cstr-le csv)) in
    (enough, csv_loop-words fuel csv name h ∙ sym enough)
