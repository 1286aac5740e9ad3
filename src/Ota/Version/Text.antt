-- ===== src/Ota/Version/Text.antt =====
-- Printing a version and parsing it again.
use ceell.Prelude.{
  ◌==◌, ℕ, zero, suc, ◌+◌, ◌*◌, ◌/◌, ◌%◌, ◌<◌, ◌≤◌, ◌≡◌, refl, ap, ◌∙◌, true, false, some, [], ◌∷◌,
  ◌++◌, arith, append_assoc, Bool-cases, inl, inr, ltb,
}
use ceell.Bytes.{Bytes}
use ceell.Ota.Version.{
  OtaVer, is_digit, is_space, digits, starts_digit, clamp_ulong, read_digits, read_sign, strtoul,
  expect_dot, parse_parts, ver_parse, decimal, ver_text,
}
use ceell.Ota.Version.Order.{IsVersion}

abbrev pow10 : ℕ → ℕ
pow10 zero = 1
pow10 (suc f) = 10 * pow10 f

fuel_left : (f n : ℕ) → ltb n 10 ≡ false → n < pow10 (suc f) → 0 < f
fuel_left zero n large h = ground (arith, large, h)
fuel_left (suc f) n large h = omega arith

step_digit : (n : ℕ) (rest : Bytes) → digits (n / 10) ((n % 10 + b'0') ∷ rest) ≡ digits n rest
unfolding digits
step_digit n rest =
    let t : is_digit (n % 10 + b'0') ≡ true = ground arith in
    rw t (ap (λ k. digits k rest) (omega arith))

-- The digits of a number are read back, up to what follows them.
digits-decimal :
    (f n : ℕ) (rest : Bytes) → n < pow10 f → 0 < f → digits 0 (decimal f n ++ rest) ≡ digits n rest
unfolding digits decimal
digits-decimal zero n rest h p = absurd (omega arith)
digits-decimal (suc f) n rest h p = elim (Bool-cases (ltb n 10)) [
  | inl small ↦ rw small (ground (arith, small))
  | inr large ↦ rw large (
      rw (append_assoc (decimal f (n / 10)) ((n % 10 + b'0') ∷ []) rest) (
        digits-decimal f (n / 10) ((n % 10 + b'0') ∷ rest) (omega arith) (fuel_left f n large h)
        ∙ step_digit n rest))
]

-- A printed number starts with a digit.
decimal_starts :
    (f n : ℕ) (rest : Bytes) → n < pow10 f → 0 < f → starts_digit (decimal f n ++ rest) ≡ true
unfolding decimal
decimal_starts zero n rest h p = absurd (omega arith)
decimal_starts (suc f) n rest h p = elim (Bool-cases (ltb n 10)) [
  | inl small ↦ rw small (ground (arith, small))
  | inr large ↦ rw large (
      rw (append_assoc (decimal f (n / 10)) ((n % 10 + b'0') ∷ []) rest)
        (decimal_starts f (n / 10) ((n % 10 + b'0') ∷ rest) (omega arith) (fuel_left f n large h)))
]

digits_stop : (n : ℕ) (rest : Bytes) → starts_digit rest ≡ false → digits n rest ≡ (n, rest)
unfolding digits
digits_stop n [] h = refl
digits_stop n (c ∷ cs) h = rw h

-- `strtoul` reads a printed number in its range and stops behind it.
strtoul-digits :
    (ulong_max n : ℕ) (s rest : Bytes)
    → starts_digit s ≡ true
    → digits 0 s ≡ (n, rest)
    → n ≤ ulong_max
    → strtoul ulong_max s ≡ some (n, rest)
unfolding strtoul read_sign read_digits clamp_ulong
strtoul-digits ulong_max n [] rest h e le = cc
strtoul-digits ulong_max n (c ∷ cs) rest h e le =
    let blank : is_space c ≡ false = ground (arith, h) in
    let minus : (c == b'-') ≡ false = ground (arith, h) in
    let plus : (c == b'+') ≡ false = ground (arith, h) in
    rw (blank, minus, plus, h, e) (ground (arith, le))

strtoul-decimal :
    (ulong_max n : ℕ) (rest : Bytes)
    → n < pow10 10
    → n ≤ ulong_max
    → starts_digit rest ≡ false
    → strtoul ulong_max (decimal 10 n ++ rest) ≡ some (n, rest)
strtoul-decimal ulong_max n rest h le stop =
    strtoul-digits ulong_max n (decimal 10 n ++ rest) rest
      (decimal_starts 10 n rest h (omega arith))
      (digits-decimal 10 n rest h (omega arith) ∙ digits_stop n rest stop) le

ver_text-append :
    (v : OtaVer) (rest : Bytes)
    → ver_text v ++ rest
      ≡ decimal 10 v.major ++ (b'.' ∷ (decimal 10 v.minor ++ (b'.' ∷ (decimal 10 v.patch ++ rest))))
unfolding ver_text
ver_text-append v rest =
    append_assoc (decimal 10 v.major) (b'.' ∷ (decimal 10 v.minor ++ (b'.' ∷ decimal 10 v.patch)))
      rest
    ∙ ap (λ t. decimal 10 v.major ++ (b'.' ∷ t))
        (append_assoc (decimal 10 v.minor) (b'.' ∷ decimal 10 v.patch) rest)

-- A printed version parses to itself, also where something that is no digit follows: what stands
-- behind the third number is ignored.
pub ver_parse-ver_text :
    (ulong_max : ℕ) (v : OtaVer) (rest : Bytes)
    → IsVersion v
    → 65535 ≤ ulong_max
    → starts_digit rest ≡ false
    → ver_parse ulong_max (some (ver_text v ++ rest)) ≡ some v
unfolding ver_parse parse_parts expect_dot
ver_parse-ver_text ulong_max v rest h le stop =
    rw
      (
        ver_text-append v rest,
        strtoul-decimal ulong_max v.major
            (b'.' ∷ (decimal 10 v.minor ++ (b'.' ∷ (decimal 10 v.patch ++ rest))))
            (omega (arith, h.major_in)) (omega (arith, h.major_in)) refl,
        strtoul-decimal ulong_max v.minor (b'.' ∷ (decimal 10 v.patch ++ rest))
            (omega (arith, h.minor_in)) (omega (arith, h.minor_in)) refl,
        strtoul-decimal ulong_max v.patch rest (omega (arith, h.patch_in))
            (omega (arith, h.patch_in)) stop,
      )
      (ground (arith, h))
