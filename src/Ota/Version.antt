-- ===== src/Ota/Version.antt =====
-- ceell/ota/ota_version.c: versions "major.minor.patch".
-- `strtoul` is the C library's: blanks, a sign, then digits; a value above `ulong_max` saturates.
pub mod Order
pub mod Text
mod Tests
use ceell.Prelude.{
  ℕ, zero, suc, ◌+◌, ◌-◌, ◌*◌, ◌/◌, ◌%◌, ◌^◌, Bool, true, false, ◌&&◌, ◌||◌, Option, none, some,
  List, [], ◌∷◌, ◌++◌, if◌then◌else◌, ltb, leb, ◌==◌, length, take,
}
use ceell.Prelude.Int.{ℤ, pos, ◌-ℤ◌}
use ceell.Errno.{Ret, ok, err, einval}
use ceell.Bytes.{Bytes}

-- `struct ceell_ota_ver`
pub record OtaVer : Type 0 where
  pub major : ℕ
  pub minor : ℕ
  pub patch : ℕ

abbrev pub is_digit : ℕ → Bool
is_digit c = leb b'0' c && leb c b'9'

-- The blanks of the C locale: space and 9 to 13.
abbrev pub is_space : ℕ → Bool
is_space c = (c == 32) || (leb 9 c && leb c 13)

-- The value of the digits at the start, and what follows them.
unfoldable pub digits : ℕ → Bytes → ℕ × Bytes
digits acc [] = (acc, [])
digits acc (c ∷ cs) =
    let more = digits (acc * 10 + (c - b'0')) cs in if is_digit c then more else (acc, c ∷ cs)

abbrev pub starts_digit : Bytes → Bool
starts_digit [] = false
starts_digit (c ∷ cs) = is_digit c

-- A number above the range is the range's end; below a minus sign it is negated in the range.
unfoldable pub clamp_ulong : ℕ → Bool → ℕ → ℕ
clamp_ulong ulong_max minus n =
    if ltb ulong_max n
    then ulong_max
    else if minus
    then (ulong_max + 1 - n) % (ulong_max + 1)
    else n

-- `none` if there is no digit: `*end` is then the start of the text.
unfoldable pub read_digits : ℕ → Bool → Bytes → Option (ℕ × Bytes)
read_digits ulong_max minus s =
    let (n, rest) = digits 0 s in
    if starts_digit s then some (clamp_ulong ulong_max minus n, rest) else none

unfoldable pub read_sign : ℕ → Bytes → Option (ℕ × Bytes)
read_sign ulong_max [] = none
read_sign ulong_max (c ∷ cs) =
    if c == b'-'
    then read_digits ulong_max true cs
    else if c == b'+'
    then read_digits ulong_max false cs
    else read_digits ulong_max false (c ∷ cs)

-- `strtoul(s, &end, 10)`: the value and the text from `end` on.
unfoldable pub strtoul : ℕ → Bytes → Option (ℕ × Bytes)
strtoul ulong_max [] = none
strtoul ulong_max (c ∷ cs) =
    if is_space c then strtoul ulong_max cs else read_sign ulong_max (c ∷ cs)

infixl 5 ◌>>=◌
abbrev pub ◌>>=◌ {ℓ κ} : {A : Type ℓ} {B : Type κ} → Option A → (A → Option B) → Option B
none >>= f = none
some a >>= f = f a

-- The dot that must follow a part.
unfoldable pub expect_dot : Bytes → Option Bytes
expect_dot [] = none
expect_dot (c ∷ cs) = if c == b'.' then some cs else none

-- The three numbers of `ceell_ota_ver_parse`, in the `unsigned long` range.
unfoldable pub parse_parts : ℕ → Bytes → Option (ℕ × ℕ × ℕ)
parse_parts ulong_max str = do
  (major, rest) ← strtoul ulong_max str
  rest' ← expect_dot rest
  (minor, more) ← strtoul ulong_max rest'
  more' ← expect_dot more
  (patch, end) ← strtoul ulong_max more'
  some (major, minor, patch)

unfoldable pub check_parts : Option (ℕ × ℕ × ℕ) → Option OtaVer
check_parts none = none
check_parts (some (major, minor, patch)) =
    if ltb 255 major || (ltb 255 minor || ltb 65535 patch)
    then none
    else some (record { major = major; minor = minor; patch = patch })

-- `ceell_ota_ver_parse`: the version, or `none` for -EINVAL. `str` is a C string or NULL; what follows
-- the third number is not read.
unfoldable pub ver_parse : ℕ → Option Bytes → Option OtaVer
unfolding check_parts
ver_parse ulong_max none = none
ver_parse ulong_max (some str) = check_parts (parse_parts ulong_max str)

-- `ceell_ota_ver_cmp`: the difference of the first parts that differ, as an `int`.
unfoldable pub ver_cmp : OtaVer → OtaVer → ℤ
ver_cmp a b =
    if a.major == b.major
    then if a.minor == b.minor then pos a.patch -ℤ pos b.patch else pos a.minor -ℤ pos b.minor
    else pos a.major -ℤ pos b.major

-- `%u`: the decimal digits of a number; the fuel is the number of digits, ten for an `unsigned`.
unfoldable pub decimal : ℕ → ℕ → Bytes
decimal zero n = []
decimal (suc fuel) n =
    let rest = decimal fuel (n / 10) in
    if ltb n 10 then (n + b'0') ∷ [] else rest ++ (((n % 10) + b'0') ∷ [])

-- `"%u.%u.%u"`
unfoldable pub ver_text : OtaVer → Bytes
ver_text v = decimal 10 v.major ++ (b'.' ∷ (decimal 10 v.minor ++ (b'.' ∷ decimal 10 v.patch)))

-- `ceell_ota_ver_to_str`: the text that fits `len` bytes with its NUL, and the length of the whole text,
-- which `snprintf` returns.
unfoldable pub ver_to_str : OtaVer → ℕ → ℕ × Bytes
ver_to_str v len = (length (ver_text v), take (len - 1) (ver_text v))
