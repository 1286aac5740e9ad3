-- ===== src/Bytes.antt =====
-- C strings: a character array is the list of its bytes, and a string is what stands before the
-- first NUL. `strlen`, `strcmp`, `strncpy`, `memcpy` and `strchr` of the C library, as the code of
-- ceell/ uses them.
pub mod Copy
use ceell.Prelude.{
  ℕ, zero, suc, ◌-◌, ◌≡◌, refl, ◌↔◌, Bool, true, false, ◌&&◌, Option, none, some, List, [], ◌∷◌,
  arith, if◌then◌else◌, ◌==◌, length, set, ◌⊎◌, inl, inr, Bool-cases,
}

abbrev pub Bytes : Type 0
Bytes = List ℕ

-- The string at the start of an array.
unfoldable pub cstr : Bytes → Bytes
cstr [] = []
cstr (zero ∷ bs) = []
cstr (suc c ∷ bs) = suc c ∷ cstr bs

abbrev pub strlen : Bytes → ℕ
strlen b = length (cstr b)

unfoldable pub bytes_eq : Bytes → Bytes → Bool
bytes_eq [] [] = true
bytes_eq [] (d ∷ ds) = false
bytes_eq (c ∷ cs) [] = false
bytes_eq (c ∷ cs) (d ∷ ds) = (c == d) && bytes_eq cs ds

-- `strcmp(a, b) == 0`
abbrev pub str_eq : Bytes → Bytes → Bool
str_eq a b = bytes_eq (cstr a) (cstr b)

-- `strncpy(dst, src, n)`: at most `n` bytes, NULs after the end of `src` up to `n`, and no NUL if
-- `src` is as long as `n`. It does not write beyond the array.
unfoldable pub strncpy : Bytes → Bytes → ℕ → Bytes
strncpy dst src zero = dst
strncpy [] src (suc n) = []
strncpy (d ∷ dst) [] (suc n) = 0 ∷ strncpy dst [] n
strncpy (d ∷ dst) (zero ∷ src) (suc n) = 0 ∷ strncpy dst [] n
strncpy (d ∷ dst) (suc c ∷ src) (suc n) = suc c ∷ strncpy dst src n

-- `strncpy(dst, src, n - 1); dst[n - 1] = '\0';` for an array of `n` bytes
abbrev pub copy_str : ℕ → Bytes → Bytes → Bytes
copy_str n dst src = set (strncpy dst src (n - 1)) (n - 1) 0

-- The same through a pointer that may be NULL; NULL leaves the array as it is.
abbrev pub copy_if : ℕ → Bytes → Option Bytes → Bytes
copy_if n dst none = dst
copy_if n dst (some src) = strncpy dst src (n - 1)

pub bytes_eq_iff : (a b : Bytes) → (bytes_eq a b ≡ true) ↔ (a ≡ b)
unfolding bytes_eq
bytes_eq_iff [] [] = ground arith
bytes_eq_iff [] (d ∷ ds) = ground arith
bytes_eq_iff (c ∷ cs) [] = ground arith
bytes_eq_iff (c ∷ cs) (d ∷ ds) = ground (arith, bytes_eq_iff cs ds)

pub bytes_eq_refl : (a : Bytes) → bytes_eq a a ≡ true
bytes_eq_refl a = (bytes_eq_iff a a).1 refl

-- Comparing the lengths first, as a `memcmp` of equal lengths does, changes nothing.
pub eq_length_first : (a b : Bytes) → ((length a == length b) && bytes_eq a b) ≡ bytes_eq a b
eq_length_first a b = elim (bytes_cases a b) [
  | inl e ↦ rw (e, bytes_eq_refl b) (ground arith)
  | inr ne ↦ rw ne (ground arith)
]
  where
    bytes_cases : (a b : Bytes) → (a ≡ b) ⊎ (bytes_eq a b ≡ false)
    bytes_cases a b = elim (Bool-cases (bytes_eq a b)) [
      | inl e ↦ inl ((bytes_eq_iff a b).0 e)
      | inr e ↦ inr e
    ]
