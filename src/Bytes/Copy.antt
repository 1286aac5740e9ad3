-- ===== src/Bytes/Copy.antt =====
-- What a bounded copy leaves in an array: the source, cut to fit, with its NUL.
use ceell.Prelude.{
  All, ◌++◌, ℕ, zero, suc, Option, none, some, get_or, get_or-set_self, ◌∙◌, ◌-◌, ◌<◌, ◌≡◌, refl,
  ap, [], ◌∷◌, arith, length, set, take, replicate, length-set,
}
use ceell.Bytes.{Bytes, cstr, strncpy, copy_str, copy_if}

pub length-strncpy : (dst src : Bytes) (n : ℕ) → length (strncpy dst src n) ≡ length dst
unfolding strncpy
length-strncpy dst src zero = refl
length-strncpy [] src (suc n) = refl
length-strncpy (d ∷ dst) [] (suc n) = ap suc (length-strncpy dst [] n)
length-strncpy (d ∷ dst) (zero ∷ src) (suc n) = ap suc (length-strncpy dst [] n)
length-strncpy (d ∷ dst) (suc c ∷ src) (suc n) = ap suc (length-strncpy dst src n)

-- The terminator written at index `n` ends the string that was copied.
pub cstr-set-strncpy :
    (dst src : Bytes) (n : ℕ)
    → n < length dst
    → cstr (set (strncpy dst src n) n 0) ≡ take n (cstr src)
unfolding strncpy cstr
cstr-set-strncpy [] src n h = absurd (omega arith)
cstr-set-strncpy (d ∷ dst) src zero h = refl
cstr-set-strncpy (d ∷ dst) [] (suc n) h = refl
cstr-set-strncpy (d ∷ dst) (zero ∷ src) (suc n) h = refl
cstr-set-strncpy (d ∷ dst) (suc c ∷ src) (suc n) h =
    ap (◌∷◌ (suc c)) (cstr-set-strncpy dst src n (omega arith))

-- So does a NUL that was there before the copy.
pub cstr-strncpy-replicate :
    (src : Bytes) (n m : ℕ) → n < m → cstr (strncpy (replicate m 0) src n) ≡ take n (cstr src)
unfolding strncpy cstr
cstr-strncpy-replicate src n zero h = absurd (omega arith)
cstr-strncpy-replicate src zero (suc m) h = refl
cstr-strncpy-replicate [] (suc n) (suc m) h = refl
cstr-strncpy-replicate (zero ∷ src) (suc n) (suc m) h = refl
cstr-strncpy-replicate (suc c ∷ src) (suc n) (suc m) h =
    ap (◌∷◌ (suc c)) (cstr-strncpy-replicate src n m (omega arith))

pub length-copy_str : (n : ℕ) (dst src : Bytes) → length (copy_str n dst src) ≡ length dst
length-copy_str n dst src =
    omega (arith, length-set (strncpy dst src (n - 1)) (n - 1) 0, length-strncpy dst src (n - 1))

-- A string read from an array holds no NUL, so reading it again changes nothing.
pub cstr-cstr : (b : Bytes) → cstr (cstr b) ≡ cstr b
unfolding cstr
cstr-cstr [] = refl
cstr-cstr (zero ∷ bs) = refl
cstr-cstr (suc c ∷ bs) = ap (◌∷◌ (suc c)) (cstr-cstr bs)

pub cstr-take : (n : ℕ) (b : Bytes) → cstr (take n (cstr b)) ≡ take n (cstr b)
unfolding cstr
cstr-take zero b = refl
cstr-take (suc n) [] = refl
cstr-take (suc n) (zero ∷ bs) = refl
cstr-take (suc n) (suc c ∷ bs) = ap (◌∷◌ (suc c)) (cstr-take n bs)

-- Text with no NUL.
abbrev pub NoNul : Bytes → Type 0
NoNul b = All (λ c. 0 < c) b

pub cstr-NoNul : (b : Bytes) → NoNul (cstr b)
unfolding cstr
cstr-NoNul [] = tt
cstr-NoNul (zero ∷ bs) = tt
cstr-NoNul (suc c ∷ bs) = (omega arith, cstr-NoNul bs)

-- A NUL written behind such text ends it.
pub cstr-append_nul : (b rest : Bytes) → NoNul b → cstr (b ++ (0 ∷ rest)) ≡ b
unfolding cstr
cstr-append_nul [] rest h = refl
cstr-append_nul (zero ∷ b) rest h = absurd (omega arith)
cstr-append_nul (suc c ∷ b) rest h = ap (◌∷◌ (suc c)) (cstr-append_nul b rest h.1)

pub cstr_id : (b : Bytes) → NoNul b → cstr b ≡ b
unfolding cstr
cstr_id [] h = refl
cstr_id (zero ∷ b) h = absurd (omega arith)
cstr_id (suc c ∷ b) h = ap (◌∷◌ (suc c)) (cstr_id b h.1)

-- An array of `n` bytes whose last one is a NUL.
abbrev pub IsTerminated : ℕ → Bytes → Type 0
IsTerminated n b = (length b ≡ n) × (get_or b (n - 1) 1 ≡ 0)

-- What a copy leaves alone behind its last byte.
get_or-strncpy : (dst src : Bytes) (n d : ℕ) → get_or (strncpy dst src n) n d ≡ get_or dst n d
unfolding strncpy
get_or-strncpy dst src zero d = refl
get_or-strncpy [] src (suc n) d = refl
get_or-strncpy (c ∷ dst) [] (suc n) d = get_or-strncpy dst [] n d
get_or-strncpy (c ∷ dst) (zero ∷ src) (suc n) d = get_or-strncpy dst [] n d
get_or-strncpy (c ∷ dst) (suc b ∷ src) (suc n) d = get_or-strncpy dst src n d

pub IsTerminated-strncpy :
    (n : ℕ) (dst src : Bytes) → IsTerminated n dst → IsTerminated n (strncpy dst src (n - 1))
IsTerminated-strncpy n dst src h =
    (length-strncpy dst src (n - 1) ∙ h.0, get_or-strncpy dst src (n - 1) 1 ∙ h.1)

pub IsTerminated-copy_str :
    (n : ℕ) (dst src : Bytes) → 0 < n → length dst ≡ n → IsTerminated n (copy_str n dst src)
IsTerminated-copy_str n dst src p h = (
  length-copy_str n dst src ∙ h,
  get_or-set_self (strncpy dst src (n - 1)) (n - 1) 0 1
      (omega (arith, length-strncpy dst src (n - 1), h)),
)

pub IsTerminated-copy_if :
    (n : ℕ) (dst : Bytes) (src : Option Bytes)
    → IsTerminated n dst
    → IsTerminated n (copy_if n dst src)
IsTerminated-copy_if n dst none h = h
IsTerminated-copy_if n dst (some src) h = IsTerminated-strncpy n dst src h

-- A NUL right behind the bytes that are copied ends the string.
pub cstr-strncpy :
    (dst src : Bytes) (n : ℕ)
    → n < length dst
    → get_or dst n 1 ≡ 0
    → cstr (strncpy dst src n) ≡ take n (cstr src)
unfolding strncpy cstr
cstr-strncpy [] src n h k = absurd (omega arith)
cstr-strncpy (zero ∷ dst) src zero h k = refl
cstr-strncpy (suc d ∷ dst) src zero h k = absurd (omega (arith, k))
cstr-strncpy (d ∷ dst) [] (suc n) h k = refl
cstr-strncpy (d ∷ dst) (zero ∷ src) (suc n) h k = refl
cstr-strncpy (d ∷ dst) (suc c ∷ src) (suc n) h k =
    ap (◌∷◌ (suc c)) (cstr-strncpy dst src n (omega arith) k)
