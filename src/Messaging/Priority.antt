-- ===== src/Messaging/Priority.antt =====
-- Priorities: their arrays, and their traffic classes in ceell/network/tsn.c.
use ceell.Prelude.{◌≡◌, refl, Bool, true, false, arith}
use ceell.Prelude.Int.{ℤ, pos, negsuc, ◌<ℤ◌}
use ceell.Messaging.{
  MsgPriority, critical, normal, bulk, PerPriority, at, put, priority_valid, priority_of,
  tsn_get_pcp,
}

abbrev pub pri_eq : MsgPriority → MsgPriority → Bool
pri_eq critical critical = true
pri_eq normal normal = true
pri_eq bulk bulk = true
pri_eq _ _ = false

pub pri_eq→≡ : (p q : MsgPriority) → pri_eq p q ≡ true → p ≡ q
pri_eq→≡ critical critical e = refl
pri_eq→≡ normal normal e = refl
pri_eq→≡ bulk bulk e = refl
pri_eq→≡ critical normal e = cc
pri_eq→≡ critical bulk e = cc
pri_eq→≡ normal critical e = cc
pri_eq→≡ normal bulk e = cc
pri_eq→≡ bulk critical e = cc
pri_eq→≡ bulk normal e = cc

pub pri_eq_refl : (p : MsgPriority) → pri_eq p p ≡ true
pri_eq_refl critical = refl
pri_eq_refl normal = refl
pri_eq_refl bulk = refl

module _ {X : Type 0} (x : X) (t : PerPriority X) where
  pub at-put_self : (p : MsgPriority) → at p (put p x t) ≡ x
  at-put_self critical = refl
  at-put_self normal = refl
  at-put_self bulk = refl

  pub at-put_ne : (p q : MsgPriority) → pri_eq p q ≡ false → at q (put p x t) ≡ at q t
  at-put_ne critical critical e = cc
  at-put_ne critical normal e = refl
  at-put_ne critical bulk e = refl
  at-put_ne normal critical e = refl
  at-put_ne normal normal e = cc
  at-put_ne normal bulk e = refl
  at-put_ne bulk critical e = refl
  at-put_ne bulk normal e = refl
  at-put_ne bulk bulk e = cc

-- Of two valid priorities the more urgent one has the higher traffic class, and both classes lie
-- within 1 to 7.
pub tsn_get_pcp_lem :
    (p q : ℤ)
    → priority_valid p ≡ true
    → priority_valid q ≡ true
    → p <ℤ q
    → (tsn_get_pcp q <ℤ tsn_get_pcp p) × (pos 0 <ℤ tsn_get_pcp q) × (tsn_get_pcp p <ℤ pos 8)
unfolding tsn_get_pcp priority_of
tsn_get_pcp_lem (negsuc m) q vp vq h = ground arith
tsn_get_pcp_lem (pos m) (negsuc n) vp vq h = ground arith
tsn_get_pcp_lem (pos m) (pos n) vp vq h = ground arith
