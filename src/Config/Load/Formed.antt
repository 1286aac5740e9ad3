-- ===== src/Config/Load/Formed.antt =====
-- What a well-formed configuration is, and that adding a service keeps it so.
use ceell.Prelude.{
  ℕ, suc, zero, length, ◌+◌, ◌<◌, ◌≤◌, ◌≡◌, refl, ap, ◌∙◌, Option, none, some, [], ◌∷◌, ◌++◌, arith,
  set, take, drop, get_or, All, All-set, All-get_or, length-set, length-append, length-take,
  length-drop, get_or-set_self, get_or-set_ne, dec_lt,
}
use ceell.Prelude.Int.{ℤ}
use ceell.Bytes.{Bytes}
use ceell.Bytes.Copy.{IsTerminated, IsTerminated-copy_str, IsTerminated-strncpy}
use ceell.Csv.{token_len}
use ceell.Csv.Split.{cstr-le}
use ceell.Config.{CeellConfig, ServiceSla, zero_name, zero_sla, copy_token, add_v1, add_v2}

-- Every text of the configuration ends within its array, the two arrays of services have four places, and no
-- more of them are used.
pub record IsFormed (cfg : CeellConfig) : Type 0 where
  pub role_ends : IsTerminated 32 cfg.role
  pub name_ends : IsTerminated 64 cfg.name
  pub ip_ends : IsTerminated 16 cfg.ip
  pub netmask_ends : IsTerminated 16 cfg.netmask
  pub size : length cfg.services ≡ 4
  pub services_end : All (IsTerminated 32) cfg.services
  pub sla_size : length cfg.service_slas ≡ 4
  pub slas_end : All (λ s. IsTerminated 32 s.name) cfg.service_slas
  pub count_in : cfg.service_count ≤ 4

pub with_count :
    (cfg : CeellConfig) (n : ℕ) → IsFormed cfg → n ≤ 4 → IsFormed (record cfg { service_count = n })
with_count cfg n f h = record {
  role_ends = f.role_ends;
  name_ends = f.name_ends;
  ip_ends = f.ip_ends;
  netmask_ends = f.netmask_ends;
  size = f.size;
  services_end = f.services_end;
  sla_size = f.sla_size;
  slas_end = f.slas_end;
  count_in = h;
}

-- Writing a service at the count.
with_service :
    (cfg : CeellConfig) (n : Bytes) (s : ServiceSla)
    → IsFormed cfg
    → cfg.service_count < 4
    → IsTerminated 32 n
    → IsTerminated 32 s.name
    → IsFormed (record cfg {
      services = set cfg.services cfg.service_count n;
      service_slas = set cfg.service_slas cfg.service_count s;
      service_count = cfg.service_count + 1;
    })
with_service cfg n s f room h k = record {
  role_ends = f.role_ends;
  name_ends = f.name_ends;
  ip_ends = f.ip_ends;
  netmask_ends = f.netmask_ends;
  size = length-set cfg.services cfg.service_count n ∙ f.size;
  services_end = All-set (IsTerminated 32) cfg.services cfg.service_count n f.services_end h;
  sla_size = length-set cfg.service_slas cfg.service_count s ∙ f.sla_size;
  slas_end =
      All-set (λ (t : ServiceSla). IsTerminated 32 t.name) cfg.service_slas cfg.service_count s
        f.slas_end k;
  count_in = omega arith;
}

-- A copy over the start of an array leaves what stands behind it.
get_or-overwrite :
    (k : ℕ) (p dst : Bytes) (i d : ℕ)
    → k ≤ length p
    → k ≤ length dst
    → k ≤ i
    → get_or (take k p ++ drop k dst) i d ≡ get_or dst i d
get_or-overwrite zero p dst i d h l m = refl
get_or-overwrite (suc k) [] dst i d h l m = absurd (omega arith)
get_or-overwrite (suc k) (c ∷ p) [] i d h l m = absurd (omega arith)
get_or-overwrite (suc k) (c ∷ p) (x ∷ dst) zero d h l m = absurd (omega arith)
get_or-overwrite (suc k) (c ∷ p) (x ∷ dst) (suc i) d h l m =
    get_or-overwrite k p dst i d (omega arith) (omega arith) (omega arith)

-- The NUL behind a token of fewer than 32 bytes stands in the array.
IsTerminated-copy_token :
    (dst p : Bytes) (len : ℕ)
    → IsTerminated 32 dst
    → len < 32
    → len ≤ length p
    → IsTerminated 32 (copy_token dst p len)
IsTerminated-copy_token dst p len h short fits =
    let over = take len p ++ drop len dst in
    let l : length over ≡ 32 = omega (
      arith,
      length-append (take len p) (drop len dst),
      length-take len p,
      length-drop len dst,
      h.0,
    ) in
    (
      length-set over len 0 ∙ l,
      elim (dec_lt len 31) [
        | yes before ↦
            get_or-set_ne over {i = len} {j = 31} 0 1 (omega arith)
            ∙ get_or-overwrite len p dst 31 1 fits (omega (arith, h.0)) (omega arith)
            ∙ h.1
        | no last ↦
            let e : len ≡ 31 = omega arith in
            ap (λ i. get_or (set over len 0) i 1) (omega arith)
            ∙ get_or-set_self over len 0 1 (omega (arith, l))
      ],
    )

token_len-le : (p : Bytes) (found : Option Bytes) → token_len p found ≤ length p
token_len-le p none = cstr-le p
token_len-le p (some rest) = omega arith

module _ (cfg : CeellConfig) (f : IsFormed cfg) (room : cfg.service_count < 4) where
  old_name : IsTerminated 32 (get_or cfg.services cfg.service_count zero_name)
  old_name =
      All-get_or (IsTerminated 32) cfg.services cfg.service_count zero_name f.services_end
        (refl, refl)

  old_sla : IsTerminated 32 (get_or cfg.service_slas cfg.service_count zero_sla).name
  old_sla =
      All-get_or (λ (t : ServiceSla). IsTerminated 32 t.name) cfg.service_slas cfg.service_count
        zero_sla f.slas_end (refl, refl)

  pub IsFormed-add_v1 :
      (p : Bytes) (found : Option Bytes)
      → token_len p found < 32
      → IsFormed (add_v1 cfg p (token_len p found))
  unfolding add_v1
  IsFormed-add_v1 p found short =
      let len = token_len p found in
      let name = copy_token (get_or cfg.services cfg.service_count zero_name) p len in
      with_service cfg name _ f room
        (IsTerminated-copy_token _ p len old_name short (token_len-le p found))
        (IsTerminated-strncpy 32 _ name old_sla)

  pub IsFormed-add_v2 :
      (name : Bytes) (priority deadline_ms : ℤ) → IsFormed (add_v2 cfg name priority deadline_ms)
  unfolding add_v2
  IsFormed-add_v2 name priority deadline_ms =
      with_service cfg _ _ f room (IsTerminated-copy_str 32 _ name (omega arith) old_name.0)
        (IsTerminated-copy_str 32 _ name (omega arith) old_sla.0)
