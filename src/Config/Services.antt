-- ===== src/Config/Services.antt =====
-- Adding a service to the configuration, in the two formats.
pub mod V1
pub mod V2
use native.Mathlib.Numerals.{add-one}
use ceell.Prelude.{
  length-take, sym, append_assoc, append-nil, min, zero, suc, ap, ◌∙◌, take-append_full, take_all,
  ◌≤◌, ℕ, ◌+◌, ◌<◌, ◌≡◌, refl, List, [], ◌∷◌, ◌++◌, map, arith, length, take, drop, set, get_or,
  take-set, length-set, drop_split, set-append, length-append, All, All-set, All-get_or,
  length-drop,
}
use mathlib.Core.List.{map-append}
use ceell.Prelude.Int.{ℤ}
use ceell.Bytes.{Bytes, cstr, strncpy, copy_str}
use ceell.Bytes.Copy.{
  NoNul, IsTerminated, IsTerminated-strncpy, IsTerminated-copy_str, cstr-strncpy, cstr-set-strncpy,
  cstr-append_nul, length-copy_str,
}
use ceell.Config.{
  ServiceSla, CeellConfig, zero_name, zero_sla, copy_token, add_v1, add_v2, JsonSvcEntry,
  sla_priority, sla_deadline,
}

-- A service with its priority and deadline.
abbrev pub Entry : Type 0
Entry = Bytes × ℕ × ℕ

abbrev entry_of : ServiceSla → Entry
entry_of s = (cstr s.name, s.priority, s.deadline_ms)

-- The services as text, and their agreements.
abbrev pub names : CeellConfig → List Bytes
names cfg = map cstr (take cfg.service_count cfg.services)

abbrev pub slas : CeellConfig → List Entry
slas cfg =
    map (λ s. (cstr s.name, s.priority, s.deadline_ms)) (take cfg.service_count cfg.service_slas)

pub record IsValid (cfg : CeellConfig) : Type 0 where
  pub size : length cfg.services ≡ 4
  pub sla_size : length cfg.service_slas ≡ 4
  pub fits : All (λ n. length n ≡ 32) cfg.services
  pub sla_fits : All (λ s. IsTerminated 32 s.name) cfg.service_slas
  pub count_in : cfg.service_count ≤ 4

-- The service `e` comes behind the others, under the name `n`.
pub record Added (cfg : CeellConfig) (n : Bytes) (e : Entry) (cfg' : CeellConfig) : Type 0 where
  pub named : names cfg' ≡ names cfg ++ (n ∷ [])
  pub agreed : slas cfg' ≡ slas cfg ++ (e ∷ [])
  pub valid : IsValid cfg'

module _ (cfg : CeellConfig) (v : IsValid cfg) (room : cfg.service_count < 4) where
  -- Writing the two arrays at the count.
  written :
      (n : Bytes) (s : ServiceSla)
      → length n ≡ 32
      → IsTerminated 32 s.name
      → Added cfg
          (cstr n)
          (cstr s.name, s.priority, s.deadline_ms)
          (record cfg {
            services = set cfg.services cfg.service_count n;
            service_slas = set cfg.service_slas cfg.service_count s;
            service_count = cfg.service_count + 1;
          })
  written n s h k =
      let i = cfg.service_count in
      record {
        named =
            rw (add-one, take-set i cfg.services n (omega (arith, v.size)))
              (map-append cstr (take i cfg.services) (n ∷ []));
        agreed =
            rw (add-one, take-set i cfg.service_slas s (omega (arith, v.sla_size)))
              (map-append entry_of (take i cfg.service_slas) (s ∷ []));
        valid = record {
          size = length-set cfg.services i n ∙ v.size;
          sla_size = length-set cfg.service_slas i s ∙ v.sla_size;
          fits = All-set (λ m. length m ≡ 32) cfg.services i n v.fits h;
          sla_fits = All-set (λ t. IsTerminated 32 t.name) cfg.service_slas i s v.sla_fits k;
          count_in = omega arith;
        };
      }

  old_name : length (get_or cfg.services cfg.service_count zero_name) ≡ 32
  old_name = All-get_or (λ m. length m ≡ 32) cfg.services cfg.service_count zero_name v.fits refl

  old_sla : IsTerminated 32 (get_or cfg.service_slas cfg.service_count zero_sla).name
  old_sla =
      All-get_or (λ t. IsTerminated 32 t.name) cfg.service_slas cfg.service_count zero_sla
        v.sla_fits (refl, refl)

  pub Added-add_v2 :
      (name : Bytes) (priority deadline_ms : ℤ)
      → Added cfg
          (take 31 (cstr name))
          (take 31 (cstr name), sla_priority priority, sla_deadline deadline_ms)
          (add_v2 cfg name priority deadline_ms)
  unfolding add_v2
  Added-add_v2 name priority deadline_ms =
      let old = get_or cfg.services cfg.service_count zero_name in
      let old' = (get_or cfg.service_slas cfg.service_count zero_sla).name in
      let n = copy_str 32 old name in
      let sla : ServiceSla = record {
        name = copy_str 32 old' name;
        priority = sla_priority priority;
        deadline_ms = sla_deadline deadline_ms;
      } in
      let w =
        written n sla (length-copy_str 32 old name ∙ old_name)
          (IsTerminated-copy_str 32 old' name (omega arith) old_sla.0) in
      rw
        (
          cstr-set-strncpy old name 31 (omega (arith, old_name)),
          cstr-set-strncpy old' name 31 (omega (arith, old_sla.0)),
        )
        at w

  -- A token of fewer than 32 bytes, copied with its NUL.
  cstr-copy_token :
      (dst p n : Bytes)
      → take (length n) p ≡ n
      → NoNul n
      → length n < length dst
      → (cstr (copy_token dst p (length n)) ≡ n)
        × (length (copy_token dst p (length n)) ≡ length dst)
  cstr-copy_token dst p n t k h =
      rw
        (
          t,
          drop_split (length n) dst 0 h,
          set-append n (get_or dst (length n) 0) 0 (drop (suc (length n)) dst),
        )
        (
          cstr-append_nul n (drop (suc (length n)) dst) k,
          omega (
            arith,
            length-append n (0 ∷ drop (suc (length n)) dst),
            length-drop (suc (length n)) dst,
          ),
        )

  pub Added-add_v1 :
      (p n : Bytes)
      → take (length n) p ≡ n
      → NoNul n
      → length n < 32
      → Added cfg n (n, 1, 0) (add_v1 cfg p (length n))
  unfolding add_v1
  Added-add_v1 p n t k h =
      let old = get_or cfg.services cfg.service_count zero_name in
      let old' = (get_or cfg.service_slas cfg.service_count zero_sla).name in
      let c = cstr-copy_token old p n t k (omega (arith, h, old_name)) in
      let name = copy_token old p (length n) in
      let sla : ServiceSla = record {
        name = strncpy old' name 31;
        priority = 1;
        deadline_ms = 0;
      } in
      let w = written name sla (c.1 ∙ old_name) (IsTerminated-strncpy 32 old' name old_sla) in
      let text : cstr (strncpy old' name 31) ≡ n =
        cstr-strncpy old' name 31 (omega (arith, old_sla.0)) old_sla.1
        ∙ ap (take 31) c.0
        ∙ take_all 31 n (omega (arith, h)) in
      rw (text, c.0) at w

length-map : {A : Type 0} {B : Type 0} (f : A → B) (xs : List A) → length (map f xs) ≡ length xs
length-map f [] = refl
length-map f (x ∷ xs) = ap suc (length-map f xs)

-- A full configuration has four of each.
pub full_names : (cfg : CeellConfig) → IsValid cfg → 4 ≤ cfg.service_count → length (names cfg) ≡ 4
full_names cfg v h = omega (
  arith,
  length-map cstr (take cfg.service_count cfg.services),
  length-take cfg.service_count cfg.services,
  v.size,
  v.count_in,
)

pub full_slas : (cfg : CeellConfig) → IsValid cfg → 4 ≤ cfg.service_count → length (slas cfg) ≡ 4
full_slas cfg v h = omega (
  arith,
  length-map entry_of (take cfg.service_count cfg.service_slas),
  length-take cfg.service_count cfg.service_slas,
  v.sla_size,
  v.count_in,
)

-- The services of `cfg'` are those of `cfg` and then the given ones, as far as there is room.
pub record Extends (cfg : CeellConfig) (ns : List Bytes) (es : List Entry) (cfg' : CeellConfig)
    : Type 0 where
  pub named : names cfg' ≡ take 4 (names cfg ++ ns)
  pub agreed : slas cfg' ≡ take 4 (slas cfg ++ es)
  pub valid : IsValid cfg'

module _ (cfg : CeellConfig) (v : IsValid cfg) where
  pub Extends-nil : Extends cfg [] [] cfg
  Extends-nil = record {
    named = sym (
        ap (take 4) (append-nil (names cfg))
        ∙ take_all 4 (names cfg) (
            omega (
              arith,
              length-map cstr (take cfg.service_count cfg.services),
              length-take cfg.service_count cfg.services,
              v.size,
            )));
    agreed = sym (
        ap (take 4) (append-nil (slas cfg))
        ∙ take_all 4 (slas cfg) (
            omega (
              arith,
              length-map entry_of (take cfg.service_count cfg.service_slas),
              length-take cfg.service_count cfg.service_slas,
              v.sla_size,
            )));
    valid = v;
  }

  pub Extends-full :
      (ns : List Bytes) (es : List Entry) → 4 ≤ cfg.service_count → Extends cfg ns es cfg
  Extends-full ns es h = record {
    named = sym (take-append_full 4 (names cfg) ns (full_names cfg v h));
    agreed = sym (take-append_full 4 (slas cfg) es (full_slas cfg v h));
    valid = v;
  }

  -- Where there is no room one service more changes nothing.
  pub Extends-skip :
      (n : Bytes) (e : Entry) (ns : List Bytes) (es : List Entry) (cfg' : CeellConfig)
      → 4 ≤ cfg.service_count
      → Extends cfg ns es cfg'
      → Extends cfg (n ∷ ns) (e ∷ es) cfg'
  Extends-skip n e ns es cfg' h x = record {
    named =
        x.named
        ∙ take-append_full 4 (names cfg) ns (full_names cfg v h)
        ∙ sym (take-append_full 4 (names cfg) (n ∷ ns) (full_names cfg v h));
    agreed =
        x.agreed
        ∙ take-append_full 4 (slas cfg) es (full_slas cfg v h)
        ∙ sym (take-append_full 4 (slas cfg) (e ∷ es) (full_slas cfg v h));
    valid = x.valid;
  }

  pub Extends-Added :
      (n : Bytes) (e : Entry) (ns : List Bytes) (es : List Entry) (cfg1 cfg' : CeellConfig)
      → Added cfg n e cfg1
      → Extends cfg1 ns es cfg'
      → Extends cfg (n ∷ ns) (e ∷ es) cfg'
  Extends-Added n e ns es cfg1 cfg' a x = record {
    named =
        x.named
        ∙ ap (λ l. take 4 (l ++ ns)) a.named
        ∙ ap (take 4) (append_assoc (names cfg) (n ∷ []) ns);
    agreed =
        x.agreed
        ∙ ap (λ l. take 4 (l ++ es)) a.agreed
        ∙ ap (take 4) (append_assoc (slas cfg) (e ∷ []) es);
    valid = x.valid;
  }
