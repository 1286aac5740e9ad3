-- ===== src/Registry.antt =====
-- ceell/core/service_registry.c: the table of local services.
-- The table is the array of `CONFIG_CEELL_MAX_SERVICES` entries with its count; a handler is a
-- pointer that may be NULL. The mutex makes each operation atomic, so it is one function.
pub mod Table
pub mod Lookup
pub mod Names
mod Tests
use ceell.Prelude.{
  ℕ, zero, suc, ◌+◌, ◌-◌, Bool, true, false, Option, none, some, List, [], ◌∷◌, ◌++◌, if◌then◌else◌,
  ltb, leb, ◌==◌, length, get_elem?, set, drop, take, replicate,
}
use ceell.Prelude.Int.{ℤ, pos, negsuc}
use ceell.Errno.{Ret, ok, err, einval, enomem}
use ceell.Bytes.{Bytes, cstr, strlen, str_eq, copy_str, strncpy}
use ceell.Csv.{comma}

abbrev pub max_service_name_len : ℕ
max_service_name_len = 32

-- `struct service_entry`
pub record ServiceEntry (H : Type 0) : Type 0 where
  pub name : Bytes
  pub handler : Option H
  pub priority : ℕ
  pub deadline_ms : ℕ

pub record Registry (H : Type 0) : Type 0 where
  pub services : List (ServiceEntry H)
  pub svc_count : ℕ

-- What the caller's array holds afterwards: on success a NUL ends the names, on failure the
-- array keeps what stood behind the bytes written.
pub close_buf : Ret × Bytes → Bytes → Ret × Bytes
close_buf (ok, out) buf = (ok, out ++ (0 ∷ drop (length out + 1) buf))
close_buf (err e, out) buf = (err e, out ++ drop (length out) (set buf 0 0))

module _ {H : Type 0} where
  -- An entry after `memset`.
  abbrev pub zero_entry : ServiceEntry H
  zero_entry = record {
    name = replicate max_service_name_len 0;
    handler = none;
    priority = 0;
    deadline_ms = 0;
  }

  -- The entry at an index that the count allows; the array's end is never reached.
  abbrev pub entry_at : List (ServiceEntry H) → ℕ → ServiceEntry H
  entry_at [] i = zero_entry
  entry_at (e ∷ es) zero = e
  entry_at (e ∷ es) (suc i) = entry_at es i

  -- The entry that `register_sla` leaves at its slot: the bytes of the slot are overwritten.
  unfoldable pub fill_entry : ServiceEntry H → Bytes → Option H → ℕ → ℕ → ServiceEntry H
  fill_entry e name handler priority deadline_ms = record {
    name = copy_str max_service_name_len e.name name;
    handler = handler;
    priority = priority;
    deadline_ms = deadline_ms;
  }

  -- The loops of the getters: the first of the `n` entries with this name.
  unfoldable pub find_entry : ℕ → List (ServiceEntry H) → Bytes → Option (ServiceEntry H)
  find_entry zero es name = none
  find_entry (suc n) [] name = none
  find_entry (suc n) (e ∷ es) name = if str_eq e.name name then some e else find_entry n es name

  unfoldable pub service_get_handler : Registry H → Option Bytes → Option H
  service_get_handler r none = none
  service_get_handler r (some name) = elim (find_entry r.svc_count r.services name) [
    | none ↦ none
    | some e ↦ e.handler
  ]

  -- NORMAL, if the name is NULL or not found.
  unfoldable pub service_get_priority : Registry H → Option Bytes → ℕ
  service_get_priority r none = 1
  service_get_priority r (some name) = elim (find_entry r.svc_count r.services name) [
    | none ↦ 1
    | some e ↦ e.priority
  ]

  unfoldable pub service_get_deadline : Registry H → Option Bytes → ℕ
  service_get_deadline r none = 0
  service_get_deadline r (some name) = elim (find_entry r.svc_count r.services name) [
    | none ↦ 0
    | some e ↦ e.deadline_ms
  ]

  unfoldable pub service_count : Registry H → ℕ
  service_count r = r.svc_count

  -- `index` is an `int`.
  unfoldable pub service_get_name : Registry H → ℤ → Option Bytes
  service_get_name r (negsuc i) = none
  service_get_name r (pos i) =
      if ltb i r.svc_count then some (cstr (entry_at r.services i).name) else none

  -- The loop of `service_names_csv`: `out` is what stands in `buf` before `pos`.
  pub names_loop : ℕ → ℕ → List (ServiceEntry H) → ℕ → Bytes → Ret × Bytes
  names_loop zero i es buf_len out = (ok, out)
  names_loop (suc n) i [] buf_len out = (ok, out)
  names_loop (suc n) i (e ∷ es) buf_len out =
      let need = strlen e.name + (if ltb 0 i then 1 else 0) in
      let out' = out ++ (if ltb 0 i then comma ∷ cstr e.name else cstr e.name) in
      let rest = names_loop n (i + 1) es buf_len out' in
      if leb buf_len (length out + need) then (err enomem, out) else rest

  -- `buf_len` is the size of the array.
  unfoldable pub service_names_csv : Registry H → Option Bytes → Ret × Bytes
  unfolding names_loop close_buf
  service_names_csv r none = (err einval, [])
  service_names_csv r (some []) = (err einval, [])
  service_names_csv r (some (b ∷ bs)) =
      close_buf (names_loop r.svc_count 0 r.services (length (b ∷ bs)) []) (b ∷ bs)

module _ {H : Type 0} (max_services : ℕ) where
  unfoldable pub service_init : Registry H
  service_init = record { services = replicate max_services zero_entry; svc_count = 0 }

  unfoldable pub service_register_sla :
      Registry H → Option Bytes → Option H → ℕ → ℕ → Ret × Registry H
  unfolding fill_entry
  service_register_sla r none handler priority deadline_ms = (err einval, r)
  service_register_sla r (some name) handler priority deadline_ms =
      if leb max_services r.svc_count then (err enomem, r) else (
        ok,
        record r {
          services =
              set r.services r.svc_count
                (fill_entry (entry_at r.services r.svc_count) name handler priority deadline_ms);
          svc_count = r.svc_count + 1;
        },
      )

  unfoldable pub service_register : Registry H → Option Bytes → Option H → Ret × Registry H
  unfolding service_register_sla
  service_register r name handler = service_register_sla r name handler 1 0
