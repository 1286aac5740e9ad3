-- ===== src/Registry/Tests.antt =====
-- Runs of ceell/core/service_registry.c at small tables.
use ceell.Prelude.{
  ◌++◌, drop, ℕ, ◌≡◌, ◌<◌, ◌≤◌, ◌⊎◌, refl, none, some, [], ◌∷◌, arith, length, take, replicate,
}
use ceell.Errno.{ok, err, enomem}
use ceell.Bytes.{Bytes, cstr, bytes_eq, strncpy}
use ceell.Csv.{join}
use ceell.Registry.{
  Registry, service_init, service_register_sla, service_names_csv, service_get_priority, find_entry,
  fill_entry,
}
use ceell.Registry.Table.{
  contents, IsValid, Registered, service_init-IsValid, service_register_sla_lem,
}
use ceell.Registry.Lookup.{Answers, first_named, after_register, getters-register}
use ceell.Registry.Names.{names_of, names_csv_lem}

abbrev echo : Bytes
echo = b'e' ∷ b'c' ∷ b'h' ∷ b'o' ∷ 0 ∷ []

abbrev ota : Bytes
ota = b'o' ∷ b't' ∷ b'a' ∷ 0 ∷ []

-- Handlers are numbers here.
abbrev start : Registry ℕ
start = service_init 2

abbrev one : Registry ℕ
one = (service_register_sla 2 start (some echo) (some 7) 0 50).1

start-IsValid : IsValid 2 start
start-IsValid = (service_init-IsValid {H = ℕ} 2).0

one-IsValid : IsValid 2 one
one-IsValid = (service_register_sla_lem {H = ℕ} 2 start (some echo) (some 7) 0 50 start-IsValid).1

service_register_sla_lem_example :
    Registered 2 one (some ota) none 2 0 (service_register_sla 2 one (some ota) none 2 0)
    × IsValid 2 (service_register_sla 2 one (some ota) none 2 0).1
service_register_sla_lem_example =
    service_register_sla_lem {H = ℕ} 2 one (some ota) none 2 0 one-IsValid

one_room : one.svc_count < 2
unfolding service_register_sla service_init
one_room = omega arith

getters-register_example : Answers (service_register_sla 2 one (some echo) (some 9) 2 10).1 echo (
    after_register
      (first_named (cstr echo) (contents one))
      (record { name = take 31 (cstr echo); handler = some 9; priority = 2; deadline_ms = 10 })
      (cstr echo))
getters-register_example =
    getters-register {H = ℕ} 2 one echo (some 9) 2 10 echo one-IsValid one_room

-- A second registration of a name does not change its priority.
second_registration :
    service_get_priority (service_register_sla 2 one (some echo) (some 9) 2 10).1 (some echo) ≡ 0
unfolding service_register_sla service_init service_get_priority cstr bytes_eq strncpy find_entry
    fill_entry
second_registration = refl

abbrev buffer : Bytes
buffer = 1 ∷ replicate 7 1

names_csv_lem_example :
    let (ret, buf) = service_names_csv one (some buffer) in
    let text = join (names_of (contents one)) in
    ((length text < length buffer) × (ret ≡ ok) × (cstr buf ≡ text) × (length buf ≡ length buffer))
    ⊎ ((length buffer ≤ length text)
        × (ret ≡ err enomem)
        × (length buf ≡ length buffer)
        × ((written : Bytes) × (rest : Bytes) × (text ≡ written ++ rest)
            × (buf ≡ written ++ drop (length written) (0 ∷ replicate 7 1))))
names_csv_lem_example = names_csv_lem {H = ℕ} one 1 (replicate 7 1)
