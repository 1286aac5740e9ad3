-- ===== src/Csv.antt =====
-- Comma-separated names: `strchr(p, ',')`, the token loop of `csv_contains` in
-- ceell/network/service_discovery.c, and the text that ceell/core/service_registry.c writes.
pub mod Join
pub mod Split
mod Tests
use ceell.Prelude.{
  ℕ, zero, suc, ◌+◌, ◌-◌, Bool, true, false, ◌&&◌, Option, none, some, List, [], ◌∷◌, ◌++◌,
  if◌then◌else◌, ◌==◌, length, take,
}
use ceell.Bytes.{Bytes, cstr, strlen, bytes_eq}

abbrev pub comma : ℕ
comma = b','

-- `strchr(p, c)`: the rest of the string from the first `c` on.
unfoldable pub strchr : Bytes → ℕ → Option Bytes
strchr [] c = none
strchr (zero ∷ bs) c = none
strchr (suc b ∷ bs) c = if suc b == c then some (suc b ∷ bs) else strchr bs c

-- `*p != '\0'`
abbrev pub at_char : Bytes → Bool
at_char [] = false
at_char (zero ∷ bs) = false
at_char (suc b ∷ bs) = true

-- The length of the token at `p`: `comma - p`, or `strlen(p)` for the last one.
abbrev pub token_len : Bytes → Option Bytes → ℕ
token_len p none = strlen p
token_len p (some rest) = length p - length rest

-- `p = comma + 1`
abbrev pub skip_comma : Bytes → Bytes
skip_comma [] = []
skip_comma (b ∷ bs) = bs

-- The fuel bounds the tokens; `csv_contains` gives enough.
unfoldable pub csv_loop : ℕ → Bytes → Bytes → Bool
csv_loop zero p name = false
csv_loop (suc fuel) p name = elim (at_char p) [
  | false ↦ false
  | true ↦
      let found = strchr p comma in
      let len = token_len p found in
      elim ((len == strlen name) && bytes_eq (take len p) (cstr name)) [
        | true ↦ true
        | false ↦ elim found [ none ↦ false | some rest ↦ csv_loop fuel (skip_comma rest) name ]
      ]
]

unfoldable pub csv_contains : Bytes → Bytes → Bool
unfolding csv_loop strchr bytes_eq cstr
csv_contains csv name = csv_loop (length csv + 1) csv name

-- The names with a comma between two.
unfoldable pub join : List Bytes → Bytes
join [] = []
join (n ∷ []) = n
join (n ∷ (m ∷ ns)) = n ++ (comma ∷ join (m ∷ ns))
