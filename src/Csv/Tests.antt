-- ===== src/Csv/Tests.antt =====
-- Runs of `csv_contains` of ceell/network/service_discovery.c.
use ceell.Prelude.{◌≡◌, [], ◌∷◌, arith}
use ceell.Bytes.{Bytes, cstr}
use ceell.Csv.{csv_loop, csv_contains}
use ceell.Csv.Join.{any_eq}
use ceell.Csv.Split.{words, csv_contains-words}

abbrev ec : Bytes
ec = b'e' ∷ b'c' ∷ []

-- An empty word stands first, and none behind the last comma.
abbrev gaps : Bytes
gaps = b',' ∷ b'e' ∷ b'c' ∷ b',' ∷ []

csv_contains-words_example :
    (csv_contains gaps ec ≡ any_eq (cstr ec) (words (cstr gaps)))
    × (csv_loop 9 gaps ec ≡ csv_contains gaps ec)
unfolding cstr
csv_contains-words_example = csv_contains-words gaps ec 9 (omega arith)
