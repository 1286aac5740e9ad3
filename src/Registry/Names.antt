-- ===== src/Registry/Names.antt =====
-- The announcement text of `service_names_csv`: the names joined by commas, if they fit.
use ceell.Prelude.{
  ℕ, zero, suc, ◌+◌, ◌<◌, ◌≤◌, ◌≡◌, refl, ap, Bool, true, false, some, List, [], ◌∷◌, ◌++◌, arith,
  length, drop, if◌then◌else◌, inl, inr, Bool-cases, subst, ◌⊎◌, map, All, All-append, length-drop,
  length-append, append_assoc, append-nil, ltb, leb,
}
use ceell.Errno.{Ret, ok, err, enomem}
use ceell.Bytes.{Bytes, cstr, strlen}
use ceell.Bytes.Copy.{NoNul, cstr-NoNul, cstr-append_nul}
use ceell.Csv.{comma, join}
use ceell.Registry.{ServiceEntry, Registry, names_loop, close_buf, service_names_csv}
use ceell.Registry.Table.{Service, services_of, contents}

-- The bytes that the loop appends for the remaining names; `more` holds after the first name.
piece : Bool → Bytes → Bytes
piece more n = if more then comma ∷ n else n

tail_text : Bool → List Bytes → Bytes
tail_text more [] = []
tail_text more (n ∷ ns) = piece more n ++ tail_text true ns

join_more : (m : Bytes) (ns : List Bytes) → tail_text true (m ∷ ns) ≡ comma ∷ join (m ∷ ns)
unfolding tail_text piece join
join_more m [] = ap (◌∷◌ comma) (append-nil m)
join_more m (n ∷ ns) = ap (λ t. comma ∷ (m ++ t)) (join_more n ns)

tail_text-join : (ns : List Bytes) → tail_text false ns ≡ join ns
unfolding tail_text piece join
tail_text-join [] = refl
tail_text-join (n ∷ []) = append-nil n
tail_text-join (n ∷ (m ∷ ns)) = ap (◌++◌ n) (join_more m ns)

-- What the loop has written when the next name does not fit: the start of the text, within the buffer.
abbrev IsCut : ℕ → Bytes → Ret × Bytes → Type 0
IsCut size text out =
    (written : Bytes) × (rest : Bytes) × (out ≡ (err enomem, written))
    × (text ≡ written ++ rest)
    × (length written < size)

-- How a run of the loop ends, where `text` is what it has to write.
abbrev Ends : ℕ → Bytes → Ret × Bytes → Type 0
Ends size text out =
    ((length text < size) × (out ≡ (ok, text))) ⊎ ((size ≤ length text) × IsCut size text out)

Ends-step :
    (size need : ℕ) (out p rest_text : Bytes) (rest : Ret × Bytes)
    → length p ≡ need
    → length out < size
    → (length (out ++ p) < size → Ends size ((out ++ p) ++ rest_text) rest)
    → Ends size
        (out ++ (p ++ rest_text))
        (if leb size (length out + need) then (err enomem, out) else rest)
Ends-step size need out p rest_text rest e h ih = elim (Bool-cases (leb size (length out + need))) [
  | inl full ↦
      let l : size ≤ length out + need = ground (arith, full) in
      rw full (
        inr (
          omega (arith, e, l, length-append out (p ++ rest_text), length-append p rest_text),
          (out, p ++ rest_text, refl, refl, h),
        ))
  | inr fits ↦
      let l : length out + need < size = ground (arith, fits) in
      rw fits (
        subst (λ t. Ends size t rest) (append_assoc out p rest_text)
          (ih (omega (arith, e, l, length-append out p))))
]

length-piece :
    (i : ℕ) (n : Bytes) → length (piece (ltb 0 i) n) ≡ length n + (if ltb 0 i then 1 else 0)
unfolding piece
length-piece i n = ground arith

pub NoNul-join : (ns : List Bytes) → All NoNul ns → NoNul (join ns)
unfolding join
NoNul-join [] h = tt
NoNul-join (n ∷ []) h = h.0
NoNul-join (n ∷ (m ∷ ns)) h =
    All-append (λ c. 0 < c) n (comma ∷ join (m ∷ ns)) h.0 (omega arith, NoNul-join (m ∷ ns) h.1)

module _ {H : Type 0} where
  abbrev pub names_of : List (Service H) → List Bytes
  names_of ss = map (λ s. s.name) ss

  loop-Ends :
      (n i : ℕ) (es : List (ServiceEntry H)) (size : ℕ) (out : Bytes)
      → length out < size
      → Ends size
          (out ++ tail_text (ltb 0 i) (names_of (services_of n es)))
          (names_loop n i es size out)
  unfolding names_loop tail_text piece
  loop-Ends zero i es size out h = inl (omega (arith, ap length (append-nil out)), rw append-nil)
  loop-Ends (suc n) i [] size out h = inl (omega (arith, ap length (append-nil out)), rw append-nil)
  loop-Ends (suc n) i (e ∷ es) size out h =
      let p = piece (ltb 0 i) (cstr e.name) in
      Ends-step size (strlen e.name + (if ltb 0 i then 1 else 0)) out p
        (tail_text true (names_of (services_of n es))) (names_loop n (i + 1) es size (out ++ p))
        (length-piece i (cstr e.name)) h
        (λ k. rw (next i) at (loop-Ends n (i + 1) es size (out ++ p) k))
    where
      next : (i : ℕ) → ltb 0 (i + 1) ≡ true
      next i = ground arith

  NoNul-names : (n : ℕ) (es : List (ServiceEntry H)) → All NoNul (names_of (services_of n es))
  NoNul-names zero es = tt
  NoNul-names (suc n) [] = tt
  NoNul-names (suc n) (e ∷ es) = (cstr-NoNul e.name, NoNul-names n es)

  -- Into a buffer of at least one byte `service_names_csv` writes the registered names joined by
  -- commas, in the order of registration; it fails exactly if the text and its NUL do not fit. Either way
  -- it keeps to the buffer: on failure the buffer holds a start of the text, then what it held before, where
  -- its first byte is cleared before the names are written.
  pub names_csv_lem :
      (r : Registry H) (b : ℕ) (bs : Bytes)
      → let (ret, buf) = service_names_csv r (some (b ∷ bs)) in
        let text = join (names_of (contents r)) in
        ((length text < length (b ∷ bs))
          × (ret ≡ ok)
          × (cstr buf ≡ text)
          × (length buf ≡ length (b ∷ bs)))
        ⊎ ((length (b ∷ bs) ≤ length text)
            × (ret ≡ err enomem)
            × (length buf ≡ length (b ∷ bs))
            × ((written : Bytes) × (rest : Bytes) × (text ≡ written ++ rest)
                × (buf ≡ written ++ drop (length written) (0 ∷ bs))))
  unfolding service_names_csv close_buf
  names_csv_lem r b bs =
      elim (rw (tail_text-join (names_of (contents r))) at
        (loop-Ends r.svc_count 0 r.services (length (b ∷ bs)) [] (omega arith))) [
          | inl (fits, e) ↦
              let text = join (names_of (contents r)) in
              rw e (
                inl (
                  fits,
                  refl,
                  cstr-append_nul text (drop (length text + 1) (b ∷ bs))
                      (NoNul-join (names_of (contents r)) (NoNul-names r.svc_count r.services)),
                  omega (
                    arith,
                    fits,
                    length-append text (0 ∷ drop (length text + 1) (b ∷ bs)),
                    length-drop (length text + 1) (b ∷ bs),
                  ),
                ))
          | inr (big, (written, rest, e, t, l)) ↦ rw e (
              inr (
                big,
                refl,
                omega (
                  arith,
                  l,
                  length-append written (drop (length written) (0 ∷ bs)),
                  length-drop (length written) (0 ∷ bs),
                ),
                (written, rest, t, refl),
              ))
        ]
