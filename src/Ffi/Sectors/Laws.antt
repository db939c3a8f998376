-- ===== src/Ffi/Sectors/Laws.antt =====
-- Which sectors `NewSortedPrivateSectorInfo` keeps, and in which order.
use ffi_demo.Base.{
  ℕ, ◌<◌, ◌≡◌, refl, ◌∙◌, Bool, true, false, Bool-cases, Option, Option-cases, none, some, inl, inr,
  List, [], ◌∷◌, ◌++◌, ◌==◌, if◌then◌else◌, arith,
}
use ffi_demo.Ffi.Replicas.{PrivateSectorInfo}
use ffi_demo.Ffi.Sectors.{
  has_seen, first_infos, insert_info, sort_infos, new_sorted_private_sector_info,
}

-- The first information on a sector.
abbrev pub find_info : ℕ → List PrivateSectorInfo → Option PrivateSectorInfo
find_info k [] = none
find_info k (info ∷ infos) = if info.sector_number == k then some info else find_info k infos

abbrev pub or_else : {A : Type 0} → Option A → Option A → Option A
or_else none o = o
or_else (some a) o = some a

abbrev is_found : {A : Type 0} → Option A → Bool
is_found none = false
is_found (some a) = true

-- Every sector number is above `n`.
abbrev pub AllAbove : ℕ → List PrivateSectorInfo → Type 0
AllAbove n [] = Unit
AllAbove n (info ∷ infos) = (n < info.sector_number) × AllAbove n infos

abbrev pub Ascending : List PrivateSectorInfo → Type 0
Ascending [] = Unit
Ascending (info ∷ infos) = AllAbove info.sector_number infos × Ascending infos

abbrev Distinct : List PrivateSectorInfo → Type 0
Distinct [] = Unit
Distinct (info ∷ infos) = (find_info info.sector_number infos ≡ none) × Distinct infos

find_info-append :
    (k : ℕ) (xs ys : List PrivateSectorInfo)
    → find_info k (xs ++ ys) ≡ or_else (find_info k xs) (find_info k ys)
find_info-append k [] ys = refl
find_info-append k (x ∷ xs) ys = ground (arith, find_info-append k xs ys)

seen_next :
    (info : PrivateSectorInfo) (seen : List ℕ) (result : List PrivateSectorInfo)
    → ((j : ℕ) → has_seen j seen ≡ is_found (find_info j result))
    → (j : ℕ)
    → has_seen j (info.sector_number ∷ seen) ≡ is_found (find_info j (result ++ (info ∷ [])))
unfolding has_seen
seen_next info seen result h j = elim (Option-cases (find_info j result)) [
  | inl absent ↦ ground (arith, h j, find_info-append j result (info ∷ []))
  | inr (x, found) ↦ ground (arith, h j, find_info-append j result (info ∷ []))
]

-- What is kept for a sector: what was, or the first that comes.
find_info-first_infos :
    (k : ℕ) (infos : List PrivateSectorInfo) (seen : List ℕ) (result : List PrivateSectorInfo)
    → ((j : ℕ) → has_seen j seen ≡ is_found (find_info j result))
    → find_info k (first_infos seen result infos) ≡ or_else (find_info k result) (find_info k infos)
unfolding first_infos has_seen
find_info-first_infos k [] seen result h = ground arith
find_info-first_infos k (info ∷ infos) seen result h =
    elim (Bool-cases (has_seen info.sector_number seen)) [
      | inl old ↦ elim (Option-cases (find_info k result)) [
        | inl absent ↦ ground (arith, h k, find_info-first_infos k infos seen result h)
        | inr (x, found) ↦ ground (arith, find_info-first_infos k infos seen result h)
      ]
      | inr new ↦
          let step =
            find_info-first_infos k infos (info.sector_number ∷ seen) (result ++ (info ∷ []))
              (seen_next info seen result h) in
          elim (Option-cases (find_info k result)) [
            | inl absent ↦ ground (arith, step, find_info-append k result (info ∷ []))
            | inr (x, found) ↦ ground (arith, step, find_info-append k result (info ∷ []))
          ]
    ]

Distinct-append :
    (xs : List PrivateSectorInfo) (info : PrivateSectorInfo)
    → Distinct xs
    → find_info info.sector_number xs ≡ none
    → Distinct (xs ++ (info ∷ []))
Distinct-append [] info d n = (refl, tt)
Distinct-append (x ∷ xs) info d n = (
  ground (arith, find_info-append x.sector_number xs (info ∷ [])),
  Distinct-append xs info d.1 (ground arith),
)

first_infos-Distinct :
    (infos : List PrivateSectorInfo) (seen : List ℕ) (result : List PrivateSectorInfo)
    → ((j : ℕ) → has_seen j seen ≡ is_found (find_info j result))
    → Distinct result
    → Distinct (first_infos seen result infos)
unfolding first_infos has_seen
first_infos-Distinct [] seen result h d = d
first_infos-Distinct (info ∷ infos) seen result h d =
    elim (Bool-cases (has_seen info.sector_number seen)) [
      | inl old ↦ rw (first_infos, old) (first_infos-Distinct infos seen result h d)
      | inr new ↦
          let fresh : find_info info.sector_number result ≡ none =
            elim (Option-cases (find_info info.sector_number result)) [
              | inl absent ↦ absent
              | inr (x, found) ↦ absurd (ground (arith, h info.sector_number))
            ] in
          rw (first_infos, new)
            (first_infos-Distinct infos (info.sector_number ∷ seen) (result ++ (info ∷ []))
              (seen_next info seen result h) (Distinct-append result info d fresh))
    ]

find_info-insert_info :
    (k : ℕ) (info : PrivateSectorInfo) (infos : List PrivateSectorInfo)
    → find_info k (insert_info info infos) ≡ find_info k (info ∷ infos)
unfolding insert_info
find_info-insert_info k info [] = refl
find_info-insert_info k info (x ∷ xs) = ground (arith, find_info-insert_info k info xs)

find_info-sort_infos :
    (k : ℕ) (infos : List PrivateSectorInfo) → find_info k (sort_infos infos) ≡ find_info k infos
unfolding sort_infos
find_info-sort_infos k [] = refl
find_info-sort_infos k (x ∷ xs) =
    find_info-insert_info k x (sort_infos xs) ∙ ground (arith, find_info-sort_infos k xs)

AllAbove-insert_info :
    (n : ℕ) (info : PrivateSectorInfo) (infos : List PrivateSectorInfo)
    → n < info.sector_number
    → AllAbove n infos
    → AllAbove n (insert_info info infos)
unfolding insert_info
AllAbove-insert_info n info [] h a = (h, tt)
AllAbove-insert_info n info (x ∷ xs) h a = ground (arith, AllAbove-insert_info n info xs)

AllAbove-trans :
    (m n : ℕ) (infos : List PrivateSectorInfo) → m < n → AllAbove n infos → AllAbove m infos
AllAbove-trans m n [] h a = tt
AllAbove-trans m n (x ∷ xs) h a = (omega arith, AllAbove-trans m n xs h a.1)

insert_info-Ascending :
    (info : PrivateSectorInfo) (infos : List PrivateSectorInfo)
    → find_info info.sector_number infos ≡ none
    → Ascending infos
    → Ascending (insert_info info infos)
unfolding insert_info
insert_info-Ascending info [] n a = (tt, tt)
insert_info-Ascending info (x ∷ xs) n a = ground (
  arith,
  insert_info-Ascending info xs,
  AllAbove-insert_info x.sector_number info xs,
  AllAbove-trans info.sector_number x.sector_number xs,
)

sort_infos-Ascending :
    (infos : List PrivateSectorInfo) → Distinct infos → Ascending (sort_infos infos)
unfolding sort_infos
sort_infos-Ascending [] d = tt
sort_infos-Ascending (x ∷ xs) d =
    insert_info-Ascending x (sort_infos xs) (find_info-sort_infos x.sector_number xs ∙ d.0)
      (sort_infos-Ascending xs d.1)

-- The sectors are in ascending order, each once, and each with the first information given on it.
pub new_sorted_private_sector_info-first :
    (infos : List PrivateSectorInfo) (k : ℕ)
    → let sorted = new_sorted_private_sector_info infos in
      Ascending sorted × (find_info k sorted ≡ find_info k infos)
unfolding new_sorted_private_sector_info has_seen
new_sorted_private_sector_info-first infos k = (
  sort_infos-Ascending _ (first_infos-Distinct infos [] [] (λ j. refl) tt),
  find_info-sort_infos k _ ∙ find_info-first_infos k infos [] [] (λ j. refl),
)
