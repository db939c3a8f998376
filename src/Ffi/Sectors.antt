-- ===== src/Ffi/Sectors.antt =====
-- types.go: `NewSortedPrivateSectorInfo` and `SplitSortedPrivateSectorInfo`.
pub mod Laws
pub mod Replicas
use ffi_demo.Base.{
  ℕ, ◌-◌, Bool, true, false, ◌||◌, List, [], ◌∷◌, ◌++◌, take, drop, length, ltb, leb, ◌==◌,
  if◌then◌else◌,
}
use ffi_demo.Go.{GoEnd, done, panicked}
use ffi_demo.Ffi.Replicas.{PrivateSectorInfo}

-- `_, found := seen[n]`
unfoldable pub has_seen : ℕ → List ℕ → Bool
has_seen n [] = false
has_seen n (m ∷ seen) = if n == m then true else has_seen n seen

-- The loop, with the sectors seen so far and the result.
unfoldable pub first_infos :
    List ℕ → List PrivateSectorInfo → List PrivateSectorInfo → List PrivateSectorInfo
unfolding has_seen
first_infos seen result [] = result
first_infos seen result (info ∷ sector_info) =
    let n = info.sector_number in
    let skip = first_infos seen result sector_info in
    let keep = first_infos (n ∷ seen) (result ++ (info ∷ [])) sector_info in
    if has_seen n seen then skip else keep

-- `sort.Slice` by the sector numbers, which are all different here, so that every sort has this result
unfoldable pub insert_info : PrivateSectorInfo → List PrivateSectorInfo → List PrivateSectorInfo
insert_info info [] = info ∷ []
insert_info info (other ∷ infos) =
    let rest = insert_info info infos in
    if leb info.sector_number other.sector_number then info ∷ other ∷ infos else other ∷ rest

unfoldable pub sort_infos : List PrivateSectorInfo → List PrivateSectorInfo
unfolding insert_info
sort_infos [] = []
sort_infos (info ∷ infos) = insert_info info (sort_infos infos)

unfoldable pub new_sorted_private_sector_info : List PrivateSectorInfo → List PrivateSectorInfo
unfolding first_infos sort_infos
new_sorted_private_sector_info sector_info = sort_infos (first_infos [] [] sector_info)

-- `sortPrivSectors.f[start:end]`, on a slice whose capacity is its length
unfoldable pub split_sorted_private_sector_info :
    List PrivateSectorInfo → ℕ → ℕ → GoEnd (List PrivateSectorInfo)
split_sorted_private_sector_info infos start end =
    if ltb (length infos) end
    then panicked
    else if ltb end start
    then panicked
    else done (take (end - start) (drop start infos))
