-- ===== src/Examples/StoreRuns.antt =====
-- The stores over a Go side that counts its calls.
use native.Mathlib.Decide.{ℕ_discrete}
use ffi_demo.Base.{ℕ, refl, some, List, [], ◌∷◌, concat, ◌≡◌, ◌≤◌, arith}
use ffi_demo.Base.Map.{lookup}
use ffi_demo.Base.Effect.{ok, returns}
use ffi_demo.Fvm.Blockstore.Cgo
use ffi_demo.Fvm.Blockstore.Cgo.{has_code, get_code, put_code}
use ffi_demo.Fvm.Blockstore.Batches.{Blocks, batches, send_all}
use ffi_demo.Fvm.Blockstore.Batches.Refines.{WritesCids, put_many_keyed-send_all}
use ffi_demo.Fvm.Blockstore.Batches.Bounds.{AllFit, put_many_keyed-AllFit}
use ffi_demo.Fvm.Blockstore.Overlay
use ffi_demo.Fvm.Blockstore.Overlay.{OverlayBlockstore}
use ffi_demo.Fvm.Blockstore.Overlay.Laws.{
  Call, call_get, call_put_keyed, after_calls, get-after_calls,
}
use ffi_demo.Examples.Concrete.{cids, std, go, store}

-- The CID of the first block is right, that of the second is not.
abbrev two_blocks : Blocks cids
two_blocks = (3, 1 ∷ 2 ∷ []) ∷ (5, 9 ∷ []) ∷ []

cids-WritesCids : WritesCids cids
cids-WritesCids = record { writes = λ k. refl; has_bytes = λ k. omega arith }

put_many_keyed-send_all_example :
    Cgo.put_many_keyed std cids go 1 two_blocks 0
    ≡ send_all std cids go 1 (batches cids [] two_blocks) 0
put_many_keyed-send_all_example = put_many_keyed-send_all std cids go 1 cids-WritesCids two_blocks 0

short_cid : (k : ℕ) → 1 ≤ 100
short_cid k = omega arith

put_many_keyed-AllFit_example :
    (bs : List (Blocks cids)) × (Cgo.put_many_keyed std cids go 1 two_blocks 0
      ≡ send_all std cids go 1 bs 0)
    × (concat bs ≡ two_blocks)
    × AllFit cids bs
put_many_keyed-AllFit_example =
    put_many_keyed-AllFit std cids go 1 cids-WritesCids short_cid two_blocks 0

abbrev overlaid : OverlayBlockstore store
overlaid = record { over = (3, 1 ∷ []) ∷ []; base = 0 }

abbrev some_calls : List (Call cids ℕ)
some_calls = call_put_keyed 3 (2 ∷ []) ∷ call_get 4 ∷ []

overlaid_3 : lookup cids.cid_dec 3 overlaid.over ≡ some (1 ∷ [])
unfolding lookup ℕ_discrete
overlaid_3 = refl

get-after_calls_example :
    (Overlay.get store 3 (after_calls store some_calls overlaid)).0 ≡ returns (ok (some (1 ∷ [])))
get-after_calls_example = get-after_calls store some_calls overlaid 3 (1 ∷ []) overlaid_3
