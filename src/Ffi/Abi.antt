-- ===== src/Ffi/Abi.antt =====
-- proofs.go and sector_update.go: the constants of the package `abi`, which are not in this repository,
-- and their conversions to and from the enumerations of the Rust library.
pub mod Laws
use ffi_demo.Base.{String, ◌<>◌}
use ffi_demo.Base.Int.{ℤ}
use ffi_demo.Base.Effect.{message, Result, ok, err}
use ffi_demo.Proofs.Types.{
  RegisteredSealProof, RegisteredPostProof, RegisteredAggregationProof, RegisteredUpdateProof,
}

-- `abi.RegisteredPoStProof`: the constants that the code names, and any other value
pub data AbiPostProof : Type 0 where
  stacked_drg_winning_2kib_v1 stacked_drg_winning_8mib_v1 stacked_drg_winning_512mib_v1
        stacked_drg_winning_32gib_v1 stacked_drg_winning_64gib_v1 stacked_drg_window_2kib_v1
        stacked_drg_window_8mib_v1 stacked_drg_window_512mib_v1 stacked_drg_window_32gib_v1
        stacked_drg_window_64gib_v1 :
      AbiPostProof
  other_post_proof : ℤ → AbiPostProof

-- `abi.RegisteredSealProof`
pub data AbiSealProof : Type 0 where
  stacked_drg_2kib_v1 stacked_drg_8mib_v1 stacked_drg_512mib_v1 stacked_drg_32gib_v1
        stacked_drg_64gib_v1 stacked_drg_2kib_v1_1 stacked_drg_8mib_v1_1 stacked_drg_512mib_v1_1
        stacked_drg_32gib_v1_1 stacked_drg_64gib_v1_1 :
      AbiSealProof
  other_seal_proof : ℤ → AbiSealProof

-- `abi.RegisteredUpdateProof`
pub data AbiUpdateProof : Type 0 where
  stacked_drg_2kib_v1 stacked_drg_8mib_v1 stacked_drg_512mib_v1 stacked_drg_32gib_v1
        stacked_drg_64gib_v1 :
      AbiUpdateProof
  other_update_proof : ℤ → AbiUpdateProof

-- `abi.RegisteredAggregationProof`
pub data AbiAggregationProof : Type 0 where
  snark_pack_v1 : AbiAggregationProof
  other_aggregation_proof : ℤ → AbiAggregationProof

-- `switch p` over the constants
unfoldable pub to_fil_registered_post_proof :
    (ℤ → String) → AbiPostProof → Result RegisteredPostProof
to_fil_registered_post_proof show AbiPostProof.stacked_drg_winning_2kib_v1 =
    ok RegisteredPostProof.stacked_drg_winning_2kib_v1
to_fil_registered_post_proof show AbiPostProof.stacked_drg_winning_8mib_v1 =
    ok RegisteredPostProof.stacked_drg_winning_8mib_v1
to_fil_registered_post_proof show AbiPostProof.stacked_drg_winning_512mib_v1 =
    ok RegisteredPostProof.stacked_drg_winning_512mib_v1
to_fil_registered_post_proof show AbiPostProof.stacked_drg_winning_32gib_v1 =
    ok RegisteredPostProof.stacked_drg_winning_32gib_v1
to_fil_registered_post_proof show AbiPostProof.stacked_drg_winning_64gib_v1 =
    ok RegisteredPostProof.stacked_drg_winning_64gib_v1
to_fil_registered_post_proof show AbiPostProof.stacked_drg_window_2kib_v1 =
    ok RegisteredPostProof.stacked_drg_window_2kib_v1
to_fil_registered_post_proof show AbiPostProof.stacked_drg_window_8mib_v1 =
    ok RegisteredPostProof.stacked_drg_window_8mib_v1
to_fil_registered_post_proof show AbiPostProof.stacked_drg_window_512mib_v1 =
    ok RegisteredPostProof.stacked_drg_window_512mib_v1
to_fil_registered_post_proof show AbiPostProof.stacked_drg_window_32gib_v1 =
    ok RegisteredPostProof.stacked_drg_window_32gib_v1
to_fil_registered_post_proof show AbiPostProof.stacked_drg_window_64gib_v1 =
    ok RegisteredPostProof.stacked_drg_window_64gib_v1
to_fil_registered_post_proof show (AbiPostProof.other_post_proof v) =
    err (message ("no mapping to abi.RegisteredPoStProof value available for: " <> show v))

-- The C enumeration has no other values.
unfoldable pub from_fil_registered_post_proof : RegisteredPostProof → Result AbiPostProof
from_fil_registered_post_proof RegisteredPostProof.stacked_drg_winning_2kib_v1 =
    ok AbiPostProof.stacked_drg_winning_2kib_v1
from_fil_registered_post_proof RegisteredPostProof.stacked_drg_winning_8mib_v1 =
    ok AbiPostProof.stacked_drg_winning_8mib_v1
from_fil_registered_post_proof RegisteredPostProof.stacked_drg_winning_512mib_v1 =
    ok AbiPostProof.stacked_drg_winning_512mib_v1
from_fil_registered_post_proof RegisteredPostProof.stacked_drg_winning_32gib_v1 =
    ok AbiPostProof.stacked_drg_winning_32gib_v1
from_fil_registered_post_proof RegisteredPostProof.stacked_drg_winning_64gib_v1 =
    ok AbiPostProof.stacked_drg_winning_64gib_v1
from_fil_registered_post_proof RegisteredPostProof.stacked_drg_window_2kib_v1 =
    ok AbiPostProof.stacked_drg_window_2kib_v1
from_fil_registered_post_proof RegisteredPostProof.stacked_drg_window_8mib_v1 =
    ok AbiPostProof.stacked_drg_window_8mib_v1
from_fil_registered_post_proof RegisteredPostProof.stacked_drg_window_512mib_v1 =
    ok AbiPostProof.stacked_drg_window_512mib_v1
from_fil_registered_post_proof RegisteredPostProof.stacked_drg_window_32gib_v1 =
    ok AbiPostProof.stacked_drg_window_32gib_v1
from_fil_registered_post_proof RegisteredPostProof.stacked_drg_window_64gib_v1 =
    ok AbiPostProof.stacked_drg_window_64gib_v1

-- `switch p` over the constants
unfoldable pub to_fil_registered_seal_proof :
    (ℤ → String) → AbiSealProof → Result RegisteredSealProof
to_fil_registered_seal_proof show AbiSealProof.stacked_drg_2kib_v1 =
    ok RegisteredSealProof.stacked_drg_2kib_v1
to_fil_registered_seal_proof show AbiSealProof.stacked_drg_8mib_v1 =
    ok RegisteredSealProof.stacked_drg_8mib_v1
to_fil_registered_seal_proof show AbiSealProof.stacked_drg_512mib_v1 =
    ok RegisteredSealProof.stacked_drg_512mib_v1
to_fil_registered_seal_proof show AbiSealProof.stacked_drg_32gib_v1 =
    ok RegisteredSealProof.stacked_drg_32gib_v1
to_fil_registered_seal_proof show AbiSealProof.stacked_drg_64gib_v1 =
    ok RegisteredSealProof.stacked_drg_64gib_v1
to_fil_registered_seal_proof show AbiSealProof.stacked_drg_2kib_v1_1 =
    ok RegisteredSealProof.stacked_drg_2kib_v1_1
to_fil_registered_seal_proof show AbiSealProof.stacked_drg_8mib_v1_1 =
    ok RegisteredSealProof.stacked_drg_8mib_v1_1
to_fil_registered_seal_proof show AbiSealProof.stacked_drg_512mib_v1_1 =
    ok RegisteredSealProof.stacked_drg_512mib_v1_1
to_fil_registered_seal_proof show AbiSealProof.stacked_drg_32gib_v1_1 =
    ok RegisteredSealProof.stacked_drg_32gib_v1_1
to_fil_registered_seal_proof show AbiSealProof.stacked_drg_64gib_v1_1 =
    ok RegisteredSealProof.stacked_drg_64gib_v1_1
to_fil_registered_seal_proof show (AbiSealProof.other_seal_proof v) =
    err (message ("no mapping to C.FFIRegisteredSealProof value available for: " <> show v))

-- `switch p` over the constants
unfoldable pub to_fil_registered_update_proof :
    (ℤ → String) → AbiUpdateProof → Result RegisteredUpdateProof
to_fil_registered_update_proof show AbiUpdateProof.stacked_drg_2kib_v1 =
    ok RegisteredUpdateProof.stacked_drg_2kib_v1
to_fil_registered_update_proof show AbiUpdateProof.stacked_drg_8mib_v1 =
    ok RegisteredUpdateProof.stacked_drg_8mib_v1
to_fil_registered_update_proof show AbiUpdateProof.stacked_drg_512mib_v1 =
    ok RegisteredUpdateProof.stacked_drg_512mib_v1
to_fil_registered_update_proof show AbiUpdateProof.stacked_drg_32gib_v1 =
    ok RegisteredUpdateProof.stacked_drg_32gib_v1
to_fil_registered_update_proof show AbiUpdateProof.stacked_drg_64gib_v1 =
    ok RegisteredUpdateProof.stacked_drg_64gib_v1
to_fil_registered_update_proof show (AbiUpdateProof.other_update_proof v) =
    err (message ("no mapping to abi.RegisteredUpdateProof value available for: " <> show v))

-- The C enumeration has no other values.
unfoldable pub from_fil_registered_update_proof : RegisteredUpdateProof → Result AbiUpdateProof
from_fil_registered_update_proof RegisteredUpdateProof.stacked_drg_2kib_v1 =
    ok AbiUpdateProof.stacked_drg_2kib_v1
from_fil_registered_update_proof RegisteredUpdateProof.stacked_drg_8mib_v1 =
    ok AbiUpdateProof.stacked_drg_8mib_v1
from_fil_registered_update_proof RegisteredUpdateProof.stacked_drg_512mib_v1 =
    ok AbiUpdateProof.stacked_drg_512mib_v1
from_fil_registered_update_proof RegisteredUpdateProof.stacked_drg_32gib_v1 =
    ok AbiUpdateProof.stacked_drg_32gib_v1
from_fil_registered_update_proof RegisteredUpdateProof.stacked_drg_64gib_v1 =
    ok AbiUpdateProof.stacked_drg_64gib_v1

-- `switch p` over the constants
unfoldable pub to_fil_registered_aggregation_proof :
    (ℤ → String) → AbiAggregationProof → Result RegisteredAggregationProof
to_fil_registered_aggregation_proof show AbiAggregationProof.snark_pack_v1 =
    ok RegisteredAggregationProof.snark_pack_v1
to_fil_registered_aggregation_proof show (AbiAggregationProof.other_aggregation_proof v) =
    err (message ("no mapping to abi.RegisteredAggregationProof value available for: " <> show v))
