-- ===== src/Status.antt =====
-- security/tf_sdk/include/s_error.h: the S_RESULT codes that the modelled functions return.

pub data SError : Type 0 where
  bad_format item_not_found item_exists out_of_memory bad_parameters underlying_os : SError

-- S_SUCCESS with what a function hands back, an error code, or a call that is still running when
-- the fuel of its loops is used up.
pub data Outcome {ℓ} (A : Type ℓ) : Type ℓ where
  success : A → Outcome A
  error : SError → Outcome A
  running : Outcome A
