-- ===== src/OmxCore/Errors.antt =====
-- domx/omx_core/inc/OMX_Core.h: OMX_ERRORTYPE.
use camerahal.Common.{ℕ, Bool, true, false}

-- The codes that the core itself returns, and the others by their number.
pub data OmxError : Type 0 where
  error_none insufficient_resources undefined_error invalid_component_name : OmxError
  component_not_found invalid_component bad_parameter not_implemented no_more : OmxError
  other : ℕ → OmxError

abbrev pub is_none : OmxError → Bool
is_none error_none = true
is_none _ = false
