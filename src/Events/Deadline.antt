-- ===== src/Events/Deadline.antt =====
-- domx/mm_osal/src/timm_osal_events.c: the end of a wait with a timeout.
use camerahal.Common.{ℕ, ◌+◌, ◌*◌, ◌/◌, ◌≤◌, ◌<◌, ◌≡◌, arith, ◌^◌}
use camerahal.Events.{timeout_us, deadline}

-- The end of a wait, in nanoseconds.
abbrev pub nanoseconds : ℕ × ℕ → ℕ
nanoseconds (seconds, rest) = seconds * 1000000 * 1000 + rest

-- Whatever the time and the timeout, the wait ends the timeout after now, less 2 ^ 32 microseconds for
-- each time that the sum of the microseconds wraps around; and the nanoseconds are less than a second,
-- as the call that waits wants it.
pub deadline-wraps :
    (now_s now_us timeout : ℕ)
    → (nanoseconds (deadline now_s now_us timeout)
          + (now_us + 1000 * timeout) / 2 ^ 32 * 2 ^ 32 * 1000
        ≡ (now_s * 1000000 + now_us + 1000 * timeout) * 1000)
      × ((deadline now_s now_us timeout).1 < 1000000 * 1000)
unfolding deadline timeout_us
deadline-wraps now_s now_us timeout = (omega arith, omega arith)

-- The sum does not wrap around for a timeout of at most 4,293,966 milliseconds.
deadline-exact :
    (now_s now_us timeout : ℕ)
    → now_us < 1000000
    → timeout ≤ 4293966
    → nanoseconds (deadline now_s now_us timeout)
      ≡ (now_s * 1000000 + now_us + 1000 * timeout) * 1000
unfolding deadline timeout_us
deadline-exact now_s now_us timeout h k = omega arith
