-- ===== src/Hwc/Prepare/Balance.antt =====
-- How many overlays each display gets, from one composition to the next.
use camerahal.Common.{ℕ, ◌≤◌, ◌≡◌, Bool, List, [], ◌∷◌, arith}
use camerahal.Hwc.{Layer, Device}
use camerahal.Hwc.Decide.{bit, reset_composition}
use camerahal.Hwc.Setup.{Setup, initial_setup, setup_layers, finish_setup}
use camerahal.Hwc.Setup.Bounds.{setup_layers-num, finish_setup-num}
use camerahal.Hwc.Prepare.{Screen, decide, completed, prepare}
use camerahal.Hwc.Posts.{Posting, set, HotplugSettings, switch_event, idle_timeout}
use camerahal.Hwc.Prepare.Switching.{
  IsBalanced, IsShared, external_overlays-Grows, decide-IsShared, decide-last,
}

completed-IsBalanced :
    (screen : Screen) (old dev : Device) (s : Setup) (max : ℕ)
    → IsBalanced old
    → IsShared old max dev.ext_ovls dev.ext.current
    → dev.last_ext_ovls ≡ old.last_ext_ovls
    → dev.last_int_ovls ≡ old.last_int_ovls
    → s.num_ovls ≤ max
    → IsBalanced (completed screen dev s)
unfolding completed
completed-IsBalanced screen old dev s max w d e f few =
    let g =
      external_overlays-Grows screen dev.ext dev.ext_ovls s
        (λ a b c. let m = d.mirrors a b c in omega arith) in
    let last = w.last in
    let last_half = w.last_half in
    let half = d.half in
    let both = d.both in
    let free = d.free in
    let free_external = d.free_external in
    record {
      now = ground arith;
      last = omega arith;
      to_internal = omega arith;
      to_external = ground arith;
      half = ground arith;
      last_half = omega arith;
    }

prepare-IsBalanced :
    (screen : Screen) (dev : Device) (layers : List Layer)
    → IsBalanced dev
    → IsBalanced (prepare screen dev layers).0
unfolding prepare
prepare-IsBalanced screen dev layers w =
    let reset = reset_composition layers in
    let d = decide dev reset in
    let sh = decide-IsShared dev reset w in
    let last = decide-last dev reset in
    let first : bit d.0.use_sgx ≤ d.1.max_hw = let m = sh.some_internal in ground arith in
    let loop = setup_layers d.0 d.1.max_hw (initial_setup d.0) 0 reset in
    let n = setup_layers-num d.0 d.1.max_hw (initial_setup d.0) 0 reset first in
    completed-IsBalanced screen dev d.0 (finish_setup d.0 loop.0) d.1.max_hw w sh last.0 last.1
      (omega (arith, finish_setup-num d.0 loop.0))

-- What happens to the composer, with what its environment answers.
pub data Event : Type 0 where
  prepares : Screen → List Layer → Event
  sets : Posting → Event
  switches : Bool → Bool → HotplugSettings → Event
  idles : Event

abbrev pub after : Device → Event → Device
after dev (prepares screen layers) = (prepare screen dev layers).0
after dev (sets p) = (set dev p).0
after dev (switches is_dock state p) = switch_event dev is_dock state p
after dev idles = (idle_timeout dev).0

abbrev pub run : Device → List Event → Device
run dev [] = dev
run dev (e ∷ es) = run (after dev e) es

set-IsBalanced : (dev : Device) (p : Posting) → IsBalanced dev → IsBalanced (set dev p).0
unfolding set
set-IsBalanced dev p w = ground arith

switch_event-IsBalanced :
    (dev : Device) (is_dock state : Bool) (p : HotplugSettings)
    → IsBalanced dev
    → IsBalanced (switch_event dev is_dock state p)
unfolding switch_event
switch_event-IsBalanced dev is_dock state p w = record {
  now = w.now;
  last = w.last;
  to_internal = w.to_internal;
  to_external = w.to_external;
  half = w.half;
  last_half = w.last_half;
}

idle_timeout-IsBalanced : (dev : Device) → IsBalanced dev → IsBalanced (idle_timeout dev).0
unfolding idle_timeout
idle_timeout-IsBalanced dev w = ground arith

after-IsBalanced : (dev : Device) (e : Event) → IsBalanced dev → IsBalanced (after dev e)
after-IsBalanced dev (prepares screen layers) w = prepare-IsBalanced screen dev layers w
after-IsBalanced dev (sets p) w = set-IsBalanced dev p w
after-IsBalanced dev (switches is_dock state p) w = switch_event-IsBalanced dev is_dock state p w
after-IsBalanced dev idles w = idle_timeout-IsBalanced dev w

-- From a balanced state, whatever sequence of compositions, posts, plugged displays and timeouts: the
-- numbers of overlays of the two displays add up to no more than there are, within a composition,
-- within the one that was posted last, and between the two: the overlays that one display gets fit
-- beside those that the other one had last. Of the external display there are at most two. The
-- statement is about the numbers, not about which pipelines the overlays use.
pub run-IsBalanced : (dev : Device) (es : List Event) → IsBalanced dev → IsBalanced (run dev es)
run-IsBalanced dev [] w = w
run-IsBalanced dev (e ∷ es) w = run-IsBalanced (after dev e) es (after-IsBalanced dev e w)
