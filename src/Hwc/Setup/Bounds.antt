-- ===== src/Hwc/Setup/Bounds.antt =====
-- The loop stays within the overlays and the memory that it may use.
use camerahal.Common.{ℕ, ◌+◌, ◌≤◌, ◌≡◌, refl, Option, none, some, List, [], ◌∷◌, arith}
use camerahal.Hwc.{Handle, Layer, Device}
use camerahal.Hwc.Setup.{
  Setup, place, compose_at, compose, step_placed, step_with, step_layer, setup_layers, with_gfx,
  with_fb, fb_at, finish_setup,
}
use camerahal.Hwc.Setup.Fields.{can_place-lt}

compose_at-num : (s : Setup) (f : Option ℕ) → (compose_at s f).num_ovls ≡ s.num_ovls
unfolding compose_at
compose_at-num s none = refl
compose_at-num s (some f) = refl

compose-num : (dev : Device) (s : Setup) → (compose dev s).num_ovls ≡ s.num_ovls
unfolding compose
compose-num dev s = ground (arith, compose_at-num s s.fb_z)

step_with-num :
    (dev : Device) (max : ℕ) (s : Setup) (i : ℕ) (l : Layer) (h : Option Handle)
    → s.num_ovls ≤ max
    → (step_with dev max s i l h).0.num_ovls ≤ max
unfolding step_with step_placed place
step_with-num dev max s i l none w = omega (arith, compose-num dev s)
step_with-num dev max s i l (some handle) w =
    ground (arith, compose-num dev s, can_place-lt dev max s l handle)

-- No more overlays than are given to the internal display.
pub setup_layers-num :
    (dev : Device) (max : ℕ) (s : Setup) (i : ℕ) (ls : List Layer)
    → s.num_ovls ≤ max
    → (setup_layers dev max s i ls).0.num_ovls ≤ max
unfolding setup_layers step_layer
setup_layers-num dev max s i [] w = w
setup_layers-num dev max s i (l ∷ ls) w =
    setup_layers-num dev max (step_with dev max s i l l.handle).0 (i + 1) ls
      (step_with-num dev max s i l l.handle w)

with_fb-num : (dev : Device) (s : Setup) (f : Option ℕ) → (with_fb dev s f).num_ovls ≡ s.num_ovls
unfolding with_fb fb_at
with_fb-num dev s none = refl
with_fb-num dev s (some f) = refl

with_gfx-num : (s : Setup) → (with_gfx s).num_ovls ≡ s.num_ovls
unfolding with_gfx
with_gfx-num s = ground arith

pub finish_setup-num : (dev : Device) (s : Setup) → (finish_setup dev s).num_ovls ≡ s.num_ovls
unfolding finish_setup
finish_setup-num dev s =
    ground (arith, with_fb-num dev (with_gfx s) (with_gfx s).fb_z, with_gfx-num s)
