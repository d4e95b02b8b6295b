-- ===== src/Hwc/Setup/Pipelines.antt =====
-- The pipelines of the overlays on the internal display.
use camerahal.Common.{
  ℕ, ◌+◌, ◌-◌, ◌≤◌, ◌<◌, ◌≡◌, inl, inr, refl, sym, ap, ◌∙◌, Bool, true, false, not, ◌&&◌, ◌||◌,
  Option, none, some, List, [], ◌∷◌, ◌==◌, if◌then◌else◌, Bool-cases, arith,
}
use camerahal.Hwc.{Handle, Layer, Device}
use camerahal.Hwc.Layers.{is_nv12, scaled, is_valid_handle}
use camerahal.Hwc.Decide.{bit, can_dss_render_handle}
use camerahal.Hwc.Decide.Counting.{value_with, total, of_scaled}
use camerahal.Hwc.Setup.{
  Setup, initial_setup, can_place, place, compose_at, compose, step_placed, step_with, step_layer,
  setup_layers,
}
use camerahal.Hwc.Setup.Fields.{ix-lower}

-- Overlay 0 and overlay m have exchanged their pipelines.
abbrev pub exchanged : ℕ → ℕ → ℕ
exchanged m k = if k == 0 then m else if k == m then 0 else k

-- The invariant of the loop: the pipelines without the frame buffer, m being 0 as long as the first
-- overlay is scaled.
pub record HasPipelines (dev : Device) (m : ℕ) (s : Setup) : Type 0 where
  pub first : bit dev.use_sgx ≤ s.num_ovls
  pub gpu : dev.use_sgx ≡ true → m ≡ 0
  pub unscaled : dev.use_sgx ≡ true → s.scaled_gfx ≡ false
  pub within : m ≤ s.num_ovls - 1
  pub scaled_first : s.scaled_gfx ≡ true → m ≡ 0
  pub pipelines : (k : ℕ) → bit dev.use_sgx ≤ k → k < s.num_ovls → (s.overlays k).ix ≡ exchanged m k

-- The number of the overlay that takes over the first pipeline, if the layer does.
abbrev pub takes : Setup → Layer → Handle → Bool
takes s l handle = not (s.num_ovls == 0) && s.scaled_gfx && not (scaled l || is_nv12 handle.format)

ix-place :
    (dev : Device) (s : Setup) (i : ℕ) (l : Layer) (handle : Handle) (k : ℕ)
    → ((place dev s i l handle).overlays k).ix ≡ (
        if takes s l handle && k == 0
        then s.num_ovls
        else if s.num_ovls == k
        then (if takes s l handle then 0 else k)
        else (s.overlays k).ix)
unfolding place
ix-place dev s i l handle k = ground arith

scaled_gfx-place :
    (dev : Device) (s : Setup) (i : ℕ) (l : Layer) (handle : Handle)
    → (place dev s i l handle).scaled_gfx ≡ (
        if s.num_ovls == 0
        then scaled l || is_nv12 handle.format
        else s.scaled_gfx && (scaled l || is_nv12 handle.format))
unfolding place
scaled_gfx-place dev s i l handle = ground arith

num-place :
    (dev : Device) (s : Setup) (i : ℕ) (l : Layer) (handle : Handle)
    → (place dev s i l handle).num_ovls ≡ s.num_ovls + 1
unfolding place
num-place dev s i l handle = refl

place-HasPipelines :
    (dev : Device) (m : ℕ) (s : Setup) (i : ℕ) (l : Layer) (handle : Handle)
    → HasPipelines dev m s
    → HasPipelines dev (if takes s l handle then s.num_ovls else m) (place dev s i l handle)
place-HasPipelines dev m s i l handle w =
    let f = w.first in
    let win = w.within in
    let g = scaled_gfx-place dev s i l handle in
    let n : (place dev s i l handle).num_ovls ≡ s.num_ovls + 1 = num-place dev s i l handle in
    record {
      first = omega arith;
      gpu = λ e. ground (arith, w.gpu e, w.unscaled e);
      unscaled = λ e. let b : bit dev.use_sgx ≡ 1 = ap bit e in ground (arith, w.unscaled e);
      within = ground arith;
      scaled_first = λ e. ground (arith, w.scaled_first);
      pipelines = λ k a b.
          let p = ix-place dev s i l handle k in ground (arith, w.pipelines k a, w.scaled_first);
    }

compose_at-same :
    (s : Setup) (f : Option ℕ)
    → ((compose_at s f).num_ovls ≡ s.num_ovls) × ((compose_at s f).scaled_gfx ≡ s.scaled_gfx)
unfolding compose_at
compose_at-same s none = (refl, refl)
compose_at-same s (some f) = (refl, refl)

ix-compose_at :
    (s : Setup) (f : Option ℕ) (k : ℕ) → ((compose_at s f).overlays k).ix ≡ (s.overlays k).ix
unfolding compose_at
ix-compose_at s none k = refl
ix-compose_at s (some f) k = ix-lower (s.z - 1 - f) f s.overlays k

compose-same :
    (dev : Device) (s : Setup)
    → ((compose dev s).num_ovls ≡ s.num_ovls) × ((compose dev s).scaled_gfx ≡ s.scaled_gfx)
unfolding compose
compose-same dev s = ground (arith, compose_at-same s s.fb_z)

ix-compose :
    (dev : Device) (s : Setup) (k : ℕ) → ((compose dev s).overlays k).ix ≡ (s.overlays k).ix
unfolding compose
ix-compose dev s k = ground (arith, ix-compose_at s s.fb_z k)

compose-HasPipelines :
    (dev : Device) (m : ℕ) (s : Setup) → HasPipelines dev m s → HasPipelines dev m (compose dev s)
compose-HasPipelines dev m s w =
    let (n, g) = compose-same dev s in
    let f = w.first in
    let i = w.within in
    record {
      first = omega arith;
      gpu = w.gpu;
      unscaled = λ e. g ∙ w.unscaled e;
      within = omega arith;
      scaled_first = λ e. w.scaled_first (sym g ∙ e);
      pipelines = λ k a b. ix-compose dev s k ∙ w.pipelines k a (omega arith);
    }

-- The first overlay is scaled only as long as all of them are; `c` counts the layers that are.
abbrev pub IsScaled : ℕ → Setup → Type 0
IsScaled c s = s.scaled_gfx ≡ true → s.num_ovls ≤ c

can_place-valid :
    (dev : Device) (max : ℕ) (s : Setup) (l : Layer) (handle : Handle)
    → can_place dev max s l handle ≡ true
    → is_valid_handle dev l handle ≡ true
unfolding can_place can_dss_render_handle
can_place-valid dev max s l handle h = ground arith

place-IsScaled :
    (dev : Device) (max c : ℕ) (s : Setup) (i : ℕ) (l : Layer) (handle : Handle)
    → can_place dev max s l handle ≡ true
    → IsScaled c s
    → IsScaled (c + value_with dev of_scaled l (some handle)) (place dev s i l handle)
place-IsScaled dev max c s i l handle can w e =
    let g = scaled_gfx-place dev s i l handle in
    let n = num-place dev s i l handle in
    let v = can_place-valid dev max s l handle can in ground arith

-- Both invariants, with the number of the exchanged overlay left open.
abbrev Runs : Device → ℕ → Setup → Type 0
Runs dev c s = ((m : ℕ) × HasPipelines dev m s) × IsScaled c s

step_with-Runs :
    (dev : Device) (max c : ℕ) (s : Setup) (i : ℕ) (l : Layer) (o : Option Handle)
    → Runs dev c s
    → Runs dev (c + value_with dev of_scaled l o) (step_with dev max s i l o).0
unfolding step_with step_placed
step_with-Runs dev max c s i l none ((m, w), g) =
    let (n, e) = compose-same dev s in
    ((m, compose-HasPipelines dev m s w), λ t. omega (arith, g (sym e ∙ t)))
step_with-Runs dev max c s i l (some handle) ((m, w), g) =
    let (n, e) = compose-same dev s in
    elim (Bool-cases (can_place dev max s l handle)) [
      | inl p ↦ rw p (
        (if takes s l handle then s.num_ovls else m, place-HasPipelines dev m s i l handle w),
        place-IsScaled dev max c s i l handle p g,
      )
      | inr p ↦ rw p ((m, compose-HasPipelines dev m s w), λ t. omega (arith, g (sym e ∙ t)))
    ]

pub setup_layers-Runs :
    (dev : Device) (max c : ℕ) (s : Setup) (i : ℕ) (ls : List Layer)
    → Runs dev c s
    → Runs dev (c + total dev of_scaled ls) (setup_layers dev max s i ls).0
unfolding setup_layers step_layer
setup_layers-Runs dev max c s i [] (w, g) = (w, λ e. omega (arith, g e))
setup_layers-Runs dev max c s i (l ∷ ls) r =
    let v = value_with dev of_scaled l l.handle in
    let s' = (step_with dev max s i l l.handle).0 in
    let (w, g) =
      setup_layers-Runs dev max (c + v) s' (i + 1) ls (step_with-Runs dev max c s i l l.handle r) in
    (w, λ e. omega (arith, g e))

pub initial-Runs : (dev : Device) → Runs dev 0 (initial_setup dev)
initial-Runs dev = (
  (
    0,
    record {
      first = omega arith;
      gpu = λ e. refl;
      unscaled = λ e. refl;
      within = omega arith;
      scaled_first = λ e. refl;
      pipelines = λ k a b. absurd (omega arith);
    },
  ),
  λ e. cc,
)
