-- ===== src/Hwc/Setup/Placing.antt =====
-- Layers that all get an overlay.
use camerahal.Common.{
  ℕ, suc, ◌+◌, ◌≤◌, ◌<◌, ◌≡◌, refl, sym, subst, true, Option, none, some, List, [], ◌∷◌, length,
  All, arith,
}
use camerahal.Hwc.{Handle, Layer, Device, max_tiler_slot}
use camerahal.Hwc.Layers.{mem1d}
use camerahal.Hwc.Decide.{can_dss_render_handle}
use camerahal.Hwc.Decide.Rendering.{Renders}
use camerahal.Hwc.Setup.{Setup, can_place, place, step_placed, step_with, step_layer, setup_layers}

abbrev pub memory_of : Option Handle → ℕ
memory_of none = 0
memory_of (some handle) = mem1d handle

-- The memory of the buffers that are not NV12.
abbrev pub memory : List Layer → ℕ
memory [] = 0
memory (l ∷ ls) = memory_of l.handle + memory ls

-- The variables of the loop leave room for the layers.
abbrev pub HasRoom : ℕ → Setup → List Layer → Type 0
HasRoom max s ls =
    (s.num_ovls + length ls ≤ max) × (s.mem_used + memory ls < max_tiler_slot) × (s.fb_z ≡ none)

module _ (dev : Device) (max : ℕ) (unforced : dev.force_sgx ≡ 0) where
  can_place-Renders :
      (s : Setup) (l : Layer) (handle : Handle)
      → can_dss_render_handle dev l handle ≡ true
      → s.num_ovls < max
      → s.mem_used + mem1d handle < max_tiler_slot
      → s.fb_z ≡ none
      → can_place dev max s l handle ≡ true
  unfolding can_place
  can_place-Renders s l handle r n m f = ground arith

  step_with-placed :
      (s : Setup) (i : ℕ) (l : Layer) (o : Option Handle) (handle : Handle)
      → o ≡ some handle
      → can_place dev max s l handle ≡ true
      → step_with dev max s i l o ≡ step_placed dev s i l handle
  unfolding step_with
  step_with-placed s i l o handle e p = rw (e, step_with, p) refl

  placed-HasRoom :
      (s : Setup) (i : ℕ) (l : Layer) (ls : List Layer) (handle : Handle)
      → s.num_ovls + suc (length ls) ≤ max
      → s.mem_used + (mem1d handle + memory ls) < max_tiler_slot
      → s.fb_z ≡ none
      → HasRoom max (step_placed dev s i l handle).0 ls
  unfolding step_placed place
  placed-HasRoom s i l ls handle n m f = (omega arith, omega arith, f)

  placed-is_overlay :
      (s : Setup) (i : ℕ) (l : Layer) (handle : Handle)
      → (step_placed dev s i l handle).1.is_overlay ≡ true
  unfolding step_placed
  placed-is_overlay s i l handle = refl

  pub setup_layers-All :
      (s : Setup) (i : ℕ) (ls : List Layer)
      → All (Renders dev) ls
      → HasRoom max s ls
      → All (λ l. l.is_overlay ≡ true) (setup_layers dev max s i ls).1
  unfolding setup_layers step_layer
  setup_layers-All s i [] r room = tt
  setup_layers-All s i (l ∷ ls) (here, rest) (n, m, f) =
      let (handle, e, can) = here in
      let m' : s.mem_used + (mem1d handle + memory ls) < max_tiler_slot =
        subst (λ o. s.mem_used + (memory_of o + memory ls) < max_tiler_slot) e m in
      let p = can_place-Renders s l handle can (omega arith) (omega arith) f in
      let next = step_placed dev s i l handle in
      subst (λ r. All (λ k. k.is_overlay ≡ true) (r.1 ∷ (setup_layers dev max r.0 (i + 1) ls).1))
        (sym (step_with-placed s i l l.handle handle e p))
        (
          placed-is_overlay s i l handle,
          setup_layers-All next.0 (i + 1) ls rest (placed-HasRoom s i l ls handle n m' f),
        )
