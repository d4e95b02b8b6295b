-- ===== src/Hwc/Prepare/Showing.antt =====
-- A composition without the GPU shows every layer.
use camerahal.Common.{
  ℕ, ◌≤◌, ◌<◌, ◌≡◌, ◌⊎◌, inl, inr, refl, sym, ap, ◌∙◌, true, false, not, ◌&&◌, ◌||◌, Option, none,
  some, List, [], ◌∷◌, ◌==◌, length, All, arith,
}
use camerahal.Hwc.{Handle, Layer, Device, max_tiler_slot}
use camerahal.Hwc.Layers.{is_valid_handle}
use camerahal.Hwc.Decide.{
  Counts, bit, reset_composition, decide_supported_cloning, transforms, shows_on_tv,
  can_dss_render_all,
}
use camerahal.Hwc.Decide.Counting.{
  value_with, total, one, of_bgr, of_rgb, of_nv12, of_scaled, gather-scaled, gather-possible,
  gather-bgr, gather-rgb, gather-nv12, gather-composited,
}
use camerahal.Hwc.Decide.Rendering.{LayersFit, LayersFit-Renders}
use camerahal.Hwc.Setup.{initial_setup}
use camerahal.Hwc.Setup.Placing.{memory, setup_layers-All}
use camerahal.Hwc.Prepare.{Screen, no_counts, decide, completed, prepare}

module _ (dev : Device) (layers : List Layer) where
  valid-decide :
      (l : Layer) (handle : Handle)
      → is_valid_handle (decide dev layers).0 l handle ≡ is_valid_handle dev l handle
  unfolding decide decide_supported_cloning is_valid_handle
  valid-decide l handle = refl

  total-decide :
      (f : Layer → Handle → ℕ) (ls : List Layer) → total (decide dev layers).0 f ls ≡ total dev f ls
  total-decide f [] = refl
  total-decide f (l ∷ ls) = omega (arith, value_with-decide l l.handle, total-decide f ls)
    where
      value_with-decide :
          (l : Layer) (o : Option Handle)
          → value_with (decide dev layers).0 f l o ≡ value_with dev f l o
      value_with-decide l none = refl
      value_with-decide l (some handle) = rw (valid-decide l handle) refl

  pub use_sgx-decide :
      (decide dev layers).0.use_sgx
      ≡ not (can_dss_render_all (decide dev layers).0 (decide dev layers).1)
  unfolding decide can_dss_render_all
  use_sgx-decide = refl

  swap_rb-decide :
      can_dss_render_all (decide dev layers).0 (decide dev layers).1 ≡ true
      → (decide dev layers).0.swap_rb ≡ not ((decide dev layers).1.bgr == 0)
  unfolding decide can_dss_render_all decide_supported_cloning
  swap_rb-decide all = rw all refl

  pub scaled-decide :
      (decide dev layers).1.scaled_layers ≡ total (decide dev layers).0 of_scaled layers
  unfolding decide decide_supported_cloning
  scaled-decide =
      omega
        (arith, gather-scaled dev (no_counts (length layers)) layers, total-decide of_scaled layers)

  counts-decide :
      ((decide dev layers).1.possible_overlay_layers ≡ total (decide dev layers).0 one layers)
      × ((decide dev layers).1.composited_layers ≡ length layers)
      × ((decide dev layers).1.nv12 ≡ total (decide dev layers).0 of_nv12 layers)
      × ((decide dev layers).1.bgr ≡ total (decide dev layers).0 of_bgr layers)
      × ((decide dev layers).1.rgb ≡ total (decide dev layers).0 of_rgb layers)
  unfolding decide decide_supported_cloning
  counts-decide =
      let num = no_counts (length layers) in
      (
        omega (arith, gather-possible dev num layers, total-decide one layers),
        omega (arith, gather-composited dev num layers),
        omega (arith, gather-nv12 dev num layers, total-decide of_nv12 layers),
        omega (arith, gather-bgr dev num layers, total-decide of_bgr layers),
        omega (arith, gather-rgb dev num layers, total-decide of_rgb layers),
      )

-- What the check of all layers asks for.
render_all-counts :
    (dev : Device) (num : Counts)
    → can_dss_render_all dev num ≡ true
    → (dev.force_sgx ≡ 0)
      × (num.possible_overlay_layers ≤ num.max_hw)
      × (num.possible_overlay_layers ≡ num.composited_layers)
      × (transforms dev ≡ true → num.nv12 ≡ num.possible_overlay_layers)
      × ((num.bgr == 0 || num.rgb == 0 && not (shows_on_tv dev) || not dev.flags_rgb_order) ≡ true)
unfolding can_dss_render_all
render_all-counts dev num h =
    (ground arith, ground arith, ground arith, λ e. ground arith, ground arith)

render_all-LayersFit :
    (dev : Device) (num : Counts) (ls : List Layer)
    → can_dss_render_all dev num ≡ true
    → dev.swap_rb ≡ not (num.bgr == 0)
    → (num.possible_overlay_layers ≡ total dev one ls)
      × (num.composited_layers ≡ length ls)
      × (num.nv12 ≡ total dev of_nv12 ls)
      × (num.bgr ≡ total dev of_bgr ls)
      × (num.rgb ≡ total dev of_rgb ls)
    → (dev.flags_rgb_order ≡ true) ⊎ (dev.ext.on_tv ≡ false)
    → LayersFit dev ls
render_all-LayersFit dev num ls all swap (possible, composited, nv, bgr, rgb) order =
    let (u, few, same, turned, colours) = render_all-counts dev num all in
    record {
      possible_all = omega arith;
      nv12_all = λ e. omega (arith, turned e);
      bgr_none = λ s e. ground arith;
      rgb_none = λ s e. ground arith;
      tv_none = λ e. ground arith;
    }

on_tv-decide :
    (dev : Device) (layers : List Layer)
    → ((decide dev layers).0.ext.on_tv ≡ dev.ext.on_tv)
      × ((decide dev layers).0.flags_rgb_order ≡ dev.flags_rgb_order)
unfolding decide decide_supported_cloning
on_tv-decide dev layers = (refl, refl)

memory-reset : (ls : List Layer) → memory (reset_composition ls) ≡ memory ls
memory-reset [] = refl
memory-reset (l ∷ ls) = omega (arith, memory-reset ls)

pub use_sgx-prepare :
    (screen : Screen) (dev : Device) (layers : List Layer)
    → (prepare screen dev layers).0.use_sgx ≡ (decide dev (reset_composition layers)).0.use_sgx
unfolding prepare completed
use_sgx-prepare screen dev layers = refl

-- If the composer does without the GPU, every layer has an overlay, as long as the buffers that are not
-- NV12 take less than a TILER slot together, and the order of the colours is checked or the external
-- display is no TV.
pub prepare-shows-All :
    (screen : Screen) (dev : Device) (layers : List Layer)
    → (prepare screen dev layers).0.use_sgx ≡ false
    → memory layers < max_tiler_slot
    → (dev.flags_rgb_order ≡ true) ⊎ (dev.ext.on_tv ≡ false)
    → All (λ l. l.is_overlay ≡ true) (prepare screen dev layers).1
unfolding prepare
prepare-shows-All screen dev layers cpu small order =
    let ls = reset_composition layers in
    let d = decide dev ls in
    let gpu : d.0.use_sgx ≡ false = sym (use_sgx-prepare screen dev layers) ∙ cpu in
    let all : can_dss_render_all d.0 d.1 ≡ true = let u = use_sgx-decide dev ls in ground arith in
    let counts = counts-decide dev ls in
    let fit = render_all-LayersFit d.0 d.1 ls all (swap_rb-decide dev ls all) counts (
      let e = on_tv-decide dev ls in
      elim order [ inl o ↦ inl (e.1 ∙ o) | inr o ↦ inr (e.0 ∙ o) ]) in
    let (unforced, few, same, turned, colours) = render_all-counts d.0 d.1 all in
    let n : bit d.0.use_sgx ≡ 0 = ap bit gpu in
    let m = memory-reset layers in
    let num = counts.1 in
    setup_layers-All d.0 d.1.max_hw unforced (initial_setup d.0) 0 ls
      (LayersFit-Renders d.0 gpu ls fit) (omega arith, omega arith, refl)
