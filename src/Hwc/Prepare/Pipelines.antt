-- ===== src/Hwc/Prepare/Pipelines.antt =====
-- The pipelines of all overlays of a composition.
use camerahal.Common.{ℕ, ◌+◌, ◌≤◌, ◌<◌, ◌≡◌, ◌⊎◌, inl, inr, sym, ◌∙◌, true, false, List, arith}
use camerahal.Hwc.{Layer, Device, max_hw_overlays}
use camerahal.Hwc.Layers.{is_valid_format}
use camerahal.Hwc.Decide.{
  Counts, bit, share, decide_supported_cloning, can_dss_render_all, reset_composition,
}
use camerahal.Hwc.Decide.Counting.{total, of_scaled}
use camerahal.Hwc.Setup.{Setup, initial_setup, setup_layers}
use camerahal.Hwc.Setup.Bounds.{setup_layers-num, finish_setup-num}
use camerahal.Hwc.Setup.Pipelines.{exchanged}
use camerahal.Hwc.Setup.Exchanged.{setup_layers-HasExchanged}
use camerahal.Hwc.Prepare.{Screen, external_overlays, decide, completed, prepare}
use camerahal.Hwc.Prepare.Clones.{HasClones}
use camerahal.Hwc.Prepare.Switching.{IsBalanced, decide-IsShared, external_overlays-Grows}
use camerahal.Hwc.Prepare.Showing.{use_sgx-decide, use_sgx-prepare, scaled-decide}
use camerahal.Hwc.Prepare.Distinct.{AreDistinct, distinct-parts, decided, inside, valid_fb, clones}

exchanged-injective : (m i j : ℕ) → exchanged m i ≡ exchanged m j → i ≡ j
exchanged-injective m i j e = ground arith

exchanged-le : (m n i : ℕ) → i < n → m ≤ n → exchanged m i ≤ n
exchanged-le m n i h k = ground arith

exchanged-lt : (m n i : ℕ) → i < n → m < n → exchanged m i < n
exchanged-lt m n i h k = ground arith

-- The pipelines of the internal overlays stay below those of the external ones.
module _ (s : Setup) (n : ℕ) (t : Setup) (w : HasClones s n t) where
  pipelines-distinct :
      (m top : ℕ)
      → ((k : ℕ) → k < s.num_ovls → (s.overlays k).ix ≡ exchanged m k)
      → ((k : ℕ) → k < s.num_ovls → exchanged m k < top)
      → top + n ≤ max_hw_overlays
      → (i j : ℕ) → i < t.num_ovls
      → j < t.num_ovls
      → (t.overlays i).ix ≡ (t.overlays j).ix
      → i ≡ j
  pipelines-distinct m top at below fits =
      let inner = λ (k : ℕ) (h : k < s.num_ovls). (w.kept k h).0 ∙ at k h in
      distinct-parts s n t w (λ v. v.ix)
        (λ i j h k e. exchanged-injective m i j (sym (inner i h) ∙ e ∙ inner j k))
        (λ i j h k e. omega (arith, w.pipelines i h, w.pipelines j k))
        (λ i j h k e. omega (arith, inner i h, below i h, w.pipelines j k))

-- With all three, overlay 0 does not reach the pipelines of the external display.
abbrev pub HasRoomForScaling : Device → Device → Type 0
HasRoomForScaling old new =
    (new.use_sgx ≡ true) ⊎ (new.num_ovls < max_hw_overlays) ⊎ (old.ext.mirror.enabled ≡ false)

nonscaling-share :
    (dev : Device) (num : Counts) → dev.ext.mirror.enabled ≡ false → (share dev num).nonscaling ≡ 1
unfolding share
nonscaling-share dev num e = ground (arith, e)

max_scaling-cloning :
    (dev : Device) (num : Counts)
    → dev.ext.mirror.enabled ≡ false
    → 1 ≤ (decide_supported_cloning dev num).1.max_hw
    → (decide_supported_cloning dev num).1.max_hw ≤ max_hw_overlays
    → (decide_supported_cloning dev num).1.max_scaling + 1
      ≡ (decide_supported_cloning dev num).1.max_hw
unfolding decide_supported_cloning
max_scaling-cloning dev num e low high = let n = nonscaling-share dev num e in rw n (omega arith)

max_scaling-decide :
    (dev : Device) (layers : List Layer)
    → dev.ext.mirror.enabled ≡ false
    → 1 ≤ (decide dev layers).1.max_hw
    → (decide dev layers).1.max_hw ≤ max_hw_overlays
    → (decide dev layers).1.max_scaling + 1 ≡ (decide dev layers).1.max_hw
unfolding decide
max_scaling-decide dev layers e low high = max_scaling-cloning dev _ e low high

render_all-scaled :
    (dev : Device) (num : Counts)
    → can_dss_render_all dev num ≡ true
    → num.scaled_layers ≤ num.max_scaling
unfolding can_dss_render_all
render_all-scaled dev num h = ground arith

module _ (screen : Screen) (dev : Device) (layers : List Layer) where
  abbrev settled : Device × Counts
  settled = decided screen dev layers

  abbrev internal : Setup
  internal = inside screen dev layers

  abbrev outside : Setup
  outside = (external_overlays screen settled.0.ext settled.0.ext_ovls internal).0

  -- What there is room for.
  room :
      IsBalanced dev
      → (1 ≤ settled.1.max_hw)
        × (settled.1.max_hw ≤ max_hw_overlays)
        × (internal.num_ovls ≤ settled.1.max_hw)
        × (outside.num_ovls + settled.1.max_hw ≤ internal.num_ovls + max_hw_overlays)
  room w =
      let reset = reset_composition layers in
      let d = settled in
      let sh = decide-IsShared dev reset w in
      let low = sh.some_internal in
      let both = sh.both in
      let first : bit d.0.use_sgx ≤ d.1.max_hw = ground arith in
      let loop = setup_layers d.0 d.1.max_hw (initial_setup d.0) 0 reset in
      let n = setup_layers-num d.0 d.1.max_hw (initial_setup d.0) 0 reset first in
      let e = finish_setup-num d.0 loop.0 in
      let g =
        external_overlays-Grows screen d.0.ext d.0.ext_ovls internal
          (λ a b c. let m = sh.mirrors a b c in omega arith) in
      (low, omega arith, omega arith, omega arith)

  -- A scaled first overlay leaves a pipeline free behind the internal overlays.
  scaled-room :
      IsBalanced dev
      → HasRoomForScaling dev (prepare screen dev layers).0
      → settled.0.use_sgx ≡ false
      → internal.num_ovls ≤ total settled.0 of_scaled (reset_composition layers)
      → outside.num_ovls + 1 ≤ max_hw_overlays
  unfolding prepare completed
  scaled-room w (inl gpu) cpu few =
      absurd (let g = sym (use_sgx-prepare screen dev layers) ∙ gpu in ground arith)
  scaled-room w (inr (inl less)) cpu few = omega arith
  scaled-room w (inr (inr plain)) cpu few =
      let reset = reset_composition layers in
      let (low, high, n, both) = room w in
      let all : can_dss_render_all settled.0 settled.1 ≡ true =
        let u = use_sgx-decide dev reset in ground arith in
      let scaled = render_all-scaled settled.0 settled.1 all in
      omega (arith, max_scaling-decide dev reset plain low high, scaled-decide dev reset)

  -- From a balanced state, with a frame buffer of a known format: after omap4_hwc_prepare no two overlays
  -- use the same pipeline, if the GPU is used, or not all overlays are, or mirroring is not enabled.
  pub prepare-pipelines :
      is_valid_format dev.fb_format ≡ true
      → IsBalanced dev
      → HasRoomForScaling dev (prepare screen dev layers).0
      → AreDistinct (λ o. o.ix) (prepare screen dev layers).0
  unfolding prepare completed
  prepare-pipelines valid w scaling =
      let reset = reset_composition layers in
      let (low, high, few, both) = room w in
      let (n, c) = clones screen dev layers valid in
      let num = c.num_is in
      let (m, x) =
        setup_layers-HasExchanged settled.0 settled.1.max_hw reset
          (valid_fb screen dev layers valid) in
      elim x.within [
        | inl less ↦
            pipelines-distinct internal n outside c m internal.num_ovls x.pipelines
              (λ k h. exchanged-lt m internal.num_ovls k h less) (omega arith)
        | inr (cpu, count, e) ↦
            let r = scaled-room w scaling cpu count in
            pipelines-distinct internal n outside c m (internal.num_ovls + 1) x.pipelines
              (λ k h. let l = exchanged-le m internal.num_ovls k h (omega arith) in omega arith)
              (omega arith)
      ]
