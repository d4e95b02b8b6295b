-- ===== src/Hwc/Setup.antt =====
-- hwc/hwc.c: the loop of omap4_hwc_prepare that hands the layers to overlays or to the GPU.
pub mod Fields
pub mod Bounds
pub mod Stacking
pub mod Order
pub mod Distinct
pub mod Placing
pub mod Pipelines
pub mod Exchanged
pub mod Holes
use camerahal.Common.{
  ℕ, zero, suc, ◌+◌, ◌-◌, ◌*◌, ◌%◌, Bool, true, false, not, ◌&&◌, ◌||◌, Option, none, some, List,
  [], ◌∷◌, ltb, ◌==◌, if◌then◌else◌,
}
use camerahal.Hwc.{
  word, signed_lt, Handle, Layer, layer_ix, View, blank_overlay, Overlay, Device, max_tiler_slot,
  put,
}
use camerahal.Hwc.Layers.{is_nv12, is_blended, scaled, mem1d, setup_layer, setup_layer_base}
use camerahal.Hwc.Decide.{bit, can_dss_render_handle}

-- The variables of the loop. `fb_z` is the z-order of the frame buffer, `none` for -1; `ix_docking` the
-- overlay that docking shows.
pub record Setup : Type 0 where
  pub overlays : ℕ → Overlay
  pub num_ovls : ℕ
  pub buffers : ℕ → Option Handle
  pub z : ℕ
  pub fb_z : Option ℕ
  pub scaled_gfx : Bool
  pub ix_docking : Option ℕ
  pub mem_used : ℕ
  pub ovls_blending : Bool

abbrev pub initial_setup : Device → Setup
initial_setup dev = record {
  overlays = λ i. blank_overlay;
  num_ovls = bit dev.use_sgx;
  buffers = dev.buffers;
  z = 0;
  fb_z = none;
  scaled_gfx = false;
  ix_docking = none;
  mem_used = 0;
  ovls_blending = false;
}

-- The area of the window, 32 bits of it.
abbrev pub display_area : Overlay → ℕ
display_area o = o.view.win_w * o.view.win_h % word

abbrev pub is_some {ℓ} : {A : Type ℓ} → Option A → Bool
is_some none = false
is_some (some a) = true

-- Whether the layer gets an overlay of its own; `max` is the number of overlays.
unfoldable pub can_place : Device → ℕ → Setup → Layer → Handle → Bool
can_place dev max s l handle =
    ltb s.num_ovls max
    && can_dss_render_handle dev l handle
    && (dev.force_sgx == 0
        || handle.usage_protected
        || dev.ext.current.docking && dev.ext.current.enabled && handle.usage_external)
    && ltb ((s.mem_used + mem1d handle) % word) max_tiler_slot
    && not (is_blended l && is_some s.fb_z)

-- The first overlay goes to the pipeline that cannot scale; a layer that is not scaled takes it over.
abbrev pub swapped : (ℕ → Overlay) → ℕ → ℕ → Overlay
swapped ovls n =
    let ovls' = put ovls n (record (ovls n) { ix = 0 }) in put ovls' 0 (record (ovls' 0) { ix = n })

larger : (ℕ → Overlay) → ℕ → Option ℕ → Option ℕ
larger ovls n none = some n
larger ovls n (some ix) =
    if signed_lt (display_area (ovls ix)) (display_area (ovls n)) then some n else some ix

-- The branch of a layer with an overlay.
unfoldable pub place : Device → Setup → ℕ → Layer → Handle → Setup
unfolding larger
place dev s i l handle =
    let n = s.num_ovls in
    let scales = scaled l || is_nv12 handle.format in
    let o = record (setup_layer (s.overlays n) l handle s.z) {
      ix = n;
      addressing = layer_ix;
      ba = n;
    } in
    let ovls = put s.overlays n o in
    let swaps = not (n == 0) && s.scaled_gfx && not scales in
    let ovls' = if swaps then swapped ovls n else ovls in
    record s {
      overlays = ovls';
      num_ovls = n + 1;
      buffers = put s.buffers n (some handle);
      z = s.z + 1;
      scaled_gfx = if n == 0 then scales else if swaps then false else s.scaled_gfx;
      ix_docking = if handle.usage_external then larger ovls' n s.ix_docking else s.ix_docking;
      mem_used = (s.mem_used + mem1d handle) % word;
      ovls_blending =
          if not (dev.use_sgx && not (is_blended l)) && is_blended l && ltb 0 i
          then true
          else s.ovls_blending;
    }

-- One overlay is lowered.
abbrev pub lowered : (ℕ → Overlay) → ℕ → ℕ → Overlay
lowered ovls i = put ovls i (record (ovls i) { zorder = (ovls i).zorder - 1 })

-- The loop that moves the frame buffer up by lowering the overlays above it, with the number of its
-- rounds.
unfoldable pub lower : ℕ → ℕ → (ℕ → Overlay) → ℕ → Overlay
lower zero f ovls = ovls
lower (suc rounds) f ovls = lower rounds (f + 1) (lowered ovls (f + 1))

-- The branch of a layer that the GPU draws into the frame buffer.
compose_at : Setup → Option ℕ → Setup
compose_at s none = record s { fb_z = some s.z; z = s.z + 1 }
compose_at s (some f) = record s {
  overlays = lower (s.z - 1 - f) f s.overlays;
  fb_z = some (f + (s.z - 1 - f));
}

unfoldable pub compose : Device → Setup → Setup
unfolding compose_at
compose dev s = if dev.use_sgx then compose_at s s.fb_z else s

-- One layer: the variables, and the layer with its composition type and hints.
step_placed : Device → Setup → ℕ → Layer → Handle → Setup × Layer
step_placed dev s i l handle = (
  place dev s i l handle,
  record l {
    is_overlay = true;
    clear_fb = if dev.use_sgx && not (is_blended l) then true else l.clear_fb;
  },
)

step_with : Device → ℕ → Setup → ℕ → Layer → Option Handle → Setup × Layer
step_with dev max s i l none = (compose dev s, l)
step_with dev max s i l (some handle) =
    if can_place dev max s l handle then step_placed dev s i l handle else (compose dev s, l)

unfoldable pub step_layer : Device → ℕ → Setup → ℕ → Layer → Setup × Layer
unfolding step_with step_placed
step_layer dev max s i l = step_with dev max s i l l.handle

unfoldable pub setup_layers : Device → ℕ → Setup → ℕ → List Layer → Setup × List Layer
setup_layers dev max s i [] = (s, [])
setup_layers dev max s i (l ∷ ls) =
    let here = step_layer dev max s i l in
    let rest = setup_layers dev max here.0 (i + 1) ls in (rest.0, here.1 ∷ rest.1)

-- Behind the loop: the pipeline of the first overlay if it is still scaled, and the frame buffer.
with_gfx : Setup → Setup
with_gfx s =
    if s.scaled_gfx
    then record s { overlays = put s.overlays 0 (record (s.overlays 0) { ix = s.num_ovls }) }
    else s

fb_at : Device → Setup → ℕ → Setup
fb_at dev s f =
    let base = setup_layer_base (s.overlays 0) f dev.fb_format true dev.fb_width dev.fb_height in
    record s {
      overlays = put s.overlays 0 (record base {
        view = record base.view { pre_mult_alpha = true };
        addressing = layer_ix;
        ba = 0;
      });
      buffers = put s.buffers 0 none;
      fb_z = some f;
    }

with_fb : Device → Setup → Option ℕ → Setup
unfolding fb_at
with_fb dev s none = fb_at dev (record s { z = s.z + 1 }) s.z
with_fb dev s (some f) = fb_at dev s f

unfoldable pub finish_setup : Device → Setup → Setup
unfolding with_gfx with_fb fb_at
finish_setup dev s = let s' = with_gfx s in if dev.use_sgx then with_fb dev s' s'.fb_z else s'
