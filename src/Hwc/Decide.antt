-- ===== src/Hwc/Decide.antt =====
-- hwc/hwc.c: the counts over the layers, the overlays for each display, and the checks on them.
pub mod Counting
pub mod Rendering
use camerahal.Common.{
  ℕ, ◌+◌, ◌-◌, ◌*◌, ◌/◌, ◌%◌, ◌^◌, Bool, true, false, not, ◌&&◌, ◌||◌, Option, none, some, List, [],
  ◌∷◌, ltb, leb, ◌==◌, if◌then◌else◌, length,
}
use camerahal.Hwc.{
  word, minus, Handle, Layer, Transform, External, Device, max_hw_overlays, max_tiler_slot,
}
use camerahal.Hwc.Layers.{
  is_rgb, is_bgr_format, is_nv12, scaled, mem1d, on_handle, is_valid_handle, is_valid_layer,
}

-- struct counts. The numbers of layers do not reach 2 ^ 32; the memory wraps.
pub record Counts : Type 0 where
  pub possible_overlay_layers : ℕ
  pub composited_layers : ℕ
  pub scaled_layers : ℕ
  pub rgb : ℕ
  pub bgr : ℕ
  pub nv12 : ℕ
  pub dockable : ℕ
  pub protected : ℕ
  pub max_hw : ℕ
  pub max_scaling : ℕ
  pub mem : ℕ

abbrev pub bit : Bool → ℕ
bit true = 1
bit false = 0

-- The counts for a layer that can be shown.
counted : Counts → Layer → Handle → Counts
counted num l handle =
    let f = handle.format in
    record num {
      possible_overlay_layers = num.possible_overlay_layers + 1;
      scaled_layers = num.scaled_layers + bit (scaled l || is_nv12 f);
      bgr = num.bgr + bit (is_bgr_format f);
      rgb = num.rgb + bit (not (is_bgr_format f) && is_rgb f);
      nv12 = num.nv12 + bit (not (is_bgr_format f) && not (is_rgb f) && is_nv12 f);
      dockable = num.dockable + bit handle.usage_external;
      protected = num.protected + bit handle.usage_protected;
      mem = (num.mem + mem1d handle) % word;
    }

gathered_handle : Device → Layer → Counts → Option Handle → Counts
gathered_handle dev l num none = num
gathered_handle dev l num (some handle) =
    if is_valid_handle dev l handle then counted num l handle else num

-- gather_layer_statistics: the counts, and the layers with their composition type reset.
unfoldable pub gather_layer_statistics : Device → Counts → List Layer → Counts
unfolding counted gathered_handle
gather_layer_statistics dev num [] = num
gather_layer_statistics dev num (l ∷ ls) =
    gather_layer_statistics dev (gathered_handle dev l num l.handle) ls

abbrev pub reset_composition : List Layer → List Layer
reset_composition [] = []
reset_composition (l ∷ ls) = record l { is_overlay = false } ∷ reset_composition ls

abbrev pub max_of : ℕ → ℕ → ℕ
max_of a b = if ltb b a then a else b

abbrev pub min_of : ℕ → ℕ → ℕ
min_of a b = if ltb a b then a else b

-- The overlays for each display before their number is cut to those that are free: the limit for the
-- internal display, the overlays that are never scaled, the external ones, and the settings.
pub record Share : Type 0 where
  pub internal : ℕ
  pub nonscaling : ℕ
  pub external : ℕ
  pub settings : Transform

unfoldable pub share : Device → Counts → Share
share dev num =
    let ext = dev.ext in
    let docks = not (num.dockable == 0) || ext.force_dock in
    let reserved = bit docks in
    if ext.dock.enabled && not (ext.mirror.enabled && not docks)
    then record {
      internal = minus max_hw_overlays (max_of reserved dev.last_ext_ovls);
      nonscaling = 1;
      external = reserved;
      settings = if ext.mirror.enabled then record ext.mirror { docking = true } else ext.dock;
    }
    else if ext.mirror.enabled
    then record {
      internal = max_hw_overlays / 2;
      nonscaling = 1 / 2;
      external = max_hw_overlays - max_hw_overlays / 2;
      settings = ext.mirror;
    }
    else record {
      internal = minus max_hw_overlays dev.last_ext_ovls;
      nonscaling = 1;
      external = 0;
      settings = record ext.current { enabled = false };
    }

-- decide_supported_cloning. `last_int_ovls` is never above MAX_HW_OVERLAYS.
unfoldable pub decide_supported_cloning : Device → Counts → Device × Counts
unfolding share
decide_supported_cloning dev num =
    let s = share dev num in
    let granted = min_of (max_hw_overlays - dev.last_int_ovls) s.external in
    let max =
      if not (granted == 0) && s.settings.enabled && not s.settings.docking
      then granted
      else s.internal in
    (
      record dev {
        ext = record dev.ext { current = s.settings };
        ext_ovls_wanted = s.external;
        ext_ovls = granted;
      },
      record num { max_hw = max; max_scaling = minus max s.nonscaling },
    )

-- The external settings turn or flip the picture, and the external display is a TV.
abbrev pub transforms : Device → Bool
transforms dev =
    dev.ext.current.enabled && (not (dev.ext.current.rotation == 0) || dev.ext.current.hflip)

abbrev pub shows_on_tv : Device → Bool
shows_on_tv dev = dev.ext.on_tv && dev.ext.current.enabled

-- can_dss_render_all.
unfoldable pub can_dss_render_all : Device → Counts → Bool
can_dss_render_all dev num =
    dev.force_sgx == 0
    && not (num.possible_overlay_layers == 0)
    && leb num.possible_overlay_layers num.max_hw
    && num.possible_overlay_layers == num.composited_layers
    && leb num.scaled_layers num.max_scaling
    && leb num.nv12 num.max_scaling
    && leb num.mem max_tiler_slot
    && (not (transforms dev) || num.nv12 == num.possible_overlay_layers)
    && (num.bgr == 0 || num.rgb == 0 && not (shows_on_tv dev) || not dev.flags_rgb_order)

-- can_dss_render_layer for a layer with a handle.
unfoldable pub can_dss_render_handle : Device → Layer → Handle → Bool
can_dss_render_handle dev l handle =
    let f = handle.format in
    is_valid_handle dev l handle
    && (not (transforms dev) || is_nv12 f)
    && (not dev.flags_nv12_only || not dev.use_sgx || is_nv12 f)
    && (not (if dev.swap_rb then is_rgb f else is_bgr_format f) || not dev.flags_rgb_order)
    && not (shows_on_tv dev && is_bgr_format f)

-- can_dss_render_layer.
unfoldable pub can_dss_render_layer : Device → Layer → Bool
unfolding can_dss_render_handle
can_dss_render_layer dev l = on_handle l.handle (can_dss_render_handle dev l)
