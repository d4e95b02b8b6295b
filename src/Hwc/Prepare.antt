-- ===== src/Hwc/Prepare.antt =====
-- hwc/hwc.c: the overlays of the external display and omap4_hwc_prepare.
pub mod Switching
pub mod Balance
pub mod Clones
pub mod Docking
pub mod Distinct
pub mod Pipelines
pub mod Showing
use camerahal.Common.{
  ℕ, zero, suc, ◌+◌, ◌-◌, ◌*◌, ◌/◌, ◌%◌, Bool, true, false, not, ◌&&◌, ◌||◌, Option, none, some,
  List, [], ◌∷◌, ltb, leb, ◌==◌, if◌then◌else◌, length,
}
use camerahal.Hwc.{
  Layer, bgra_8888, ovl_ix, buffer_fb, View, Overlay, Transform, External, Device, max_hw_overlays,
  put,
}
use camerahal.Hwc.Layers.{is_bgr_format, setup_layer_base}
use camerahal.Hwc.Decide.{
  Counts, gather_layer_statistics, reset_composition, decide_supported_cloning, can_dss_render_all,
}
use camerahal.Hwc.Setup.{Setup, initial_setup, setup_layers, finish_setup}

-- What the external display answers: whether no mode can be set for an overlay, or for mirroring; whether
-- one is set and the display turns out to be a TV; what the transformation makes of a picture, and the
-- image for docking.
pub record Screen : Type 0 where
  pub no_mode : Overlay → Bool
  pub no_mirror_mode : Bool
  pub finds_tv : Overlay → Bool
  pub mirror_finds_tv : Bool
  pub adjust : Transform → View → View
  pub image_width : ℕ
  pub image_height : ℕ
  pub image_rowbytes : ℕ

pub data Cloned : Type 0 where
  cloned busy no_device : Cloned

-- clone_layer; `post2` is the number of the internal overlays.
unfoldable pub clone_layer : Screen → Transform → ℕ → Setup → ℕ → Setup × Cloned
clone_layer screen t post2 s ix =
    let n = s.num_ovls in
    let o = s.overlays ix in
    if leb max_hw_overlays n then (s, busy) else (
      record s {
        overlays = put s.overlays n (record o {
          ix = max_hw_overlays - 1 - (n - post2);
          mgr_ix = 1;
          addressing = ovl_ix;
          ba = ix;
          zorder = o.zorder + post2;
          view = screen.adjust t o.view;
        });
        num_ovls = n + 1;
      },
      cloned,
    )

-- clone_external_layer.
unfoldable pub clone_external_layer : Screen → Transform → ℕ → Setup → ℕ → Setup × Cloned
unfolding clone_layer
clone_external_layer screen t post2 s ix =
    if screen.no_mode (s.overlays ix) then (s, no_device) else clone_layer screen t post2 s ix

-- All internal overlays, until no more can be cloned.
mirrored : Setup × Cloned → (Setup → Setup) → Setup
mirrored (s, cloned) next = next (record s { z = s.z + 1 })
mirrored (s, busy) next = s
mirrored (s, no_device) next = s

unfoldable pub mirror_all : Screen → Transform → ℕ → ℕ → ℕ → Setup → Setup
unfolding clone_layer mirrored
mirror_all screen t post2 zero ix s = s
mirror_all screen t post2 (suc rounds) ix s =
    mirrored (clone_layer screen t post2 s ix) (mirror_all screen t post2 rounds (ix + 1))

-- The overlay that docking shows is put on top.
docked : Setup × Cloned → Setup × Cloned
docked (s, cloned) = (
  record s {
    overlays =
        put s.overlays (s.num_ovls - 1) (record (s.overlays (s.num_ovls - 1)) { zorder = s.z });
    z = s.z + 1;
  },
  cloned,
)
docked (s, busy) = (s, busy)
docked (s, no_device) = (s, no_device)

-- The image for docking: its overlay, and what is set once it is cloned.
with_image : Screen → Setup → Setup
with_image screen s =
    let n = s.num_ovls in
    let o =
      setup_layer_base (s.overlays n) 0 bgra_8888 true screen.image_width screen.image_height in
    record s {
      overlays =
          put s.overlays n (record o { view = record o.view { stride = screen.image_rowbytes } });
    }

image_docked : ℕ → Setup × Cloned → Setup × Cloned
image_docked n (s, cloned) = (
  record s {
    overlays = put s.overlays n (record (s.overlays n) { addressing = buffer_fb; ba = 0 });
    z = s.z + 1;
  },
  cloned,
)
image_docked n (s, busy) = (s, busy)
image_docked n (s, no_device) = (s, no_device)

dock_overlay : Screen → External → Setup → Option ℕ → Setup × Cloned
unfolding docked with_image image_docked
dock_overlay screen ext s (some ix) =
    docked (clone_external_layer screen ext.current s.num_ovls s ix)
dock_overlay screen ext s none =
    if ext.force_dock
    then image_docked s.num_ovls
        (clone_external_layer screen ext.current s.num_ovls (with_image screen s) s.num_ovls)
    else (s, busy)

-- The overlays of the external display behind those of the internal one.
unfoldable pub external_overlays : Screen → External → ℕ → Setup → Setup × Cloned
unfolding dock_overlay
external_overlays screen ext granted s =
    if not (ext.current.enabled && not (granted == 0))
    then (s, busy)
    else if ext.current.docking
    then dock_overlay screen ext s s.ix_docking
    else if ext.last.docking && screen.no_mirror_mode
    then (s, busy)
    else (mirror_all screen ext.current s.num_ovls s.num_ovls 0 s, busy)

-- Whether a mode is set for them, by clone_external_layer or setup_mirroring, on a TV.
mode_on_tv : Screen → Setup → ℕ → Bool
mode_on_tv screen s ix = not (screen.no_mode (s.overlays ix)) && screen.finds_tv (s.overlays ix)

dock_on_tv : Screen → External → Setup → Option ℕ → Bool
unfolding with_image mode_on_tv
dock_on_tv screen ext s (some ix) = mode_on_tv screen s ix
dock_on_tv screen ext s none = ext.force_dock && mode_on_tv screen (with_image screen s) s.num_ovls

unfoldable pub external_on_tv : Screen → External → ℕ → Setup → Bool
unfolding dock_on_tv
external_on_tv screen ext granted s =
    if not (ext.current.enabled && not (granted == 0))
    then false
    else if ext.current.docking
    then dock_on_tv screen ext s s.ix_docking
    else ext.last.docking && not screen.no_mirror_mode && screen.mirror_finds_tv

-- A mode that cannot be set disables the external display.
abbrev pub enabled_after : Transform → Cloned → Transform
enabled_after t no_device = record t { enabled = false }
enabled_after t _ = t

abbrev pub no_counts : ℕ → Counts
no_counts composited = record {
  possible_overlay_layers = 0;
  composited_layers = composited;
  scaled_layers = 0;
  rgb = 0;
  bgr = 0;
  nv12 = 0;
  dockable = 0;
  protected = 0;
  max_hw = 0;
  max_scaling = 0;
  mem = 0;
}

-- omap4_hwc_prepare up to the loop: the decisions on this composition, and the number of overlays.
unfoldable pub decide : Device → List Layer → Device × Counts
decide dev layers =
    let composited = length layers in
    let num = gather_layer_statistics dev (no_counts composited) layers in
    let decided = decide_supported_cloning dev num in
    let forced = record decided.0 { force_sgx = if leb composited 1 then 0 else dev.force_sgx } in
    let all = can_dss_render_all forced decided.1 in
    (
      record forced {
        use_sgx = not all;
        swap_rb = if all then not (num.bgr == 0) else is_bgr_format dev.fb_format;
      },
      decided.1,
    )

unfoldable pub completed : Screen → Device → Setup → Device
completed screen dev s =
    let out = external_overlays screen dev.ext dev.ext_ovls s in
    let current = enabled_after dev.ext.current out.1 in
    record dev {
      ext = record dev.ext {
        current = current;
        last = current;
        on_tv = dev.ext.on_tv || external_on_tv screen dev.ext dev.ext_ovls s;
      };
      overlays = out.0.overlays;
      num_ovls = out.0.num_ovls;
      buffers = s.buffers;
      ovls_blending = s.ovls_blending;
      post2_layers = s.num_ovls;
      ext_ovls =
          if current.enabled || not (dev.last_ext_ovls == 0)
          then out.0.num_ovls - s.num_ovls
          else dev.ext_ovls;
    }

-- omap4_hwc_prepare.
unfoldable pub prepare : Screen → Device → List Layer → Device × List Layer
unfolding decide completed
prepare screen dev layers =
    let reset = reset_composition layers in
    let decided = decide dev reset in
    let loop = setup_layers decided.0 decided.1.max_hw (initial_setup decided.0) 0 reset in
    (completed screen decided.0 (finish_setup decided.0 loop.0), loop.1)
