-- ===== src/Hwc/Tests.antt =====
-- Compositions, and the theorems at concrete devices and layers.
use camerahal.Common.{
  ℕ, ◌≡◌, inl, inr, refl, Bool, true, false, Option, none, some, List, [], ◌∷◌, map, All, arith,
}
use camerahal.Hwc.{
  Format, rgba_8888, rgb_565, ti_nv12, bgrx_8888, Blending, blending_none, blending_premult, Rect,
  Handle, Layer, Transform, Device, blank_overlay,
}
use camerahal.Hwc.Layers.{
  scaled, mem1d, can_scale, can_scale_layer, is_valid_handle, is_valid_layer, setup_layer_base,
  orientation, setup_layer,
}
use camerahal.Hwc.Decide.{
  gather_layer_statistics, reset_composition, share, decide_supported_cloning, can_dss_render_all,
  can_dss_render_handle, can_dss_render_layer,
}
use camerahal.Hwc.Setup.{
  initial_setup, can_place, place, lower, compose, step_layer, setup_layers, finish_setup,
}
use camerahal.Hwc.Setup.Order.{HasOrder, setup_layers-HasOrder}
use camerahal.Hwc.Setup.Holes.{HasHoles, setup_layers-HasHoles}
use camerahal.Hwc.Prepare.{
  Screen, clone_layer, clone_external_layer, mirror_all, external_overlays, decide, completed,
  prepare,
}
use camerahal.Hwc.Posts.{Posting, set, HotplugSettings, hotplug, switch_event, idle_timeout}
use camerahal.Hwc.Prepare.Switching.{IsBalanced}
use camerahal.Hwc.Prepare.Balance.{Event, prepares, sets, switches, idles, run, run-IsBalanced}
use camerahal.Hwc.Prepare.Showing.{prepare-shows-All}
use camerahal.Hwc.Prepare.Distinct.{AreDistinct, prepare-zorders}
use camerahal.Hwc.Prepare.Pipelines.{prepare-pipelines}

unfoldable pub composer : Unit {0}
unfolding scaled mem1d can_scale can_scale_layer is_valid_handle is_valid_layer setup_layer_base
    orientation setup_layer gather_layer_statistics share decide_supported_cloning
    can_dss_render_all can_dss_render_handle can_dss_render_layer can_place place lower compose
    step_layer setup_layers finish_setup clone_layer clone_external_layer mirror_all
    external_overlays decide completed prepare set hotplug switch_event idle_timeout
composer = tt

abbrev off : Transform
off = record { rotation = 0; hflip = false; enabled = false; docking = false }

abbrev on : Transform
on = record { rotation = 0; hflip = false; enabled = true; docking = false }

-- A device as it is opened, with a panel of 1280 x 800 pixels.
abbrev device : Device
device = record {
  is_digit = false;
  pixel_clock = 68250;
  fb_format = bgrx_8888;
  fb_width = 1280;
  fb_height = 800;
  flags_rgb_order = true;
  flags_nv12_only = false;
  force_sgx = 0;
  ext = record {
    mirror = off;
    dock = off;
    force_dock = false;
    hdmi_state = false;
    on_tv = false;
    current = off;
    last = off;
  };
  ovls_blending = false;
  overlays = λ i. blank_overlay;
  num_ovls = 0;
  buffers = λ i. none;
  use_sgx = false;
  swap_rb = false;
  post2_layers = 0;
  ext_ovls = 0;
  ext_ovls_wanted = 0;
  last_ext_ovls = 0;
  last_int_ovls = 0;
}

-- The same with a display that mirrors, in the state after some compositions.
abbrev mirroring : Device
mirroring = record device { ext = record device.ext { mirror = on; hdmi_state = true } }

abbrev screen : Screen
screen = record {
  no_mode = λ o. false;
  no_mirror_mode = false;
  finds_tv = λ o. false;
  mirror_finds_tv = false;
  adjust = λ t v. v;
  image_width = 0;
  image_height = 0;
  image_rowbytes = 0;
}

abbrev rect : ℕ → ℕ → Rect
rect w h = record { left = 0; top = 0; right = w; bottom = h }

abbrev buffer : Format → ℕ → ℕ → Option Handle
buffer f w h =
    some (record {
      format = f;
      width = w;
      height = h;
      usage_protected = false;
      usage_external = false;
    })

abbrev layer : Option Handle → Blending → Rect → Rect → Layer
layer handle b crop frame = record {
  handle = handle;
  skip = false;
  flip_h = false;
  flip_v = false;
  rot_90 = false;
  blending = b;
  source_crop = crop;
  display_frame = frame;
  is_overlay = false;
  clear_fb = false;
}

-- A video that is scaled, a wallpaper, a window that is blended, and one that cannot be shown.
abbrev video : Layer
video = layer (buffer ti_nv12 640 480) blending_none (rect 640 480) (rect 800 600)

abbrev wallpaper : Layer
wallpaper = layer (buffer rgb_565 640 480) blending_none (rect 640 480) (rect 640 480)

abbrev window : Layer
window = layer (buffer rgba_8888 320 200) blending_premult (rect 320 200) (rect 320 200)

abbrev skipped : Layer
skipped = record window { skip = true }

-- The z-orders and the pipelines of four overlays.
abbrev places_of : Device → List (ℕ × ℕ)
places_of dev = place_of 0 ∷ place_of 1 ∷ place_of 2 ∷ place_of 3 ∷ []
  where
    place_of : ℕ → ℕ × ℕ
    place_of i = ((dev.overlays i).zorder, (dev.overlays i).ix)

abbrev overlays_of : List Layer → List Bool
overlays_of = map (λ l. l.is_overlay)

abbrev all_shown : List Layer
all_shown = video ∷ wallpaper ∷ window ∷ []

-- The frame buffer of the GPU is put between the wallpaper and the window.
abbrev mixed : List Layer
mixed = wallpaper ∷ skipped ∷ video ∷ []

-- The GPU draws the window; the frame buffer lies above the video and the wallpaper.
all_shown_places :
    places_of (prepare screen device all_shown).0 ≡ (2, 0) ∷ (0, 1) ∷ (1, 2) ∷ (0, 0) ∷ []
unfolding composer
all_shown_places = refl

mixed_places : places_of (prepare screen device mixed).0 ≡ (1, 0) ∷ (0, 1) ∷ (2, 2) ∷ (0, 0) ∷ []
unfolding composer
mixed_places = refl

mixed_overlays : overlays_of (prepare screen device mixed).1 ≡ true ∷ false ∷ true ∷ []
unfolding composer
mixed_overlays = refl

-- Two scaled layers that are mirrored: overlays 0 and 3 get the same pipeline.
mirrored_places :
    places_of (prepare screen mirroring (video ∷ video ∷ [])).0
    ≡ (0, 2) ∷ (1, 1) ∷ (2, 3) ∷ (3, 2) ∷ []
unfolding composer
mirrored_places = refl

-- A panel without a pixel clock: a layer that is not scaled at all is refused.
manual_panel : can_scale 640 480 640 480 false false 0 ≡ false
unfolding composer
manual_panel = refl

setup_layers-HasOrder_example :
    HasOrder
      (record device { use_sgx = true })
      (setup_layers
        (record device { use_sgx = true })
        4
        (initial_setup (record device { use_sgx = true }))
        0
        (reset_composition mixed)).1
      (finish_setup
        (record device { use_sgx = true })
        (setup_layers
          (record device { use_sgx = true })
          4
          (initial_setup (record device { use_sgx = true }))
          0
          (reset_composition mixed)).0)
setup_layers-HasOrder_example =
    setup_layers-HasOrder (record device { use_sgx = true }) 4 mixed refl

setup_layers-HasHoles_example :
    HasHoles false
      (setup_layers
        (record device { use_sgx = true })
        4
        (initial_setup (record device { use_sgx = true }))
        0
        (reset_composition mixed)).1
setup_layers-HasHoles_example =
    setup_layers-HasHoles (record device { use_sgx = true }) 4 mixed refl

abbrev device-IsBalanced : IsBalanced device
device-IsBalanced = record {
  now = omega arith;
  last = omega arith;
  to_internal = omega arith;
  to_external = omega arith;
  half = omega arith;
  last_half = omega arith;
}

abbrev posted : Posting
posted = record { shows = true; swaps = true; post2 = 0; wait = 0 }

abbrev settings : HotplugSettings
settings = record {
  docking_enabled = true;
  mirroring_enabled = true;
  docking_transform = 0;
  mirroring_transform = 3;
  no_mirror_mode = false;
  finds_tv = true;
}

run-IsBalanced_example : IsBalanced (
    run device (
      prepares screen mixed
      ∷ sets posted
      ∷ switches false true settings
      ∷ prepares screen mixed
      ∷ sets posted
      ∷ idles
      ∷ prepares screen (video ∷ [])
      ∷ []))
run-IsBalanced_example =
    run-IsBalanced device
      (prepares screen mixed
        ∷ sets posted
        ∷ switches false true settings
        ∷ prepares screen mixed
        ∷ sets posted
        ∷ idles
        ∷ prepares screen (video ∷ [])
        ∷ [])
      device-IsBalanced

prepare-shows-All_example :
    All (λ l. l.is_overlay ≡ true) (prepare screen device (video ∷ wallpaper ∷ [])).1
unfolding composer
prepare-shows-All_example =
    prepare-shows-All screen device (video ∷ wallpaper ∷ []) refl (omega arith) (inl refl)

prepare-zorders_example :
    AreDistinct (λ o. o.zorder) (prepare screen mirroring (video ∷ video ∷ [])).0
prepare-zorders_example = prepare-zorders screen mirroring (video ∷ video ∷ []) refl

prepare-pipelines_example :
    AreDistinct (λ o. o.ix) (prepare screen device (video ∷ wallpaper ∷ [])).0
prepare-pipelines_example =
    prepare-pipelines screen device (video ∷ wallpaper ∷ []) refl device-IsBalanced (inr (inr refl))

-- Two frames of two layers are mirrored, then two videos are shown: overlay 0 goes to pipeline 2, which the
-- external display had in the frame that was posted last.
abbrev two_frames : List Event
two_frames =
    switches false true (record settings { mirroring_transform = 0 })
    ∷ prepares screen (wallpaper ∷ wallpaper ∷ [])
    ∷ sets posted
    ∷ prepares screen (wallpaper ∷ wallpaper ∷ [])
    ∷ sets posted
    ∷ []

pipelines_before : places_of (run device two_frames) ≡ (0, 0) ∷ (1, 1) ∷ (2, 3) ∷ (3, 2) ∷ []
unfolding composer
pipelines_before = refl

pipelines_after :
    places_of (prepare screen (run device two_frames) (video ∷ video ∷ [])).0
    ≡ (0, 2) ∷ (1, 1) ∷ (2, 3) ∷ (3, 2) ∷ []
unfolding composer
pipelines_after = refl
