-- ===== src/Hwc.antt =====
-- hwc/hwc.c: the hardware composer, its layers, overlays and state.
pub mod Layers
pub mod Decide
pub mod Setup
pub mod Prepare
pub mod Posts
pub mod Tests
use camerahal.Common.{
  ℕ, ◌+◌, ◌-◌, ◌*◌, ◌/◌, ◌%◌, ◌^◌, Bool, true, false, not, ◌&&◌, ◌||◌, Option, none, some, ltb,
  ◌==◌, if◌then◌else◌,
}

abbrev pub word : ℕ
word = 2 ^ 32

-- The 32-bit difference, and the order of signed integers; a negative one is in the upper half.
abbrev pub minus : ℕ → ℕ → ℕ
minus a b = (a + (word - b % word)) % word

abbrev pub signed_lt : ℕ → ℕ → Bool
signed_lt a b = ltb ((a + 2 ^ 31) % word) ((b + 2 ^ 31) % word)

-- The pixel formats that the composer knows, and any other.
pub data Format : Type 0 where
  rgb_565 rgbx_8888 rgba_8888 bgra_8888 bgrx_8888 ti_nv12 ti_nv12_padded other_format : Format

pub data Blending : Type 0 where
  blending_none blending_premult blending_coverage : Blending

pub record Rect : Type 0 where
  pub left : ℕ
  pub top : ℕ
  pub right : ℕ
  pub bottom : ℕ

-- WIDTH and HEIGHT.
abbrev pub width_of : Rect → ℕ
width_of r = minus r.right r.left

abbrev pub height_of : Rect → ℕ
height_of r = minus r.bottom r.top

-- IMG_native_handle_t, with the two bits of its usage that the composer looks at.
pub record Handle : Type 0 where
  pub format : Format
  pub width : ℕ
  pub height : ℕ
  pub usage_protected : Bool
  pub usage_external : Bool

-- hwc_layer_t. `skip` is HWC_SKIP_LAYER; the transform is its three bits; `is_overlay` stands for
-- HWC_OVERLAY against HWC_FRAMEBUFFER; `clear_fb` is HWC_HINT_CLEAR_FB.
pub record Layer : Type 0 where
  pub handle : Option Handle
  pub skip : Bool
  pub flip_h : Bool
  pub flip_v : Bool
  pub rot_90 : Bool
  pub blending : Blending
  pub source_crop : Rect
  pub display_frame : Rect
  pub is_overlay : Bool
  pub clear_fb : Bool

pub data ColorMode : Type 0 where
  argb32 rgb24u rgb16 nv12 : ColorMode

pub data Addressing : Type 0 where
  layer_ix ovl_ix buffer_fb : Addressing

-- The picture that an overlay shows, of struct dss2_ovl_cfg. `none` is the colour mode of the zeroed
-- record.
pub record View : Type 0 where
  pub color_mode : Option ColorMode
  pub width : ℕ
  pub height : ℕ
  pub stride : ℕ
  pub enabled : Bool
  pub rotation : ℕ
  pub mirror : Bool
  pub pre_mult_alpha : Bool
  pub win_x : ℕ
  pub win_y : ℕ
  pub win_w : ℕ
  pub win_h : ℕ
  pub crop_x : ℕ
  pub crop_y : ℕ
  pub crop_w : ℕ
  pub crop_h : ℕ

abbrev pub blank_view : View
blank_view = record {
  color_mode = none;
  width = 0;
  height = 0;
  stride = 0;
  enabled = false;
  rotation = 0;
  mirror = false;
  pre_mult_alpha = false;
  win_x = 0;
  win_y = 0;
  win_w = 0;
  win_h = 0;
  crop_x = 0;
  crop_y = 0;
  crop_w = 0;
  crop_h = 0;
}

-- struct dss2_ovl_info; `ix` is the pipeline and `mgr_ix` the display.
pub record Overlay : Type 0 where
  pub zorder : ℕ
  pub ix : ℕ
  pub mgr_ix : ℕ
  pub addressing : Addressing
  pub ba : ℕ
  pub view : View

abbrev pub blank_overlay : Overlay
blank_overlay = record {
  zorder = 0;
  ix = 0;
  mgr_ix = 0;
  addressing = layer_ix;
  ba = 0;
  view = blank_view;
}

-- struct ext_transform_t.
pub record Transform : Type 0 where
  pub rotation : ℕ
  pub hflip : Bool
  pub enabled : Bool
  pub docking : Bool

-- The settings of the external display, of omap4_hwc_ext_t.
pub record External : Type 0 where
  pub mirror : Transform
  pub dock : Transform
  pub force_dock : Bool
  pub hdmi_state : Bool
  pub on_tv : Bool
  pub current : Transform
  pub last : Transform

-- omap4_hwc_device_t: the limits of the panel (whether it is the digital channel, its pixel clock, the
-- format and the size of its frame buffer), the flags, and the state from one composition to the next.
pub record Device : Type 0 where
  pub is_digit : Bool
  pub pixel_clock : ℕ
  pub fb_format : Format
  pub fb_width : ℕ
  pub fb_height : ℕ
  pub flags_rgb_order : Bool
  pub flags_nv12_only : Bool
  pub force_sgx : ℕ
  pub ext : External
  pub ovls_blending : Bool
  pub overlays : ℕ → Overlay
  pub num_ovls : ℕ
  pub buffers : ℕ → Option Handle
  pub use_sgx : Bool
  pub swap_rb : Bool
  pub post2_layers : ℕ
  pub ext_ovls : ℕ
  pub ext_ovls_wanted : ℕ
  pub last_ext_ovls : ℕ
  pub last_int_ovls : ℕ

-- MAX_HW_OVERLAYS and MAX_TILER_SLOT.
abbrev pub max_hw_overlays : ℕ
max_hw_overlays = 4

abbrev pub max_tiler_slot : ℕ
max_tiler_slot = 16 * 2 ^ 20

-- A write to an array.
abbrev pub put {ℓ} : {A : Type ℓ} → (ℕ → A) → ℕ → A → ℕ → A
put a i x j = if i == j then x else a j
