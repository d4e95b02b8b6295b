-- ===== src/Hwc/Setup/Fields.antt =====
-- What one layer changes in the variables of the loop, field by field.
use camerahal.Common.{
  ℕ, zero, suc, ◌+◌, ◌-◌, ◌<◌, ◌≡◌, refl, Bool, true, ◌&&◌, some, ltb, leb, ◌==◌, if◌then◌else◌,
  arith,
}
use camerahal.Hwc.{
  Format, rgb_565, rgbx_8888, rgba_8888, bgra_8888, bgrx_8888, ti_nv12, ti_nv12_padded,
  other_format, Handle, Layer, ColorMode, Overlay, Device,
}
use camerahal.Hwc.Layers.{is_valid_format, is_valid_handle, color_of, setup_layer_base, setup_layer}
use camerahal.Hwc.Decide.{can_dss_render_handle}
use camerahal.Hwc.Setup.{Setup, can_place, place, lower, lowered}

-- A format that is valid has a colour mode.
color_of_valid :
    (f : Format) (blended : Bool)
    → is_valid_format f ≡ true
    → (c : ColorMode × ℕ) × (color_of f blended ≡ some c)
color_of_valid rgb_565 b h = (_, refl)
color_of_valid rgbx_8888 b h = (_, refl)
color_of_valid rgba_8888 b h = (_, refl)
color_of_valid bgra_8888 b h = (_, refl)
color_of_valid bgrx_8888 b h = (_, refl)
color_of_valid ti_nv12 b h = (_, refl)
color_of_valid ti_nv12_padded b h = (_, refl)
color_of_valid other_format b h = cc

pub zorder-setup_layer_base :
    (o : Overlay) (index : ℕ) (f : Format) (blended : Bool) (w h : ℕ)
    → is_valid_format f ≡ true
    → (setup_layer_base o index f blended w h).zorder ≡ index
unfolding setup_layer_base
zorder-setup_layer_base o index f blended w h valid =
    let (c, e) = color_of_valid f blended valid in rw e refl

pub ix-setup_layer_base :
    (o : Overlay) (index : ℕ) (f : Format) (blended : Bool) (w h : ℕ)
    → is_valid_format f ≡ true
    → (setup_layer_base o index f blended w h).ix ≡ 0
unfolding setup_layer_base
ix-setup_layer_base o index f blended w h valid =
    let (c, e) = color_of_valid f blended valid in rw e refl

pub zorder-setup_layer :
    (o : Overlay) (l : Layer) (handle : Handle) (index : ℕ)
    → is_valid_format handle.format ≡ true
    → (setup_layer o l handle index).zorder ≡ index
unfolding setup_layer
zorder-setup_layer o l handle index valid =
    zorder-setup_layer_base o index handle.format _ handle.width handle.height valid

is_valid_handle-format :
    (dev : Device) (l : Layer) (handle : Handle)
    → is_valid_handle dev l handle ≡ true
    → is_valid_format handle.format ≡ true
unfolding is_valid_handle
is_valid_handle-format dev l handle h = ground arith

-- What a layer with an overlay satisfies.
pub can_place-format :
    (dev : Device) (max : ℕ) (s : Setup) (l : Layer) (handle : Handle)
    → can_place dev max s l handle ≡ true
    → is_valid_format handle.format ≡ true
unfolding can_place can_dss_render_handle
can_place-format dev max s l handle h = is_valid_handle-format dev l handle (ground arith)

pub can_place-lt :
    (dev : Device) (max : ℕ) (s : Setup) (l : Layer) (handle : Handle)
    → can_place dev max s l handle ≡ true
    → s.num_ovls < max
unfolding can_place
can_place-lt dev max s l handle h = ground arith

pub zorder-place :
    (dev : Device) (s : Setup) (i : ℕ) (l : Layer) (handle : Handle) (k : ℕ)
    → is_valid_format handle.format ≡ true
    → ((place dev s i l handle).overlays k).zorder
      ≡ (if s.num_ovls == k then s.z else (s.overlays k).zorder)
unfolding place
zorder-place dev s i l handle k valid =
    ground (arith, zorder-setup_layer (s.overlays s.num_ovls) l handle s.z valid)

pub zorder-lower :
    (rounds f : ℕ) (ovls : ℕ → Overlay) (k : ℕ)
    → (lower rounds f ovls k).zorder
      ≡ (if ltb f k && leb k (f + rounds) then (ovls k).zorder - 1 else (ovls k).zorder)
unfolding lower
zorder-lower zero f ovls k = ground arith
zorder-lower (suc rounds) f ovls k =
    ground (arith, zorder-lower rounds (f + 1) (lowered ovls (f + 1)) k)

pub ix-lower :
    (rounds f : ℕ) (ovls : ℕ → Overlay) (k : ℕ) → (lower rounds f ovls k).ix ≡ (ovls k).ix
unfolding lower
ix-lower zero f ovls k = refl
ix-lower (suc rounds) f ovls k = ground (arith, ix-lower rounds (f + 1) (lowered ovls (f + 1)) k)
