-- ===== src/Hwc/Layers.antt =====
-- hwc/hwc.c: which layers the display subsystem can show, and how an overlay is set up for one.
use camerahal.Common.{
  ℕ, ◌+◌, ◌*◌, ◌/◌, ◌%◌, Bool, true, false, not, ◌&&◌, ◌||◌, Option, none, some, ltb, ◌==◌,
  if◌then◌else◌,
}
use camerahal.Hwc.{
  word, Format, rgb_565, rgbx_8888, rgba_8888, bgra_8888, bgrx_8888, ti_nv12, ti_nv12_padded,
  other_format, blending_none, blending_premult, width_of, height_of, Handle, Layer, ColorMode,
  argb32, rgb24u, rgb16, nv12, Overlay, Device, max_tiler_slot,
}

abbrev pub is_valid_format : Format → Bool
is_valid_format other_format = false
is_valid_format _ = true

abbrev pub is_rgb : Format → Bool
is_rgb bgra_8888 = true
is_rgb bgrx_8888 = true
is_rgb rgb_565 = true
is_rgb _ = false

abbrev pub is_bgr_format : Format → Bool
is_bgr_format rgbx_8888 = true
is_bgr_format rgba_8888 = true
is_bgr_format _ = false

abbrev pub is_nv12 : Format → Bool
is_nv12 ti_nv12 = true
is_nv12 ti_nv12_padded = true
is_nv12 _ = false

abbrev pub is_blended : Layer → Bool
is_blended l = elim l.blending [ blending_none ↦ false | _ ↦ true ]

-- `scaled`: the frame is not as large as the crop, turned if the layer is.
unfoldable pub scaled : Layer → Bool
scaled l =
    let w = width_of l.source_crop in
    let h = height_of l.source_crop in
    not (width_of l.display_frame == (if l.rot_90 then h else w))
    || not (height_of l.display_frame == (if l.rot_90 then w else h))

-- ALIGN(x, HW_ALIGN).
abbrev pub align : ℕ → ℕ
align x = (x + 31) % word / 32 * 32

-- `mem1d`: the memory of a buffer that is not NV12.
unfoldable pub mem1d : Handle → ℕ
mem1d handle =
    if is_nv12 handle.format
    then 0
    else align handle.width
      * (elim handle.format [ rgb_565 ↦ 2 | _ ↦ 4 ])
      % word
      * handle.height
      % word

-- omap4_hwc_can_scale with the constants of `limits`; `fclk` is in kHz, as the pixel clock is. With a
-- pixel clock above `fclk` a narrow layer is divided by zero in the source.
unfoldable pub can_scale : ℕ → ℕ → ℕ → ℕ → Bool → Bool → ℕ → Bool
can_scale src_w src_h dst_w dst_h is_2d is_digit pclk =
    let max_xdecim : ℕ = 16 in
    let max_ydecim : ℕ = if is_2d then 2 else 16 in
    let fclk : ℕ = 170666666 / 1000 in
    let limited : ℕ = if ltb (pclk * 4 % word) fclk then pclk * 4 % word else fclk in
    let whole = if ltb src_w 2048 then limited / pclk * pclk else limited in
    if not is_digit && ltb dst_w 2
    then false
    else if ltb dst_h (src_h / 4 / max_ydecim)
    then false
    else if pclk == 0
    then ltb dst_w (src_w / 4 / max_xdecim)
    else if ltb dst_w (src_w / 4)
    then false
    else if ltb dst_w (src_w * pclk % word / whole / max_xdecim)
    then false
    else true

-- omap4_hwc_can_scale_layer.
unfoldable pub can_scale_layer : Device → Layer → Handle → Bool
unfolding can_scale
can_scale_layer dev l handle =
    let w = width_of l.source_crop in
    let h = height_of l.source_crop in
    can_scale (if l.rot_90 then h else w) (if l.rot_90 then w else h) (width_of l.display_frame)
      (height_of l.display_frame) (is_nv12 handle.format) dev.is_digit dev.pixel_clock

-- omap4_hwc_is_valid_layer for a layer with a handle.
unfoldable pub is_valid_handle : Device → Layer → Handle → Bool
unfolding mem1d can_scale_layer
is_valid_handle dev l handle =
    if l.skip
    then false
    else if not (is_valid_format handle.format)
    then false
    else if not (is_nv12 handle.format)
        && (l.flip_h || l.flip_v || l.rot_90 || ltb max_tiler_slot (mem1d handle))
    then false
    else can_scale_layer dev l handle

-- What holds of the buffer of a layer; a layer without one does not have it.
abbrev pub on_handle : Option Handle → (Handle → Bool) → Bool
on_handle none p = false
on_handle (some handle) p = p handle

-- omap4_hwc_is_valid_layer.
unfoldable pub is_valid_layer : Device → Layer → Bool
unfolding is_valid_handle
is_valid_layer dev l = on_handle l.handle (is_valid_handle dev l)

-- The colour mode and the bits of a pixel; the formats with alpha lose it if the layer is not blended.
abbrev pub color_of : Format → Bool → Option (ColorMode × ℕ)
color_of rgba_8888 blended = some (if blended then argb32 else rgb24u, 32)
color_of bgra_8888 blended = some (if blended then argb32 else rgb24u, 32)
color_of rgbx_8888 blended = some (rgb24u, 32)
color_of bgrx_8888 blended = some (rgb24u, 32)
color_of rgb_565 blended = some (rgb16, 16)
color_of ti_nv12 blended = some (nv12, 8)
color_of ti_nv12_padded blended = some (nv12, 8)
color_of other_format blended = none

with_color : Overlay → Option (ColorMode × ℕ) → ℕ → ℕ → ℕ → Overlay
with_color o none index width height = o
with_color o (some (mode, bits)) index width height = record o {
  zorder = index;
  ix = 0;
  view = record o.view {
    color_mode = some mode;
    width = width;
    height = height;
    stride = align width * bits % word / 8;
    enabled = true;
    win_w = width;
    win_h = height;
    crop_w = width;
    crop_h = height;
  };
}

-- omap4_hwc_setup_layer_base. The constant fields are left out.
unfoldable pub setup_layer_base : Overlay → ℕ → Format → Bool → ℕ → ℕ → Overlay
unfolding with_color
setup_layer_base o index format blended width height =
    with_color o (color_of format blended) index width height

-- The rotation and the mirroring for the transform of a layer.
unfoldable pub orientation : Layer → ℕ → Bool → ℕ × Bool
orientation l rotation mirror =
    let m = if l.flip_h then true else mirror in
    let m' = if l.flip_v then not m else m in
    let r = if l.flip_v then 2 else rotation in
    (if l.rot_90 then (r + (if m' then 3 else 1)) % 4 else r, m')

-- omap4_hwc_setup_layer.
unfoldable pub setup_layer : Overlay → Layer → Handle → ℕ → Overlay
unfolding setup_layer_base orientation
setup_layer o l handle index =
    let base = setup_layer_base o index handle.format (is_blended l) handle.width handle.height in
    let (r, m) = orientation l base.view.rotation base.view.mirror in
    record base {
      view = record base.view {
        rotation = r;
        mirror = m;
        pre_mult_alpha = elim l.blending [ blending_premult ↦ true | _ ↦ false ];
        win_x = l.display_frame.left;
        win_y = l.display_frame.top;
        win_w = width_of l.display_frame;
        win_h = height_of l.display_frame;
        crop_x = l.source_crop.left;
        crop_y = l.source_crop.top;
        crop_w = width_of l.source_crop;
        crop_h = height_of l.source_crop;
      };
    }
