-- ===== src/Hwc/Decide/Rendering.antt =====
-- From the counts to the layers: each of them can be put on an overlay.
use camerahal.Common.{
  ℕ, ◌≤◌, ◌≡◌, inl, inr, refl, sym, ◌∙◌, Bool, true, false, not, ◌&&◌, ◌||◌, Option, none, some,
  List, [], ◌∷◌, if◌then◌else◌, length, All, Bool-cases, arith,
}
use camerahal.Hwc.{
  Format, rgb_565, rgbx_8888, rgba_8888, bgra_8888, bgrx_8888, ti_nv12, ti_nv12_padded,
  other_format, Handle, Layer, Device,
}
use camerahal.Hwc.Layers.{is_rgb, is_bgr_format, is_nv12, is_valid_handle}
use camerahal.Hwc.Decide.{bit, transforms, shows_on_tv, can_dss_render_handle}
use camerahal.Hwc.Decide.Counting.{value_with, total, one, of_bgr, of_rgb, of_nv12}

-- The layer has a buffer that an overlay can show.
abbrev pub Renders : Device → Layer → Type 0
Renders dev l =
    (handle : Handle) × (l.handle ≡ some handle) × (can_dss_render_handle dev l handle ≡ true)

abbrev AtMostOne : (Layer → Handle → ℕ) → Type 0
AtMostOne f = (l : Layer) (handle : Handle) → f l handle ≤ 1

value_with-le :
    (dev : Device) (f : Layer → Handle → ℕ)
    → AtMostOne f
    → (l : Layer) (o : Option Handle) → value_with dev f l o ≤ 1
value_with-le dev f le l none = omega arith
value_with-le dev f le l (some handle) = ground (arith, le l handle)

total-le :
    (dev : Device) (f : Layer → Handle → ℕ)
    → AtMostOne f
    → (ls : List Layer) → total dev f ls ≤ length ls
total-le dev f le [] = omega arith
total-le dev f le (l ∷ ls) = omega (arith, value_with-le dev f le l l.handle, total-le dev f le ls)

bit-le : (b : Bool) → bit b ≤ 1
bit-le true = omega arith
bit-le false = omega arith

-- A format is of one kind only.
nv12_only :
    (f : Format) → bit (not (is_bgr_format f) && not (is_rgb f) && is_nv12 f) ≡ 1 → is_nv12 f ≡ true
nv12_only f h = ground arith

not_rgb : (f : Format) → bit (not (is_bgr_format f) && is_rgb f) ≡ 0 → is_rgb f ≡ false
not_rgb rgb_565 h = absurd (omega arith)
not_rgb bgra_8888 h = absurd (omega arith)
not_rgb bgrx_8888 h = absurd (omega arith)
not_rgb rgbx_8888 h = refl
not_rgb rgba_8888 h = refl
not_rgb ti_nv12 h = refl
not_rgb ti_nv12_padded h = refl
not_rgb other_format h = refl

not_bgr : (f : Format) → bit (is_bgr_format f) ≡ 0 → is_bgr_format f ≡ false
not_bgr f h = ground arith

-- What has to hold of the counts of some layers, or of the values of one layer.
pub record Fits (dev : Device) (n possible nv12 bgr rgb : ℕ) : Type 0 where
  pub possible_all : possible ≡ n
  pub nv12_all : transforms dev ≡ true → nv12 ≡ n
  pub bgr_none : dev.swap_rb ≡ false → dev.flags_rgb_order ≡ true → bgr ≡ 0
  pub rgb_none : dev.swap_rb ≡ true → dev.flags_rgb_order ≡ true → rgb ≡ 0
  pub tv_none : shows_on_tv dev ≡ true → bgr ≡ 0

abbrev pub LayersFit : Device → List Layer → Type 0
LayersFit dev ls =
    Fits dev (length ls) (total dev one ls) (total dev of_nv12 ls) (total dev of_bgr ls)
      (total dev of_rgb ls)

module _ (dev : Device) (gpu : dev.use_sgx ≡ false) where
  renders_handle :
      (l : Layer) (handle : Handle)
      → is_valid_handle dev l handle ≡ true
      → (transforms dev ≡ true → of_nv12 l handle ≡ 1)
      → (dev.swap_rb ≡ false → dev.flags_rgb_order ≡ true → of_bgr l handle ≡ 0)
      → (dev.swap_rb ≡ true → dev.flags_rgb_order ≡ true → of_rgb l handle ≡ 0)
      → (shows_on_tv dev ≡ true → of_bgr l handle ≡ 0)
      → can_dss_render_handle dev l handle ≡ true
  unfolding can_dss_render_handle
  renders_handle l handle v n b r t =
      let f = handle.format in
      let transformed : (not (transforms dev) || is_nv12 f) ≡ true =
        elim (Bool-cases (transforms dev)) [
          | inl e ↦ rw (e, nv12_only f (n e)) refl
          | inr e ↦ rw e refl
        ] in
      let coloured : (not (if dev.swap_rb then is_rgb f else is_bgr_format f)
            || not dev.flags_rgb_order)
          ≡ true =
        elim (Bool-cases dev.flags_rgb_order) [
          | inr e ↦ ground arith
          | inl e ↦ elim (Bool-cases dev.swap_rb) [
            | inl s ↦ rw (e, s, not_rgb f (r s e)) refl
            | inr s ↦ rw (e, s, not_bgr f (b s e)) refl
          ]
        ] in
      let on_tv : (not (shows_on_tv dev && is_bgr_format f)) ≡ true =
        elim (Bool-cases (shows_on_tv dev)) [
          | inl e ↦ rw (e, not_bgr f (t e)) refl
          | inr e ↦ rw e refl
        ] in
      rw (v, transformed, gpu, coloured, on_tv) (ground arith)

  renders_with :
      (l : Layer) (o : Option Handle)
      → Fits dev 1
          (value_with dev one l o)
          (value_with dev of_nv12 l o)
          (value_with dev of_bgr l o)
          (value_with dev of_rgb l o)
      → (handle : Handle) × (o ≡ some handle) × (can_dss_render_handle dev l handle ≡ true)
  renders_with l none w = absurd (omega (arith, w.possible_all))
  renders_with l (some handle) w = elim (Bool-cases (is_valid_handle dev l handle)) [
    | inl v ↦
        let same : (f : Layer → Handle → ℕ) → value_with dev f l (some handle) ≡ f l handle =
          λ f. rw v refl in
        (
          handle,
          refl,
          renders_handle l handle v (λ e. sym (same of_nv12) ∙ w.nv12_all e)
              (λ a e. sym (same of_bgr) ∙ w.bgr_none a e)
              (λ a e. sym (same of_rgb) ∙ w.rgb_none a e) (λ e. sym (same of_bgr) ∙ w.tv_none e),
        )
    | inr v ↦ absurd (let p = w.possible_all in ground arith)
  ]

  first-Fits :
      (l : Layer) (ls : List Layer)
      → LayersFit dev (l ∷ ls)
      → Fits dev 1
          (value_with dev one l l.handle)
          (value_with dev of_nv12 l l.handle)
          (value_with dev of_bgr l l.handle)
          (value_with dev of_rgb l l.handle)
        × LayersFit dev ls
  first-Fits l ls w =
      let o = l.handle in
      let le1 : AtMostOne one = λ l h. omega arith in
      let a = value_with-le dev one le1 l o in
      let b = total-le dev one le1 ls in
      let nv : AtMostOne of_nv12 = λ l h. bit-le _ in
      let c = value_with-le dev of_nv12 nv l o in
      let d = total-le dev of_nv12 nv ls in
      let possible = w.possible_all in
      (
        record {
          possible_all = omega arith;
          nv12_all = λ e. omega (arith, w.nv12_all e);
          bgr_none = λ s e. omega (arith, w.bgr_none s e);
          rgb_none = λ s e. omega (arith, w.rgb_none s e);
          tv_none = λ e. omega (arith, w.tv_none e);
        },
        record {
          possible_all = omega arith;
          nv12_all = λ e. omega (arith, w.nv12_all e);
          bgr_none = λ s e. omega (arith, w.bgr_none s e);
          rgb_none = λ s e. omega (arith, w.rgb_none s e);
          tv_none = λ e. omega (arith, w.tv_none e);
        },
      )

  -- Where the counts fit, an overlay can show each of the layers.
  pub LayersFit-Renders : (ls : List Layer) → LayersFit dev ls → All (Renders dev) ls
  LayersFit-Renders [] w = tt
  LayersFit-Renders (l ∷ ls) w =
      let (here, rest) = first-Fits l ls w in
      (renders_with l l.handle here, LayersFit-Renders ls rest)
