-- ===== src/Hwc/Decide/Counting.antt =====
-- What the counts over the layers tell about each layer.
use camerahal.Common.{
  ℕ, ◌+◌, ◌≡◌, refl, not, ◌&&◌, ◌||◌, Option, none, some, List, [], ◌∷◌, if◌then◌else◌, arith,
}
use camerahal.Hwc.{Handle, Layer, Device}
use camerahal.Hwc.Layers.{is_rgb, is_bgr_format, is_nv12, scaled, is_valid_handle}
use camerahal.Hwc.Decide.{Counts, bit, counted, gathered_handle, gather_layer_statistics}

-- The sum of a value over the layers that can be shown.
abbrev pub value_with : Device → (Layer → Handle → ℕ) → Layer → Option Handle → ℕ
value_with dev f l none = 0
value_with dev f l (some handle) = if is_valid_handle dev l handle then f l handle else 0

abbrev pub total : Device → (Layer → Handle → ℕ) → List Layer → ℕ
total dev f [] = 0
total dev f (l ∷ ls) = value_with dev f l l.handle + total dev f ls

abbrev pub one : Layer → Handle → ℕ
one l handle = 1

abbrev pub of_bgr : Layer → Handle → ℕ
of_bgr l handle = bit (is_bgr_format handle.format)

abbrev pub of_rgb : Layer → Handle → ℕ
of_rgb l handle = bit (not (is_bgr_format handle.format) && is_rgb handle.format)

abbrev pub of_nv12 : Layer → Handle → ℕ
of_nv12 l handle =
    bit (not (is_bgr_format handle.format) && not (is_rgb handle.format) && is_nv12 handle.format)

abbrev pub of_scaled : Layer → Handle → ℕ
of_scaled l handle = bit (scaled l || is_nv12 handle.format)

-- A field of the counts that grows by a value for each layer that can be shown.
abbrev CountsBy : Device → (Counts → ℕ) → (Layer → Handle → ℕ) → Type 0
CountsBy dev field f =
    (num : Counts) (l : Layer) (handle : Handle)
    → field (gathered_handle dev l num (some handle)) ≡ field num + value_with dev f l (some handle)

total_with :
    (dev : Device) (field : Counts → ℕ) (f : Layer → Handle → ℕ)
    → CountsBy dev field f
    → (num : Counts) (l : Layer) (o : Option Handle)
    → field (gathered_handle dev l num o) ≡ field num + value_with dev f l o
unfolding gathered_handle
total_with dev field f grows num l none = omega arith
total_with dev field f grows num l (some handle) = grows num l handle

gather-total :
    (dev : Device) (field : Counts → ℕ) (f : Layer → Handle → ℕ)
    → CountsBy dev field f
    → (num : Counts) (ls : List Layer)
    → field (gather_layer_statistics dev num ls) ≡ field num + total dev f ls
unfolding gather_layer_statistics
gather-total dev field f grows num [] = omega arith
gather-total dev field f grows num (l ∷ ls) =
    let num' = gathered_handle dev l num l.handle in
    omega
      (arith, total_with dev field f grows num l l.handle, gather-total dev field f grows num' ls)

total-zero : (dev : Device) (ls : List Layer) → total dev (λ l h. 0) ls ≡ 0
total-zero dev [] = refl
total-zero dev (l ∷ ls) = omega (arith, zero_with l l.handle, total-zero dev ls)
  where
    zero_with : (l : Layer) (o : Option Handle) → value_with dev (λ l h. 0) l o ≡ 0
    zero_with l none = refl
    zero_with l (some handle) = ground arith

module _ (dev : Device) (num : Counts) (ls : List Layer) where
  pub gather-possible :
      (gather_layer_statistics dev num ls).possible_overlay_layers
      ≡ num.possible_overlay_layers + total dev one ls
  unfolding gathered_handle counted
  gather-possible =
      gather-total dev (λ n. n.possible_overlay_layers) one (λ n l handle. ground arith) num ls

  pub gather-bgr : (gather_layer_statistics dev num ls).bgr ≡ num.bgr + total dev of_bgr ls
  unfolding gathered_handle counted
  gather-bgr = gather-total dev (λ n. n.bgr) of_bgr (λ n l handle. ground arith) num ls

  pub gather-rgb : (gather_layer_statistics dev num ls).rgb ≡ num.rgb + total dev of_rgb ls
  unfolding gathered_handle counted
  gather-rgb = gather-total dev (λ n. n.rgb) of_rgb (λ n l handle. ground arith) num ls

  pub gather-nv12 : (gather_layer_statistics dev num ls).nv12 ≡ num.nv12 + total dev of_nv12 ls
  unfolding gathered_handle counted
  gather-nv12 = gather-total dev (λ n. n.nv12) of_nv12 (λ n l handle. ground arith) num ls

  pub gather-scaled :
      (gather_layer_statistics dev num ls).scaled_layers
      ≡ num.scaled_layers + total dev of_scaled ls
  unfolding gathered_handle counted
  gather-scaled =
      gather-total dev (λ n. n.scaled_layers) of_scaled (λ n l handle. ground arith) num ls

  pub gather-composited :
      (gather_layer_statistics dev num ls).composited_layers ≡ num.composited_layers
  unfolding gathered_handle counted
  gather-composited = omega (
    arith,
    gather-total dev (λ n. n.composited_layers) (λ l h. 0) (λ n l handle. ground arith) num ls,
    total-zero dev ls,
  )
