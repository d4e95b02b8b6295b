-- ===== src/Hwc/Setup/Holes.antt =====
-- Overlays in the middle of the layers that the GPU draws.
use camerahal.Common.{
  ℕ, ◌+◌, ◌≡◌, inl, inr, refl, subst, ◌∙◌, Bool, true, false, not, ◌&&◌, ◌||◌, Option, none, some,
  List, [], ◌∷◌, Bool-cases, arith,
}
use camerahal.Hwc.{Handle, Layer, Device}
use camerahal.Hwc.Layers.{is_blended}
use camerahal.Hwc.Decide.{reset_composition}
use camerahal.Hwc.Setup.{
  Setup, initial_setup, is_some, can_place, place, compose_at, compose, step_placed, step_with,
  step_layer, setup_layers,
}
use camerahal.Hwc.Setup.Stacking.{IsReset}
use camerahal.Hwc.Setup.Order.{reset_composition-IsReset}

abbrev IsHole : Bool → Layer → Type 0
IsHole true l = (is_blended l ≡ false) × (l.clear_fb ≡ true)
IsHole false l = Unit

-- Above the first layer that the GPU draws (`drawn` tells that there was one), every layer with an
-- overlay is opaque and asks for the frame buffer to be cleared where it lies.
abbrev pub HasHoles : Bool → List Layer → Type 0
HasHoles drawn [] = Unit
HasHoles drawn (l ∷ ls) = IsHole (drawn && l.is_overlay) l × HasHoles (drawn || not l.is_overlay) ls

fb_z-place :
    (dev : Device) (s : Setup) (i : ℕ) (l : Layer) (handle : Handle)
    → is_some (place dev s i l handle).fb_z ≡ is_some s.fb_z
unfolding place
fb_z-place dev s i l handle = refl

fb_z-compose_at : (s : Setup) (f : Option ℕ) → is_some (compose_at s f).fb_z ≡ true
unfolding compose_at
fb_z-compose_at s none = refl
fb_z-compose_at s (some f) = refl

fb_z-compose : (dev : Device) (s : Setup) → dev.use_sgx ≡ true → is_some (compose dev s).fb_z ≡ true
unfolding compose
fb_z-compose dev s gpu = rw gpu (fb_z-compose_at s s.fb_z)

can_place-opaque :
    (dev : Device) (max : ℕ) (s : Setup) (l : Layer) (handle : Handle)
    → can_place dev max s l handle ≡ true
    → is_some s.fb_z ≡ true
    → is_blended l ≡ false
unfolding can_place
can_place-opaque dev max s l handle h e = ground arith

-- What one layer becomes, and whether a layer was drawn behind it.
Steps : Bool → Setup × Layer → Type 0
Steps drawn r =
    IsHole (drawn && r.1.is_overlay) r.1 × (is_some r.0.fb_z ≡ (drawn || not r.1.is_overlay))

module _ (dev : Device) (max : ℕ) (gpu : dev.use_sgx ≡ true) where
  composes :
      (s : Setup) (l : Layer) → l.is_overlay ≡ false → Steps (is_some s.fb_z) (compose dev s, l)
  unfolding Steps
  composes s l fresh = elim (Bool-cases (is_some s.fb_z)) [
    | inl e ↦ (rw (e, fresh) tt, fb_z-compose dev s gpu ∙ rw (e) refl)
    | inr e ↦ (rw (e) tt, fb_z-compose dev s gpu ∙ rw (e, fresh) refl)
  ]

  places :
      (s : Setup) (i : ℕ) (l : Layer) (handle : Handle)
      → can_place dev max s l handle ≡ true
      → Steps (is_some s.fb_z) (step_placed dev s i l handle)
  unfolding Steps step_placed
  places s i l handle can = elim (Bool-cases (is_some s.fb_z)) [
    | inl e ↦
        let o = can_place-opaque dev max s l handle can e in
        (rw e (o, rw (gpu, o) refl), fb_z-place dev s i l handle ∙ rw e refl)
    | inr e ↦ (rw e tt, fb_z-place dev s i l handle ∙ rw e refl)
  ]

  steps :
      (s : Setup) (i : ℕ) (l : Layer) (h : Option Handle)
      → l.is_overlay ≡ false
      → Steps (is_some s.fb_z) (step_with dev max s i l h)
  unfolding step_with
  steps s i l none fresh = composes s l fresh
  steps s i l (some handle) fresh = elim (Bool-cases (can_place dev max s l handle)) [
    | inl e ↦ rw e (places s i l handle e)
    | inr e ↦ rw e (composes s l fresh)
  ]

  loop-HasHoles :
      (s : Setup) (i : ℕ) (ls : List Layer)
      → IsReset ls
      → HasHoles (is_some s.fb_z) (setup_layers dev max s i ls).1
  unfolding setup_layers step_layer Steps
  loop-HasHoles s i [] fresh = tt
  loop-HasHoles s i (l ∷ ls) fresh =
      let r = step_with dev max s i l l.handle in
      let here = steps s i l l.handle fresh.0 in
      (
        here.0,
        subst (λ b. HasHoles b (setup_layers dev max r.0 (i + 1) ls).1) here.1
            (loop-HasHoles r.0 (i + 1) ls fresh.1),
      )

-- When the GPU draws some of the layers, every layer with an overlay above the first of these is opaque
-- and has the hint that clears the frame buffer: the frame buffer, which lies above it or below it as
-- a whole, does not cover it and is not seen through it.
pub setup_layers-HasHoles :
    (dev : Device) (max : ℕ) (layers : List Layer)
    → dev.use_sgx ≡ true
    → HasHoles false (setup_layers dev max (initial_setup dev) 0 (reset_composition layers)).1
setup_layers-HasHoles dev max layers gpu =
    loop-HasHoles dev max gpu (initial_setup dev) 0 (reset_composition layers)
      (reset_composition-IsReset layers)
