-- ===== src/Hwc/Prepare/Distinct.antt =====
-- All overlays of a composition, on both displays: their z-orders and their pipelines.
use camerahal.Common.{
  ℕ, ◌+◌, ◌-◌, ◌<◌, ◌≡◌, ◌≢◌, inl, inr, refl, sym, ap, ◌∙◌, true, List, ltb, Bool-cases, arith,
}
use camerahal.Hwc.{Layer, Overlay, Device}
use camerahal.Hwc.Layers.{is_valid_format}
use camerahal.Hwc.Decide.{Counts, decide_supported_cloning, reset_composition}
use camerahal.Hwc.Setup.{Setup, initial_setup, setup_layers, finish_setup}
use camerahal.Hwc.Setup.Order.{HasOrder, setup_layers-HasOrder}
use camerahal.Hwc.Setup.Distinct.{IsOrdered, HasOrder-IsOrdered}
use camerahal.Hwc.Prepare.{Screen, external_overlays, decide, completed, prepare}
use camerahal.Hwc.Prepare.Clones.{HasClones}
use camerahal.Hwc.Prepare.Docking.{external_overlays-HasClones}

-- No two of the first `n` overlays share the value.
abbrev pub AreDistinct : (Overlay → ℕ) → Device → Type 0
AreDistinct f dev =
    (i j : ℕ)
    → i < dev.num_ovls
    → j < dev.num_ovls
    → f (dev.overlays i) ≡ f (dev.overlays j)
    → i ≡ j

-- The value of an internal overlay, or of an external one.
module _ (s : Setup) (n : ℕ) (t : Setup) (w : HasClones s n t) where
  -- Two overlays on one display, or on different ones.
  pub distinct-parts :
      (f : Overlay → ℕ)
      → ((i j : ℕ) → i < s.num_ovls → j < s.num_ovls → f (t.overlays i) ≡ f (t.overlays j) → i ≡ j)
      → ((i j : ℕ)
          → i < n
          → j < n
          → f (t.overlays (s.num_ovls + i)) ≡ f (t.overlays (s.num_ovls + j))
          → i ≡ j)
      → ((i j : ℕ) → i < s.num_ovls → j < n → f (t.overlays i) ≢ f (t.overlays (s.num_ovls + j)))
      → (i j : ℕ) → i < t.num_ovls
      → j < t.num_ovls
      → f (t.overlays i) ≡ f (t.overlays j)
      → i ≡ j
  distinct-parts f inner outer across i j h k e =
      let num = w.num_is in
      let v = λ (l : ℕ). f (t.overlays l) in
      elim (Bool-cases (ltb i s.num_ovls)) [
        | inl a ↦ elim (Bool-cases (ltb j s.num_ovls)) [
          | inl b ↦ inner i j (ground arith) (ground arith) e
          | inr b ↦
              let back : s.num_ovls + (j - s.num_ovls) ≡ j = ground arith in
              absurd (across i (j - s.num_ovls) (ground arith) (ground arith) (e ∙ ap v (sym back)))
        ]
        | inr a ↦
            let back : s.num_ovls + (i - s.num_ovls) ≡ i = ground arith in
            elim (Bool-cases (ltb j s.num_ovls)) [
              | inl b ↦ absurd (
                  across j (i - s.num_ovls) (ground arith) (ground arith) (sym e ∙ ap v (sym back)))
              | inr b ↦
                  let back' : s.num_ovls + (j - s.num_ovls) ≡ j = ground arith in
                  let same =
                    outer (i - s.num_ovls) (j - s.num_ovls) (ground arith) (ground arith)
                      (ap v back ∙ e ∙ ap v (sym back')) in
                  omega arith
            ]
      ]

  zorders-distinct :
      IsOrdered s
      → (i j : ℕ) → i < t.num_ovls
      → j < t.num_ovls
      → (t.overlays i).zorder ≡ (t.overlays j).zorder
      → i ≡ j
  zorders-distinct o =
      distinct-parts (λ v. v.zorder)
        (λ i j h k e. o.distinct i j h k (sym (w.kept i h).1 ∙ e ∙ (w.kept j k).1)) w.apart
        (λ i j h k e.
          let a = (w.kept i h).1 in let b = o.below i h in let c = w.behind j k in omega arith)

module _ (screen : Screen) (dev : Device) (layers : List Layer) where
  -- The decisions and the internal overlays of a composition.
  abbrev pub decided : Device × Counts
  decided = decide dev (reset_composition layers)

  abbrev pub looped : Setup × List Layer
  looped =
      setup_layers decided.0 decided.1.max_hw (initial_setup decided.0) 0 (reset_composition layers)

  abbrev pub inside : Setup
  inside = finish_setup decided.0 looped.0

  fb_format-decide : decided.0.fb_format ≡ dev.fb_format
  unfolding decide decide_supported_cloning
  fb_format-decide = refl

  pub valid_fb : is_valid_format dev.fb_format ≡ true → is_valid_format decided.0.fb_format ≡ true
  valid_fb valid = ap is_valid_format fb_format-decide ∙ valid

  order : is_valid_format dev.fb_format ≡ true → HasOrder decided.0 looped.1 inside
  order valid = setup_layers-HasOrder decided.0 decided.1.max_hw layers (valid_fb valid)

  pub clones :
      is_valid_format dev.fb_format ≡ true
      → (n : ℕ) × HasClones inside n
          (external_overlays screen decided.0.ext decided.0.ext_ovls inside).0
  clones valid =
      let o = order valid in
      external_overlays-HasClones screen decided.0.ext inside decided.0.ext_ovls o.used
        (HasOrder-IsOrdered decided.0 looped.1 inside o)

  -- After omap4_hwc_prepare with a frame buffer of a known format, no two overlays have the same z-order,
  -- on whichever displays they are: the check at its end never reports one.
  pub prepare-zorders :
      is_valid_format dev.fb_format ≡ true
      → AreDistinct (λ o. o.zorder) (prepare screen dev layers).0
  unfolding prepare completed
  prepare-zorders valid =
      let (n, w) = clones valid in
      zorders-distinct inside n (external_overlays screen decided.0.ext decided.0.ext_ovls inside).0
        w (HasOrder-IsOrdered decided.0 looped.1 inside (order valid))
