-- ===== src/Hwc/Setup/Stacking.antt =====
-- The z-orders of the overlays and of the frame buffer.
use camerahal.Common.{
  ℕ, ◌+◌, ◌-◌, ◌≤◌, ◌<◌, ◌≡◌, inl, inr, sym, ap, subst, ◌∙◌, Bool, true, false, Option, none, some,
  List, [], ◌∷◌, ltb, ◌==◌, if◌then◌else◌, All, Bool-cases, arith,
}
use camerahal.Hwc.{Handle, Layer, Device}
use camerahal.Hwc.Decide.{bit}
use camerahal.Hwc.Setup.{
  Setup, is_some, can_place, place, compose_at, compose, step_placed, step_with, step_layer,
  setup_layers,
}
use camerahal.Hwc.Setup.Fields.{can_place-format, zorder-place, zorder-lower}

-- The place of the frame buffer among the overlays from the composition types: the number of layers
-- with an overlay before the last one without, `none` if all have one.
abbrev pub fb_place : ℕ → Option ℕ → List Layer → Option ℕ
fb_place placed f [] = f
fb_place placed f (l ∷ ls) =
    fb_place (placed + bit l.is_overlay) (if l.is_overlay then f else some placed) ls

-- The number of the layers with an overlay.
abbrev pub placed_in : List Layer → ℕ
placed_in [] = 0
placed_in (l ∷ ls) = bit l.is_overlay + placed_in ls

-- The z-order of the k-th overlay with the frame buffer at `f`.
abbrev pub rank : Option ℕ → ℕ → ℕ
rank none k = k
rank (some f) k = if ltb k f then k else k + 1

abbrev pub AtMost : Option ℕ → ℕ → Type 0
AtMost none n = Unit
AtMost (some f) n = f ≤ n

-- The invariant of the loop, with `placed` layers on overlays so far.
pub record IsStacked (dev : Device) (placed : ℕ) (f : Option ℕ) (s : Setup) : Type 0 where
  pub at : s.fb_z ≡ f
  pub counted : s.num_ovls ≡ bit dev.use_sgx + placed
  pub topped : s.z ≡ placed + bit (is_some f)
  pub within : AtMost f placed
  pub no_fb : dev.use_sgx ≡ false → f ≡ none
  pub ranked : (k : ℕ) → k < placed → (s.overlays (bit dev.use_sgx + k)).zorder ≡ rank f k

pub AtMost_suc : (f : Option ℕ) (n : ℕ) → AtMost f n → AtMost f (n + 1)
AtMost_suc none n h = tt
AtMost_suc (some f) n h = omega arith

rank_top : (f : Option ℕ) (n : ℕ) → AtMost f n → n + bit (is_some f) ≡ rank f n
rank_top none n h = omega arith
rank_top (some f) n h = ground arith

topped_suc : (n b : ℕ) → n + b + 1 ≡ n + 1 + b
topped_suc n b = omega arith

place-IsStacked :
    (dev : Device) (max placed : ℕ) (f : Option ℕ) (s : Setup) (i : ℕ) (l : Layer) (handle : Handle)
    → IsStacked dev placed f s
    → can_place dev max s l handle ≡ true
    → IsStacked dev (placed + 1) f (place dev s i l handle)
unfolding place
place-IsStacked dev max placed f s i l handle w can =
    let valid = can_place-format dev max s l handle can in
    let counted = w.counted in
    let topped = w.topped in
    record {
      at = w.at;
      counted = omega arith;
      topped = omega arith;
      within = AtMost_suc f placed w.within;
      no_fb = w.no_fb;
      ranked = λ k h.
          let z = zorder-place dev s i l handle (bit dev.use_sgx + k) valid in
          elim (Bool-cases (s.num_ovls == bit dev.use_sgx + k)) [
            | inl e ↦
                let same : k ≡ placed = ground arith in
                z ∙ rw e (topped ∙ rank_top f placed w.within ∙ ap (rank f) (sym same))
            | inr e ↦ let below : k < placed = ground arith in z ∙ rw e (w.ranked k below)
          ];
    }

compose-IsStacked :
    (dev : Device) (placed : ℕ) (f : Option ℕ) (s : Setup)
    → IsStacked dev placed f s
    → dev.use_sgx ≡ true
    → IsStacked dev placed (some placed) (compose_at s f)
unfolding compose_at
compose-IsStacked dev placed none s w gpu =
    let counted = w.counted in
    let topped = w.topped in
    record {
      at = ap some (omega arith);
      counted = counted;
      topped = omega arith;
      within = omega arith;
      no_fb = λ e. absurd (ground arith);
      ranked = λ k h. w.ranked k h ∙ ground arith;
    }
compose-IsStacked dev placed (some f) s w gpu =
    let counted = w.counted in
    let topped = w.topped in
    let within = w.within in
    record {
      at = ap some (omega arith);
      counted = counted;
      topped = topped;
      within = omega arith;
      no_fb = λ e. absurd (ground arith);
      ranked = λ k h.
          let b : bit dev.use_sgx ≡ 1 = ap bit gpu in
          ground
            (arith, w.ranked k h, zorder-lower (s.z - 1 - f) f s.overlays (bit dev.use_sgx + k));
    }

-- Without the GPU there is no frame buffer.
abbrev pub place_of : Bool → Option ℕ → Option ℕ
place_of gpu g = if gpu then g else none

composed-IsStacked :
    (dev : Device) (placed : ℕ) (g : Option ℕ) (s : Setup)
    → IsStacked dev placed (place_of dev.use_sgx g) s
    → IsStacked dev placed (place_of dev.use_sgx (some placed)) (compose dev s)
unfolding compose
composed-IsStacked dev placed g s w = elim (Bool-cases dev.use_sgx) [
  | inl gpu ↦
      let w' : IsStacked dev placed g s =
        subst (λ b. IsStacked dev placed (place_of b g) s) gpu w in
      let goal : IsStacked dev placed (some placed) (compose_at s g) =
        compose-IsStacked dev placed g s w' gpu in
      let at : compose_at s s.fb_z ≡ compose_at s g = ap (compose_at s) w'.at in
      subst
        (λ b.
          IsStacked dev placed (place_of b (some placed)) (if b then compose_at s s.fb_z else s))
        (sym gpu) (subst (λ t. IsStacked dev placed (some placed) t) (sym at) goal)
  | inr cpu ↦
      let w' : IsStacked dev placed none s =
        subst (λ b. IsStacked dev placed (place_of b g) s) cpu w in
      subst
        (λ b.
          IsStacked dev placed (place_of b (some placed)) (if b then compose_at s s.fb_z else s))
        (sym cpu) w'
]

-- The invariant after a layer that was put on an overlay or not.
abbrev Stepped : Device → ℕ → Option ℕ → Setup × Layer → Type 0
Stepped dev placed g r =
    IsStacked dev (placed + bit r.1.is_overlay)
      (place_of dev.use_sgx (if r.1.is_overlay then g else some placed)) r.0

module _ (dev : Device) (max placed : ℕ) (g : Option ℕ) (s : Setup) (i : ℕ) (l : Layer) where
  composed-Stepped :
      IsStacked dev placed (place_of dev.use_sgx g) s
      → l.is_overlay ≡ false
      → Stepped dev placed g (compose dev s, l)
  composed-Stepped w fresh =
      let same : placed + 0 ≡ placed = omega arith in
      subst
        (λ b.
          IsStacked dev (placed + bit b) (place_of dev.use_sgx (if b then g else some placed))
            (compose dev s))
        (sym fresh)
        (subst (λ n. IsStacked dev n (place_of dev.use_sgx (some placed)) (compose dev s))
          (sym same) (composed-IsStacked dev placed g s w))

  step-Stepped :
      (h : Option Handle)
      → IsStacked dev placed (place_of dev.use_sgx g) s
      → l.is_overlay ≡ false
      → Stepped dev placed g (step_with dev max s i l h)
  unfolding step_with step_placed
  step-Stepped none w fresh = composed-Stepped w fresh
  step-Stepped (some handle) w fresh = elim (Bool-cases (can_place dev max s l handle)) [
    | inl e ↦ rw e (place-IsStacked dev max placed (place_of dev.use_sgx g) s i l handle w e)
    | inr e ↦ rw e (composed-Stepped w fresh)
  ]

abbrev pub IsReset : List Layer → Type 0
IsReset = All (λ l. l.is_overlay ≡ false)

pub loop-IsStacked :
    (dev : Device) (max placed : ℕ) (g : Option ℕ) (s : Setup) (i : ℕ) (ls : List Layer)
    → IsStacked dev placed (place_of dev.use_sgx g) s
    → IsReset ls
    → IsStacked dev
        (placed + placed_in (setup_layers dev max s i ls).1)
        (place_of dev.use_sgx (fb_place placed g (setup_layers dev max s i ls).1))
        (setup_layers dev max s i ls).0
unfolding setup_layers step_layer
loop-IsStacked dev max placed g s i [] w fresh =
    let same : placed + 0 ≡ placed = omega arith in
    subst (λ n. IsStacked dev n (place_of dev.use_sgx g) s) (sym same) w
loop-IsStacked dev max placed g s i (l ∷ ls) w fresh =
    let r = step_with dev max s i l l.handle in
    let next = step-Stepped dev max placed g s i l l.handle w fresh.0 in
    let rest =
      loop-IsStacked dev max (placed + bit r.1.is_overlay)
        (if r.1.is_overlay then g else some placed) r.0 (i + 1) ls next fresh.1 in
    let ls' = (setup_layers dev max r.0 (i + 1) ls).1 in
    let same : placed + bit r.1.is_overlay + placed_in ls'
        ≡ placed + (bit r.1.is_overlay + placed_in ls') =
      omega arith in
    subst
      (λ n.
        IsStacked dev n
          (place_of dev.use_sgx (
            fb_place (placed + bit r.1.is_overlay) (if r.1.is_overlay then g else some placed) ls'))
          (setup_layers dev max r.0 (i + 1) ls).0)
      same rest
