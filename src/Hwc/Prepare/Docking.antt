-- ===== src/Hwc/Prepare/Docking.antt =====
-- The one overlay that docking puts on the external display.
use camerahal.Common.{
  ℕ, ◌-◌, ◌<◌, ◌≡◌, ◌⊎◌, inl, inr, refl, sym, ap, subst, ◌∙◌, true, not, ◌&&◌, Option, none, some,
  leb, ◌==◌, if◌then◌else◌, Bool-cases, if-intro, arith,
}
use camerahal.Hwc.{bgra_8888, Transform, External, max_hw_overlays}
use camerahal.Hwc.Setup.{Setup}
use camerahal.Hwc.Setup.Distinct.{IsOrdered}
use camerahal.Hwc.Setup.Fields.{zorder-setup_layer_base}
use camerahal.Hwc.Prepare.{
  Screen, Cloned, cloned, busy, no_device, clone_layer, clone_external_layer, mirror_all, docked,
  with_image, image_docked, dock_overlay, external_overlays,
}
use camerahal.Hwc.Prepare.Clones.{
  Same, HasClones, clone_layer-fields, clone_layer-busy, none-HasClones, one-HasClones,
  none-HasMirrored, mirror_all-HasMirrored, HasMirrored-HasClones,
}

-- Nothing is cloned.
abbrev Refused : Setup → Setup × Cloned → Type 0
Refused s r = (r ≡ (s, busy)) ⊎ (r ≡ (s, no_device))

external-cases :
    (screen : Screen) (t : Transform) (post2 : ℕ) (s : Setup) (ix : ℕ)
    → Refused s (clone_external_layer screen t post2 s ix)
      ⊎ ((s.num_ovls < max_hw_overlays)
          × (clone_external_layer screen t post2 s ix ≡ clone_layer screen t post2 s ix))
unfolding clone_external_layer
external-cases screen t post2 s ix = elim (Bool-cases (screen.no_mode (s.overlays ix))) [
  | inl e ↦ inl (inr (rw e refl))
  | inr e ↦ elim (Bool-cases (leb max_hw_overlays s.num_ovls)) [
    | inl full ↦ inl (inl (rw e (clone_layer-busy screen t post2 s ix (ground arith))))
    | inr free ↦ inr (ground arith, rw e refl)
  ]
]

docked-Refused : (s : Setup) (r : Setup × Cloned) → Refused s r → (docked r).0 ≡ s
unfolding docked
docked-Refused s r (inl e) = ap (λ c. (docked c).0) e
docked-Refused s r (inr e) = ap (λ c. (docked c).0) e

image_docked-Refused :
    (n : ℕ) (s : Setup) (r : Setup × Cloned) → Refused s r → (image_docked n r).0 ≡ s
unfolding image_docked
image_docked-Refused n s r (inl e) = ap (λ c. (image_docked n c).0) e
image_docked-Refused n s r (inr e) = ap (λ c. (image_docked n c).0) e

docked-fields :
    (r : Setup × Cloned) (k : ℕ)
    → r.1 ≡ cloned
    → ((docked r).0.num_ovls ≡ r.0.num_ovls)
      × (((docked r).0.overlays k).ix ≡ (r.0.overlays k).ix)
      × (((docked r).0.overlays k).zorder
          ≡ (if r.0.num_ovls - 1 == k then r.0.z else (r.0.overlays k).zorder))
unfolding docked
docked-fields (s, cloned) k e = (refl, ground arith, ground arith)
docked-fields (s, busy) k e = cc
docked-fields (s, no_device) k e = cc

image_docked-fields :
    (n : ℕ) (r : Setup × Cloned) (k : ℕ)
    → r.1 ≡ cloned
    → ((image_docked n r).0.num_ovls ≡ r.0.num_ovls)
      × Same ((image_docked n r).0.overlays k) (r.0.overlays k)
unfolding image_docked
image_docked-fields n (s, cloned) k e = (refl, (ground arith, ground arith))
image_docked-fields n (s, busy) k e = cc
image_docked-fields n (s, no_device) k e = cc

z-clone_layer :
    (screen : Screen) (t : Transform) (post2 : ℕ) (s : Setup) (ix : ℕ)
    → (clone_layer screen t post2 s ix).0.z ≡ s.z
unfolding clone_layer
z-clone_layer screen t post2 s ix = ground arith

with_image-fields :
    (screen : Screen) (s : Setup) (k : ℕ)
    → ((with_image screen s).num_ovls ≡ s.num_ovls)
      × ((with_image screen s).overlays s.num_ovls).zorder ≡ 0
      × (k < s.num_ovls → Same ((with_image screen s).overlays k) (s.overlays k))
unfolding with_image
with_image-fields screen s k = (
  refl,
  ground (
    arith,
    zorder-setup_layer_base (s.overlays s.num_ovls) 0 bgra_8888 true screen.image_width
        screen.image_height refl,
  ),
  λ h. (ground arith, ground arith),
)

module _ (screen : Screen) (ext : External) (s : Setup) where
  -- The overlay of a layer.
  layer-HasClones :
      (ix : ℕ)
      → s.z ≡ s.num_ovls
      → (n : ℕ) × HasClones s n (docked (clone_external_layer screen ext.current s.num_ovls s ix)).0
  layer-HasClones ix z =
      let n = s.num_ovls in
      let t = ext.current in
      elim (external-cases screen t n s ix) [
        | inl refused ↦
            (0, subst (HasClones s 0) (sym (docked-Refused s _ refused)) (none-HasClones s))
        | inr (room, e) ↦
            let c = clone_layer screen t n s ix in
            let f = λ (k : ℕ). clone_layer-fields screen t n s ix k room in
            let d = λ (k : ℕ). docked-fields c k (f 0).0 in
            let clones : HasClones s 1 (docked c).0 =
              one-HasClones s (docked c).0 ((d 0).0 ∙ (f 0).1)
                (λ k h.
                  let g = f k in let a = d k in let b = (f 0).1 in (ground arith, ground arith))
                (let g = f n in let a = d n in ground arith)
                (let a = d n in
                  let b = (f 0).1 in let y = z-clone_layer screen t n s ix in ground arith) in
            (1, subst (λ r'. HasClones s 1 (docked r').0) (sym e) clones)
      ]

  -- The image for docking.
  image-HasClones :
      (n : ℕ) × HasClones s n
        (image_docked s.num_ovls
          (clone_external_layer screen ext.current s.num_ovls (with_image screen s) s.num_ovls)).0
  image-HasClones =
      let n = s.num_ovls in
      let t = ext.current in
      let u = with_image screen s in
      let w = λ (k : ℕ). with_image-fields screen s k in
      elim (external-cases screen t n u n) [
        | inl refused ↦ (
          0,
          subst (HasClones s 0) (sym (image_docked-Refused n u _ refused)) (record {
            num_is = omega (arith, (w 0).0);
            kept = λ k h. (w k).2 h;
            pipelines = λ i h. absurd (omega arith);
            behind = λ i h. absurd (omega arith);
            apart = λ i j h k e. absurd (omega arith);
          }),
        )
        | inr (room, e) ↦
            let c = clone_layer screen t n u n in
            let f = λ (k : ℕ). clone_layer-fields screen t n u n k room in
            let d = λ (k : ℕ). image_docked-fields n c k (f 0).0 in
            let clones : HasClones s 1 (image_docked n c).0 =
              one-HasClones s (image_docked n c).0 (omega (arith, (d 0).0, (f 0).1, (w 0).0))
                (λ k h.
                  let g = f k in
                  let a = (d k).1 in
                  let b = (w k).2 h in let y = (w 0).0 in (ground arith, ground arith))
                (let g = f n in let a = (d n).1 in let y = (w 0).0 in ground arith)
                (let g = f n in
                  let a = (d n).1 in let y = (w 0).0 in let x = (w 0).1 in ground arith) in
            (1, subst (λ r'. HasClones s 1 (image_docked n r').0) (sym e) clones)
      ]

  dock_overlay-HasClones :
      (o : Option ℕ) → s.z ≡ s.num_ovls → (n : ℕ) × HasClones s n (dock_overlay screen ext s o).0
  unfolding dock_overlay
  dock_overlay-HasClones (some ix) z = layer-HasClones ix z
  dock_overlay-HasClones none z = elim (Bool-cases ext.force_dock) [
    | inl e ↦ rw e image-HasClones
    | inr e ↦ rw e (0, none-HasClones s)
  ]

  -- Whatever is cloned, it stands behind the internal overlays.
  pub external_overlays-HasClones :
      (granted : ℕ)
      → s.z ≡ s.num_ovls
      → IsOrdered s
      → (n : ℕ) × HasClones s n (external_overlays screen ext granted s).0
  unfolding external_overlays
  external_overlays-HasClones granted z o =
      let n = s.num_ovls in
      let (m, w) =
        mirror_all-HasMirrored screen ext.current s n 0 s (none-HasMirrored s) (omega arith) in
      let P : Setup × Cloned → Type 0 = λ r. (m : ℕ) × HasClones s m r.0 in
      let same : P (s, busy) = (0, none-HasClones s) in
      let docks = dock_overlay screen ext s s.ix_docking in
      let mirrors : Setup × Cloned = (mirror_all screen ext.current n n 0 s, busy) in
      let no_mode = ext.last.docking && screen.no_mirror_mode in
      let rest = if no_mode then (s, busy) else mirrors in
      let shows = if ext.current.docking then docks else rest in
      if-intro P (not (ext.current.enabled && not (granted == 0))) (s, busy) shows (λ e. same)
        (λ e.
          if-intro P ext.current.docking docks rest (λ d. dock_overlay-HasClones s.ix_docking z)
            (λ d.
              if-intro P no_mode (s, busy) mirrors (λ l. same)
                (λ l. (m, HasMirrored-HasClones s m (mirror_all screen ext.current n n 0 s) o w))))
