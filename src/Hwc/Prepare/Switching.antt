-- ===== src/Hwc/Prepare/Switching.antt =====
-- How many overlays each display gets in one composition.
use camerahal.Common.{
  ℕ, zero, suc, ◌+◌, ◌≤◌, ◌≡◌, inl, inr, refl, true, false, Option, none, some, List, ◌==◌,
  Bool-cases, arith,
}
use camerahal.Hwc.{Layer, Transform, External, Device, max_hw_overlays}
use camerahal.Hwc.Decide.{Counts, share, decide_supported_cloning}
use camerahal.Hwc.Setup.{Setup}
use camerahal.Hwc.Prepare.{
  Screen, Cloned, cloned, busy, no_device, clone_layer, clone_external_layer, mirrored, mirror_all,
  docked, image_docked, with_image, dock_overlay, external_overlays, decide,
}

-- The overlays of this composition and of the last one, on the internal and on the external display:
-- no two of these uses need more overlays than there are, except two that follow one another on one
-- display.
pub record IsBalanced (dev : Device) : Type 0 where
  pub now : dev.post2_layers + dev.ext_ovls ≤ max_hw_overlays
  pub last : dev.last_int_ovls + dev.last_ext_ovls ≤ max_hw_overlays
  pub to_internal : dev.post2_layers + dev.last_ext_ovls ≤ max_hw_overlays
  pub to_external : dev.last_int_ovls + dev.ext_ovls ≤ max_hw_overlays
  pub half : dev.ext_ovls ≤ 2
  pub last_half : dev.last_ext_ovls ≤ 2

-- What the decisions give, `granted` for the external display and `max` for the internal one.
pub record IsShared (dev : Device) (max granted : ℕ) (t : Transform) : Type 0 where
  pub some_internal : 1 ≤ max
  pub free : max + dev.last_ext_ovls ≤ max_hw_overlays
  pub both : max + granted ≤ max_hw_overlays
  pub free_external : dev.last_int_ovls + granted ≤ max_hw_overlays
  pub half : granted ≤ 2
  pub mirrors : (granted == 0) ≡ false → t.enabled ≡ true → t.docking ≡ false → max ≤ granted

share-IsShared :
    (dev : Device) (num : Counts)
    → IsBalanced dev
    → (1 ≤ (share dev num).internal)
      × ((share dev num).internal + dev.last_ext_ovls ≤ max_hw_overlays)
      × ((share dev num).internal + (share dev num).external ≤ max_hw_overlays)
      × ((share dev num).external ≤ 2)
unfolding share
share-IsShared dev num w = ground arith

cloning-IsShared :
    (dev : Device) (num : Counts)
    → IsBalanced dev
    → IsShared dev
        (decide_supported_cloning dev num).1.max_hw
        (decide_supported_cloning dev num).0.ext_ovls
        (decide_supported_cloning dev num).0.ext.current
unfolding decide_supported_cloning
cloning-IsShared dev num w =
    let s = share-IsShared dev num w in
    let l = w.last in
    record {
      some_internal = ground (arith, s);
      free = ground (arith, s);
      both = ground (arith, s);
      free_external = ground (arith, s);
      half = ground (arith, s);
      mirrors = λ a b c. ground (arith, s);
    }

clone_layer-num :
    (screen : Screen) (t : Transform) (post2 : ℕ) (s : Setup) (ix : ℕ)
    → (s.num_ovls ≤ (clone_layer screen t post2 s ix).0.num_ovls)
      × ((clone_layer screen t post2 s ix).0.num_ovls ≤ s.num_ovls + 1)
unfolding clone_layer
clone_layer-num screen t post2 s ix = ground arith

clone_external_layer-num :
    (screen : Screen) (t : Transform) (post2 : ℕ) (s : Setup) (ix : ℕ)
    → (s.num_ovls ≤ (clone_external_layer screen t post2 s ix).0.num_ovls)
      × ((clone_external_layer screen t post2 s ix).0.num_ovls ≤ s.num_ovls + 1)
unfolding clone_external_layer
clone_external_layer-num screen t post2 s ix = ground (arith, clone_layer-num screen t post2 s ix)

-- Between `low` and `low + n` overlays.
abbrev pub Grows : ℕ → ℕ → ℕ → Type 0
Grows low n num = (low ≤ num) × (num ≤ low + n)

mirrored-Grows :
    (r : Setup × Cloned) (next : Setup → Setup) (low n : ℕ)
    → Grows low 1 r.0.num_ovls
    → ((s : Setup) → Grows low 1 s.num_ovls → Grows low (1 + n) (next s).num_ovls)
    → Grows low (1 + n) (mirrored r next).num_ovls
unfolding mirrored
mirrored-Grows (s, cloned) next low n g h = h (record s { z = s.z + 1 }) g
mirrored-Grows (s, busy) next low n g h = omega arith
mirrored-Grows (s, no_device) next low n g h = omega arith

mirror_all-Grows :
    (screen : Screen) (t : Transform) (post2 rounds ix : ℕ) (s : Setup)
    → Grows s.num_ovls rounds (mirror_all screen t post2 rounds ix s).num_ovls
unfolding mirror_all
mirror_all-Grows screen t post2 zero ix s = omega arith
mirror_all-Grows screen t post2 (suc rounds) ix s =
    let g =
      mirrored-Grows (clone_layer screen t post2 s ix) (mirror_all screen t post2 rounds (ix + 1))
        s.num_ovls rounds (clone_layer-num screen t post2 s ix)
        (λ u h. omega (arith, mirror_all-Grows screen t post2 rounds (ix + 1) u)) in
    omega arith

docked-num : (r : Setup × Cloned) → (docked r).0.num_ovls ≡ r.0.num_ovls
unfolding docked
docked-num (s, cloned) = refl
docked-num (s, busy) = refl
docked-num (s, no_device) = refl

image_docked-num : (n : ℕ) (r : Setup × Cloned) → (image_docked n r).0.num_ovls ≡ r.0.num_ovls
unfolding image_docked
image_docked-num n (s, cloned) = refl
image_docked-num n (s, busy) = refl
image_docked-num n (s, no_device) = refl

dock_overlay-Grows :
    (screen : Screen) (ext : External) (s : Setup) (o : Option ℕ)
    → Grows s.num_ovls 1 (dock_overlay screen ext s o).0.num_ovls
unfolding dock_overlay
dock_overlay-Grows screen ext s (some ix) =
    let r = clone_external_layer screen ext.current s.num_ovls s ix in
    omega (arith, docked-num r, clone_external_layer-num screen ext.current s.num_ovls s ix)
dock_overlay-Grows screen ext s none = elim (Bool-cases ext.force_dock) [
  | inl e ↦
      let t = with_image screen s in
      let r = clone_external_layer screen ext.current s.num_ovls t s.num_ovls in
      rw e (
        omega (
          arith,
          image_docked-num s.num_ovls r,
          clone_external_layer-num screen ext.current s.num_ovls t s.num_ovls,
        ))
  | inr e ↦ rw e (omega arith)
]

-- The external display gets no more overlays than are granted to it.
pub external_overlays-Grows :
    (screen : Screen) (ext : External) (granted : ℕ) (s : Setup)
    → ((granted == 0) ≡ false
        → ext.current.enabled ≡ true
        → ext.current.docking ≡ false
        → s.num_ovls ≤ granted)
    → Grows s.num_ovls granted (external_overlays screen ext granted s).0.num_ovls
unfolding external_overlays
external_overlays-Grows screen ext granted s few =
    let n = s.num_ovls in
    ground (
      arith,
      few,
      dock_overlay-Grows screen ext s s.ix_docking,
      mirror_all-Grows screen ext.current n n 0 s,
    )

pub decide-IsShared :
    (dev : Device) (layers : List Layer)
    → IsBalanced dev
    → IsShared dev
        (decide dev layers).1.max_hw
        (decide dev layers).0.ext_ovls
        (decide dev layers).0.ext.current
unfolding decide
decide-IsShared dev layers w = cloning-IsShared dev _ w

-- The numbers of the last composition stay.
pub decide-last :
    (dev : Device) (layers : List Layer)
    → ((decide dev layers).0.last_ext_ovls ≡ dev.last_ext_ovls)
      × ((decide dev layers).0.last_int_ovls ≡ dev.last_int_ovls)
unfolding decide decide_supported_cloning
decide-last dev layers = (refl, refl)
