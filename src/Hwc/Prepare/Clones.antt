-- ===== src/Hwc/Prepare/Clones.antt =====
-- The overlays of the external display, behind those of the internal one.
use camerahal.Common.{
  ℕ, zero, suc, ◌+◌, ◌-◌, ◌≤◌, ◌<◌, ◌≡◌, inl, inr, refl, sym, ap, subst, ◌∙◌, false, leb, ◌==◌,
  if◌then◌else◌, Bool-cases, arith,
}
use camerahal.Hwc.{Overlay, Transform, max_hw_overlays}
use camerahal.Hwc.Setup.{Setup}
use camerahal.Hwc.Setup.Distinct.{IsOrdered}
use camerahal.Hwc.Prepare.{
  Screen, Cloned, cloned, busy, no_device, clone_layer, mirrored, mirror_all,
}

-- The pipeline and the z-order of an overlay.
abbrev pub Same : Overlay → Overlay → Type 0
Same o p = (o.ix ≡ p.ix) × (o.zorder ≡ p.zorder)

-- Behind the internal overlays of `s` there are `n` others: the internal ones keep their places, the
-- others have the last pipelines, and their z-orders are distinct and behind those of the internal
-- ones.
pub record HasClones (s : Setup) (n : ℕ) (t : Setup) : Type 0 where
  pub num_is : t.num_ovls ≡ s.num_ovls + n
  pub kept : (k : ℕ) → k < s.num_ovls → Same (t.overlays k) (s.overlays k)
  pub pipelines : (i : ℕ) → i < n → (t.overlays (s.num_ovls + i)).ix ≡ max_hw_overlays - 1 - i
  pub behind : (i : ℕ) → i < n → s.num_ovls ≤ (t.overlays (s.num_ovls + i)).zorder
  pub apart :
      (i j : ℕ)
      → i < n
      → j < n
      → (t.overlays (s.num_ovls + i)).zorder ≡ (t.overlays (s.num_ovls + j)).zorder
      → i ≡ j

-- The first `n` internal overlays have been cloned.
pub record HasMirrored (s : Setup) (n : ℕ) (t : Setup) : Type 0 where
  num_is : t.num_ovls ≡ s.num_ovls + n
  few : n ≤ s.num_ovls
  kept : (k : ℕ) → k < s.num_ovls → Same (t.overlays k) (s.overlays k)
  pipelines : (i : ℕ) → i < n → (t.overlays (s.num_ovls + i)).ix ≡ max_hw_overlays - 1 - i
  zorders :
      (i : ℕ) → i < n → (t.overlays (s.num_ovls + i)).zorder ≡ (s.overlays i).zorder + s.num_ovls

pub clone_layer-fields :
    (screen : Screen) (t : Transform) (post2 : ℕ) (s : Setup) (ix k : ℕ)
    → s.num_ovls < max_hw_overlays
    → ((clone_layer screen t post2 s ix).1 ≡ cloned)
      × ((clone_layer screen t post2 s ix).0.num_ovls ≡ s.num_ovls + 1)
      × (((clone_layer screen t post2 s ix).0.overlays k).ix ≡ (
          if s.num_ovls == k
          then max_hw_overlays - 1 - (s.num_ovls - post2)
          else (s.overlays k).ix))
      × (((clone_layer screen t post2 s ix).0.overlays k).zorder
          ≡ (if s.num_ovls == k then (s.overlays ix).zorder + post2 else (s.overlays k).zorder))
unfolding clone_layer
clone_layer-fields screen t post2 s ix k h =
    (ground arith, ground arith, ground arith, ground arith)

pub clone_layer-busy :
    (screen : Screen) (t : Transform) (post2 : ℕ) (s : Setup) (ix : ℕ)
    → max_hw_overlays ≤ s.num_ovls
    → clone_layer screen t post2 s ix ≡ (s, busy)
unfolding clone_layer
clone_layer-busy screen t post2 s ix h = ground arith

clone_layer-HasMirrored :
    (screen : Screen) (t : Transform) (s : Setup) (n : ℕ) (u : Setup)
    → HasMirrored s n u
    → n < s.num_ovls
    → u.num_ovls < max_hw_overlays
    → HasMirrored s (n + 1) (clone_layer screen t s.num_ovls u n).0
clone_layer-HasMirrored screen t s n u w lt room =
    let post2 = s.num_ovls in
    let num = w.num_is in
    record {
      num_is = let f = clone_layer-fields screen t post2 u n 0 room in omega arith;
      few = omega arith;
      kept = λ k h.
          let f = clone_layer-fields screen t post2 u n k room in
          let e : (u.num_ovls == k) ≡ false = ground arith in
          let o = w.kept k h in (f.2 ∙ rw e o.0, f.3 ∙ rw e o.1);
      pipelines = λ i h.
          let f = clone_layer-fields screen t post2 u n (post2 + i) room in
          ground (arith, f, w.pipelines i);
      zorders = λ i h.
          let f = clone_layer-fields screen t post2 u n (post2 + i) room in
          ground (arith, f, w.zorders i, w.kept n lt);
    }

with_z-HasMirrored :
    (s : Setup) (n z : ℕ) (u : Setup) → HasMirrored s n u → HasMirrored s n (record u { z = z })
with_z-HasMirrored s n z u w = record {
  num_is = w.num_is;
  few = w.few;
  kept = w.kept;
  pipelines = w.pipelines;
  zorders = w.zorders;
}

mirrored-cloned :
    (r : Setup × Cloned) (next : Setup → Setup)
    → r.1 ≡ cloned
    → mirrored r next ≡ next (record r.0 { z = r.0.z + 1 })
unfolding mirrored
mirrored-cloned (s, cloned) next e = refl
mirrored-cloned (s, busy) next e = cc
mirrored-cloned (s, no_device) next e = cc

pub mirror_all-HasMirrored :
    (screen : Screen) (t : Transform) (s : Setup) (rounds n : ℕ) (u : Setup)
    → HasMirrored s n u
    → n + rounds ≡ s.num_ovls
    → (m : ℕ) × HasMirrored s m (mirror_all screen t s.num_ovls rounds n u)
unfolding mirror_all mirrored
mirror_all-HasMirrored screen t s zero n u w e = (n, w)
mirror_all-HasMirrored screen t s (suc rounds) n u w e =
    let post2 = s.num_ovls in
    let r = clone_layer screen t post2 u n in
    let next = mirror_all screen t post2 rounds (n + 1) in
    elim (Bool-cases (leb max_hw_overlays u.num_ovls)) [
      | inl full ↦
          let b : r ≡ (u, busy) = clone_layer-busy screen t post2 u n (ground arith) in
          (n, subst (λ c. HasMirrored s n (mirrored c next)) (sym b) w)
      | inr free ↦
          let room : u.num_ovls < max_hw_overlays = ground arith in
          let u' = record r.0 { z = r.0.z + 1 } in
          let w' =
            with_z-HasMirrored s (n + 1) (r.0.z + 1) r.0
              (clone_layer-HasMirrored screen t s n u w (omega arith) room) in
          let (m, v) = mirror_all-HasMirrored screen t s rounds (n + 1) u' w' (omega arith) in
          let f = clone_layer-fields screen t post2 u n 0 room in
          (m, subst (HasMirrored s m) (sym (mirrored-cloned r next f.0)) v)
    ]

pub none-HasMirrored : (s : Setup) → HasMirrored s 0 s
none-HasMirrored s = record {
  num_is = omega arith;
  few = omega arith;
  kept = λ k h. (refl, refl);
  pipelines = λ i h. absurd (omega arith);
  zorders = λ i h. absurd (omega arith);
}

pub HasMirrored-HasClones :
    (s : Setup) (n : ℕ) (t : Setup) → IsOrdered s → HasMirrored s n t → HasClones s n t
HasMirrored-HasClones s n t o w =
    let few = w.few in
    record {
      num_is = w.num_is;
      kept = w.kept;
      pipelines = w.pipelines;
      behind = λ i h. omega (arith, w.zorders i h);
      apart = λ i j h k e.
          o.distinct i j (omega arith) (omega arith) (omega (arith, w.zorders i h, w.zorders j k));
    }

pub none-HasClones : (s : Setup) → HasClones s 0 s
none-HasClones s = record {
  num_is = omega arith;
  kept = λ k h. (refl, refl);
  pipelines = λ i h. absurd (omega arith);
  behind = λ i h. absurd (omega arith);
  apart = λ i j h k e. absurd (omega arith);
}

-- A single overlay behind the others, on top of them.
pub one-HasClones :
    (s t : Setup)
    → t.num_ovls ≡ s.num_ovls + 1
    → ((k : ℕ) → k < s.num_ovls → Same (t.overlays k) (s.overlays k))
    → (t.overlays s.num_ovls).ix ≡ max_hw_overlays - 1
    → (t.overlays s.num_ovls).zorder ≡ s.num_ovls
    → HasClones s 1 t
one-HasClones s t num kept ix z =
    let first : (i : ℕ) → i < 1 → s.num_ovls + i ≡ s.num_ovls = λ i h. omega arith in
    record {
      num_is = num;
      kept = kept;
      pipelines = λ i h. ap (λ k. (t.overlays k).ix) (first i h) ∙ ix ∙ omega arith;
      behind = λ i h. let e = ap (λ k. (t.overlays k).zorder) (first i h) in omega arith;
      apart = λ i j h k e. omega arith;
    }
