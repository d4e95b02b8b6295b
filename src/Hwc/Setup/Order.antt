-- ===== src/Hwc/Setup/Order.antt =====
-- The order in which the overlays and the frame buffer lie on the internal display.
use camerahal.Common.{
  ℕ, ◌+◌, ◌<◌, ◌≡◌, inl, inr, refl, sym, ap, subst, ◌∙◌, Bool, true, false, Option, none, some,
  List, [], ◌∷◌, ◌==◌, if◌then◌else◌, Bool-cases, arith,
}
use camerahal.Hwc.{Layer, Device}
use camerahal.Hwc.Layers.{is_valid_format}
use camerahal.Hwc.Decide.{bit, reset_composition}
use camerahal.Hwc.Setup.{Setup, initial_setup, setup_layers, with_gfx, with_fb, fb_at, finish_setup}
use camerahal.Hwc.Setup.Fields.{zorder-setup_layer_base}
use camerahal.Hwc.Setup.Stacking.{
  fb_place, placed_in, rank, place_of, IsReset, IsStacked, loop-IsStacked,
}

abbrev pub or_top : Option ℕ → ℕ → ℕ
or_top none n = n
or_top (some f) n = f

-- The place of the frame buffer: behind the overlays of the layers before the last one that the GPU
-- draws, on top of all if it draws none.
abbrev pub position : List Layer → ℕ
position ls = or_top (fb_place 0 none ls) (placed_in ls)

-- The frame buffer is overlay 0 if the GPU is used; the overlays of the layers follow in the order of the
-- layers, and their z-orders leave out that of the frame buffer.
pub record HasOrder (dev : Device) (ls : List Layer) (s : Setup) : Type 0 where
  pub counted : s.num_ovls ≡ bit dev.use_sgx + placed_in ls
  pub used : s.z ≡ s.num_ovls
  pub frame_buffer : dev.use_sgx ≡ true → (s.overlays 0).zorder ≡ position ls
  pub layers :
      (k : ℕ)
      → k < placed_in ls
      → (s.overlays (bit dev.use_sgx + k)).zorder
        ≡ rank (if dev.use_sgx then some (position ls) else none) k

with_gfx-IsStacked :
    (dev : Device) (placed : ℕ) (g : Option ℕ) (s : Setup)
    → IsStacked dev placed g s
    → IsStacked dev placed g (with_gfx s)
unfolding with_gfx
with_gfx-IsStacked dev placed g s w = record {
  at = ground (arith, w.at);
  counted = ground (arith, w.counted);
  topped = ground (arith, w.topped);
  within = w.within;
  no_fb = w.no_fb;
  ranked = λ k h. ground (arith, w.ranked k h);
}

-- The frame buffer is set up as overlay 0, and the others stay.
zorder-fb_at :
    (dev : Device) (s : Setup) (f k : ℕ)
    → is_valid_format dev.fb_format ≡ true
    → ((fb_at dev s f).overlays k).zorder ≡ (if 0 == k then f else (s.overlays k).zorder)
unfolding fb_at
zorder-fb_at dev s f k valid = ground (
  arith,
  zorder-setup_layer_base (s.overlays 0) f dev.fb_format true dev.fb_width dev.fb_height valid,
)

rank_top : (n k : ℕ) → k < n → k ≡ rank (some n) k
rank_top n k h = ground arith

module _ (dev : Device) (ls : List Layer) where
  fb_at-HasOrder :
      (s : Setup) (f : ℕ)
      → position ls ≡ f
      → dev.use_sgx ≡ true
      → is_valid_format dev.fb_format ≡ true
      → s.num_ovls ≡ bit dev.use_sgx + placed_in ls
      → s.z ≡ s.num_ovls
      → ((k : ℕ) → k < placed_in ls → (s.overlays (bit dev.use_sgx + k)).zorder ≡ rank (some f) k)
      → HasOrder dev ls (fb_at dev s f)
  unfolding fb_at
  fb_at-HasOrder s f e gpu valid counted used ranked =
      let b : bit dev.use_sgx ≡ 1 = ap bit gpu in
      record {
        counted = counted;
        used = used;
        frame_buffer = λ g. zorder-fb_at dev s f 0 valid ∙ sym e;
        layers = λ k h.
            let apart : (0 == bit dev.use_sgx + k) ≡ false = ground arith in
            zorder-fb_at dev s f (bit dev.use_sgx + k) valid
            ∙ rw apart (ranked k h ∙ rw (gpu, e) refl);
      }

  gpu-HasOrder :
      (s : Setup) (g : Option ℕ)
      → fb_place 0 none ls ≡ g
      → dev.use_sgx ≡ true
      → is_valid_format dev.fb_format ≡ true
      → IsStacked dev (placed_in ls) g s
      → HasOrder dev ls (with_fb dev s g)
  unfolding with_fb
  gpu-HasOrder s none e gpu valid w =
      let counted = w.counted in
      let topped = w.topped in
      let b : bit dev.use_sgx ≡ 1 = ap bit gpu in
      let z_is : s.z ≡ placed_in ls = omega arith in
      fb_at-HasOrder (record s { z = s.z + 1 }) s.z (ap (λ g. or_top g (placed_in ls)) e ∙ sym z_is)
        gpu valid counted (omega arith) (λ k h. w.ranked k h ∙ rank_top s.z k (omega arith))
  gpu-HasOrder s (some f) e gpu valid w =
      let counted = w.counted in
      let topped = w.topped in
      let b : bit dev.use_sgx ≡ 1 = ap bit gpu in
      fb_at-HasOrder s f (ap (λ g. or_top g (placed_in ls)) e) gpu valid counted (omega arith)
        w.ranked

  cpu-HasOrder :
      (s : Setup) → dev.use_sgx ≡ false → IsStacked dev (placed_in ls) none s → HasOrder dev ls s
  cpu-HasOrder s cpu w =
      let counted = w.counted in
      let topped = w.topped in
      let b : bit dev.use_sgx ≡ 0 = ap bit cpu in
      record {
        counted = counted;
        used = omega arith;
        frame_buffer = λ g. cc;
        layers = λ k h. w.ranked k h ∙ rw cpu refl;
      }

  finish_setup-HasOrder :
      (s : Setup)
      → is_valid_format dev.fb_format ≡ true
      → IsStacked dev (placed_in ls) (place_of dev.use_sgx (fb_place 0 none ls)) s
      → HasOrder dev ls (finish_setup dev s)
  unfolding finish_setup
  finish_setup-HasOrder s valid w =
      let p = placed_in ls in
      let g = fb_place 0 none ls in
      let t = with_gfx s in
      let P : Bool → Type 0 = λ b. HasOrder dev ls (if b then with_fb dev t t.fb_z else t) in
      elim (Bool-cases dev.use_sgx) [
        | inl gpu ↦
            let w' : IsStacked dev p g t =
              with_gfx-IsStacked dev p g s (subst (λ b. IsStacked dev p (place_of b g) s) gpu w) in
            subst P (sym gpu) (
              subst (λ h. HasOrder dev ls (with_fb dev t h)) (sym w'.at)
                (gpu-HasOrder t g refl gpu valid w'))
        | inr cpu ↦
            let w' : IsStacked dev p none t =
              with_gfx-IsStacked dev p none s
                (subst (λ b. IsStacked dev p (place_of b g) s) cpu w) in
            subst P (sym cpu) (cpu-HasOrder t cpu w')
      ]

pub reset_composition-IsReset : (ls : List Layer) → IsReset (reset_composition ls)
reset_composition-IsReset [] = tt
reset_composition-IsReset (l ∷ ls) = (refl, reset_composition-IsReset ls)

initial-IsStacked : (dev : Device) → IsStacked dev 0 (place_of dev.use_sgx none) (initial_setup dev)
initial-IsStacked dev = record {
  at = ground arith;
  counted = omega arith;
  topped = ground arith;
  within = elim (Bool-cases dev.use_sgx) [ inl e ↦ rw e tt | inr e ↦ rw e tt ];
  no_fb = λ e. rw e refl;
  ranked = λ k h. absurd (omega arith);
}

-- The overlays of any list of layers, with a frame buffer of a known format: the frame buffer stands
-- behind the overlays of the layers before the last one that the GPU draws, and below the others (on
-- top if the GPU draws no layer); the overlays keep the order of the layers, and the z-orders that are
-- used are as many as the overlays.
pub setup_layers-HasOrder :
    (dev : Device) (max : ℕ) (layers : List Layer)
    → is_valid_format dev.fb_format ≡ true
    → HasOrder dev
        (setup_layers dev max (initial_setup dev) 0 (reset_composition layers)).1
        (finish_setup dev (setup_layers dev max (initial_setup dev) 0 (reset_composition layers)).0)
setup_layers-HasOrder dev max layers valid =
    let ls = reset_composition layers in
    let r = setup_layers dev max (initial_setup dev) 0 ls in
    let w =
      loop-IsStacked dev max 0 none (initial_setup dev) 0 ls (initial-IsStacked dev)
        (reset_composition-IsReset layers) in
    let same : 0 + placed_in r.1 ≡ placed_in r.1 = omega arith in
    finish_setup-HasOrder dev r.1 r.0 valid
      (subst (λ n. IsStacked dev n (place_of dev.use_sgx (fb_place 0 none r.1)) r.0) same w)
