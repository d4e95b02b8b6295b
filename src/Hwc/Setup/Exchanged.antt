-- ===== src/Hwc/Setup/Exchanged.antt =====
-- hwc/hwc.c: the pipelines of the overlays when the loop of omap4_hwc_prepare has ended.
use camerahal.Common.{
  ℕ, ◌+◌, ◌≤◌, ◌<◌, ◌≡◌, ◌⊎◌, inl, inr, sym, ap, subst, ◌∙◌, Bool, true, false, Option, none, some,
  List, ◌==◌, if◌then◌else◌, Bool-cases, arith,
}
use camerahal.Hwc.{Layer, Device}
use camerahal.Hwc.Layers.{is_valid_format}
use camerahal.Hwc.Decide.{bit}
use camerahal.Hwc.Decide.Counting.{total, of_scaled}
use camerahal.Hwc.Setup.{Setup, initial_setup, setup_layers, with_gfx, with_fb, fb_at, finish_setup}
use camerahal.Hwc.Setup.Fields.{ix-setup_layer_base}
use camerahal.Hwc.Setup.Pipelines.{
  exchanged, HasPipelines, IsScaled, setup_layers-Runs, initial-Runs,
}

-- The pipelines behind the loop. Only without the GPU, and only if all layers with an overlay are
-- scaled (`count` counts those that are), the first one uses a pipeline of none of them.
pub record HasExchanged (dev : Device) (count m : ℕ) (s : Setup) : Type 0 where
  pub pipelines : (k : ℕ) → k < s.num_ovls → (s.overlays k).ix ≡ exchanged m k
  pub within : (m < s.num_ovls) ⊎ ((dev.use_sgx ≡ false) × (s.num_ovls ≤ count) × (m ≡ s.num_ovls))

cpu-HasExchanged :
    (dev : Device) (c m : ℕ) (s : Setup)
    → dev.use_sgx ≡ false
    → HasPipelines dev m s
    → IsScaled c s
    → (m' : ℕ) × HasExchanged dev c m' (with_gfx s)
unfolding with_gfx
cpu-HasExchanged dev c m s cpu w g = elim (Bool-cases s.scaled_gfx) [
  | inl e ↦ (
    s.num_ovls,
    record {
      pipelines = λ k h. ground (arith, w.pipelines k, w.scaled_first e, cpu);
      within = inr (cpu, ground (arith, g e), ground arith);
    },
  )
  | inr e ↦ (
    m,
    record {
      pipelines = λ k h. ground (arith, w.pipelines k, cpu);
      within = elim (Bool-cases (s.num_ovls == 0)) [
        | inl z ↦ inr (cpu, ground (arith, w.within), ground (arith, w.within))
        | inr z ↦ inl (ground (arith, w.within))
      ];
    },
  )
]

ix-fb_at :
    (dev : Device) (s : Setup) (f k : ℕ)
    → is_valid_format dev.fb_format ≡ true
    → ((fb_at dev s f).overlays k).ix ≡ (if 0 == k then 0 else (s.overlays k).ix)
unfolding fb_at
ix-fb_at dev s f k valid = ground (
  arith,
  ix-setup_layer_base (s.overlays 0) f dev.fb_format true dev.fb_width dev.fb_height valid,
)

fb_at-HasExchanged :
    (dev : Device) (c m : ℕ) (s : Setup) (f : ℕ)
    → is_valid_format dev.fb_format ≡ true
    → dev.use_sgx ≡ true
    → HasPipelines dev m s
    → HasExchanged dev c 0 (fb_at dev s f)
unfolding fb_at
fb_at-HasExchanged dev c m s f valid gpu w =
    let b : bit dev.use_sgx ≡ 1 = ap bit gpu in
    record {
      pipelines = λ k h. ix-fb_at dev s f k valid ∙ ground (arith, w.pipelines k, w.gpu gpu);
      within = inl (omega (arith, w.first));
    }

with_fb-HasExchanged :
    (dev : Device) (c m : ℕ) (s : Setup) (f : Option ℕ)
    → is_valid_format dev.fb_format ≡ true
    → dev.use_sgx ≡ true
    → HasPipelines dev m s
    → HasExchanged dev c 0 (with_fb dev s f)
unfolding with_fb
with_fb-HasExchanged dev c m s none valid gpu w =
    fb_at-HasExchanged dev c m (record s { z = s.z + 1 }) s.z valid gpu
      (record {
        first = w.first;
        gpu = w.gpu;
        unscaled = w.unscaled;
        within = w.within;
        scaled_first = w.scaled_first;
        pipelines = w.pipelines;
      })
with_fb-HasExchanged dev c m s (some f) valid gpu w = fb_at-HasExchanged dev c m s f valid gpu w

with_gfx_unscaled : (s : Setup) → s.scaled_gfx ≡ false → with_gfx s ≡ s
unfolding with_gfx
with_gfx_unscaled s e = ground (arith, e)

finish_setup-HasExchanged :
    (dev : Device) (c m : ℕ) (s : Setup)
    → is_valid_format dev.fb_format ≡ true
    → HasPipelines dev m s
    → IsScaled c s
    → (m' : ℕ) × HasExchanged dev c m' (finish_setup dev s)
unfolding finish_setup
finish_setup-HasExchanged dev c m s valid w g =
    let t = with_gfx s in
    let P : Bool → Type 0 =
      λ b. (m' : ℕ) × HasExchanged dev c m' (if b then with_fb dev t t.fb_z else t) in
    elim (Bool-cases dev.use_sgx) [
      | inl gpu ↦
          let w' : HasPipelines dev m t =
            subst (HasPipelines dev m) (sym (with_gfx_unscaled s (w.unscaled gpu))) w in
          subst P (sym gpu) (0, with_fb-HasExchanged dev c m t t.fb_z valid gpu w')
      | inr cpu ↦ subst P (sym cpu) (cpu-HasExchanged dev c m s cpu w g)
    ]

-- The overlays of any list of layers, with a frame buffer of a known format: each has the pipeline of
-- its own number, but for overlay 0 and one other that have exchanged theirs. Only without the GPU, and
-- only if all of them are scaled, overlay 0 takes the pipeline behind them instead.
pub setup_layers-HasExchanged :
    (dev : Device) (max : ℕ) (ls : List Layer)
    → is_valid_format dev.fb_format ≡ true
    → (m : ℕ) × HasExchanged dev
        (total dev of_scaled ls)
        m
        (finish_setup dev (setup_layers dev max (initial_setup dev) 0 ls).0)
setup_layers-HasExchanged dev max ls valid =
    let ((m, w), g) = setup_layers-Runs dev max 0 (initial_setup dev) 0 ls (initial-Runs dev) in
    finish_setup-HasExchanged dev (total dev of_scaled ls) m
      (setup_layers dev max (initial_setup dev) 0 ls).0 valid w (λ e. omega (arith, g e))
