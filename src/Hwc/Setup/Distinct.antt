-- ===== src/Hwc/Setup/Distinct.antt =====
-- The z-orders of the internal overlays are distinct.
use camerahal.Common.{
  ℕ, zero, suc, ◌+◌, ◌≤◌, ◌<◌, ◌≡◌, inl, inr, refl, sym, ap, subst, ◌∙◌, Bool, true, false, Option,
  none, some, List, [], ◌∷◌, if◌then◌else◌, Bool-cases, arith,
}
use camerahal.Hwc.{Layer, Device}
use camerahal.Hwc.Decide.{bit}
use camerahal.Hwc.Setup.{Setup}
use camerahal.Hwc.Setup.Stacking.{AtMost, AtMost_suc, fb_place, placed_in, rank}
use camerahal.Hwc.Setup.Order.{or_top, position, HasOrder}

fb_place-AtMost :
    (placed : ℕ) (f : Option ℕ) (ls : List Layer)
    → AtMost f placed
    → AtMost (fb_place placed f ls) (placed + placed_in ls)
fb_place-AtMost placed f [] h =
    let same : placed ≡ placed + 0 = omega arith in subst (AtMost f) same h
fb_place-AtMost placed f (l ∷ ls) h =
    let b = bit l.is_overlay in
    let f' = if l.is_overlay then f else some placed in
    let h' : AtMost f' (placed + b) = elim (Bool-cases l.is_overlay) [
      | inl e ↦ rw e (AtMost_suc f placed h)
      | inr e ↦ rw e (omega arith)
    ] in
    let same : placed + b + placed_in ls ≡ placed + (b + placed_in ls) = omega arith in
    subst (AtMost (fb_place (placed + b) f' ls)) same (fb_place-AtMost (placed + b) f' ls h')

position-le : (ls : List Layer) → position ls ≤ placed_in ls
position-le ls = at_most (fb_place 0 none ls) (fb_place-AtMost 0 none ls tt)
  where
    at_most : (f : Option ℕ) → AtMost f (0 + placed_in ls) → or_top f (placed_in ls) ≤ placed_in ls
    at_most none h = omega arith
    at_most (some f) h = omega arith

-- The z-orders of the internal overlays.
pub record IsOrdered (s : Setup) : Type 0 where
  pub below : (k : ℕ) → k < s.num_ovls → (s.overlays k).zorder < s.num_ovls
  pub distinct :
      (i j : ℕ)
      → i < s.num_ovls
      → j < s.num_ovls
      → (s.overlays i).zorder ≡ (s.overlays j).zorder
      → i ≡ j

-- The z-order of overlay k in terms of the place of the frame buffer.
abbrev zorder_at : Bool → ℕ → ℕ → ℕ
zorder_at true p zero = p
zorder_at true p (suc k) = rank (some p) k
zorder_at false p k = k

zorder_at-below :
    (gpu : Bool) (p n k : ℕ) → p ≤ n → k < bit gpu + n → zorder_at gpu p k < bit gpu + n
zorder_at-below true p n zero h l = omega arith
zorder_at-below true p n (suc k) h l = ground arith
zorder_at-below false p n k h l = l

zorder_at-injective : (gpu : Bool) (p i j : ℕ) → zorder_at gpu p i ≡ zorder_at gpu p j → i ≡ j
zorder_at-injective true p zero zero e = refl
zorder_at-injective true p zero (suc j) e = absurd (ground arith)
zorder_at-injective true p (suc i) zero e = absurd (ground arith)
zorder_at-injective true p (suc i) (suc j) e = ground arith
zorder_at-injective false p i j e = e

zorder-zorder_at :
    (dev : Device) (ls : List Layer) (s : Setup) (gpu : Bool)
    → HasOrder dev ls s
    → dev.use_sgx ≡ gpu
    → (k : ℕ) → k < s.num_ovls
    → (s.overlays k).zorder ≡ zorder_at gpu (position ls) k
zorder-zorder_at dev ls s false w cpu k h =
    let counted = w.counted in
    let b : bit dev.use_sgx ≡ 0 = ap bit cpu in
    let same : bit dev.use_sgx + k ≡ k = omega arith in
    ap (λ i. (s.overlays i).zorder) (sym same)
    ∙ w.layers k (omega arith)
    ∙ ap (λ g. rank (if g then some (position ls) else none) k) cpu
zorder-zorder_at dev ls s true w gpu zero h = w.frame_buffer gpu
zorder-zorder_at dev ls s true w gpu (suc k) h =
    let counted = w.counted in
    let b : bit dev.use_sgx ≡ 1 = ap bit gpu in
    let same : bit dev.use_sgx + k ≡ suc k = omega arith in
    ap (λ i. (s.overlays i).zorder) (sym same)
    ∙ w.layers k (omega arith)
    ∙ ap (λ g. rank (if g then some (position ls) else none) k) gpu

pub HasOrder-IsOrdered :
    (dev : Device) (ls : List Layer) (s : Setup) → HasOrder dev ls s → IsOrdered s
HasOrder-IsOrdered dev ls s w =
    let counted = w.counted in
    let p = position ls in
    let gpu = dev.use_sgx in
    record {
      below = λ k h.
          let z = zorder-zorder_at dev ls s gpu w refl k h in
          let b = zorder_at-below gpu p (placed_in ls) k (position-le ls) (omega arith) in
          omega arith;
      distinct = λ i j h k e. zorder_at-injective gpu p i j (
          sym (zorder-zorder_at dev ls s gpu w refl i h)
          ∙ e
          ∙ zorder-zorder_at dev ls s gpu w refl j k);
    }
