-- ===== src/Properties/Threaded/Writes.antt =====
-- What the assignments that hang a new node change, field by field.
use camerahal.Common.{ℕ, ◌≡◌, ◌≢◌, Bool, false, Option, none, some, arith, ◌==◌, if◌then◌else◌}
use camerahal.Properties.Memory.{Nodes}
use camerahal.Properties.Threaded.{link_right, link_left}

-- Whether a pointer points to a node.
abbrev pub points_to : Option ℕ → ℕ → Bool
points_to none j = false
points_to (some i) j = i == j

module _ (h : Nodes) (p n : ℕ) (apart : p ≢ n) (j : ℕ) where
  pub right-left : (link_right h p n j).left ≡ (h j).left
  unfolding link_right
  right-left = ground arith

  pub right-right : (link_right h p n j).right ≡ (if p == j then some n else (h j).right)
  unfolding link_right
  right-right = ground arith

  pub right-name : (link_right h p n j).name ≡ (h j).name
  unfolding link_right
  right-name = ground arith

  pub right-next :
      (link_right h p n j).next
      ≡ (if p == j then some n else if n == j then (h p).next else (h j).next)
  unfolding link_right
  right-next = ground arith

  pub right-previous :
      (link_right h p n j).previous
      ≡ (if points_to (h p).next j then some n else if n == j then some p else (h j).previous)
  unfolding link_right
  right-previous = ground arith

  pub left-left : (link_left h p n j).left ≡ (if p == j then some n else (h j).left)
  unfolding link_left
  left-left = ground arith

  pub left-right : (link_left h p n j).right ≡ (h j).right
  unfolding link_left
  left-right = ground arith

  pub left-name : (link_left h p n j).name ≡ (h j).name
  unfolding link_left
  left-name = ground arith

  pub left-previous :
      (link_left h p n j).previous
      ≡ (if p == j then some n else if n == j then (h p).previous else (h j).previous)
  unfolding link_left
  left-previous = ground arith

  pub left-next :
      (link_left h p n j).next
      ≡ (if points_to (h p).previous j then some n else if n == j then some p else (h j).next)
  unfolding link_left
  left-next = ground arith
