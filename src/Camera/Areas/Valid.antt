-- ===== src/Camera/Areas/Valid.antt =====
-- The areas that a caller of m_bracketsStr2Ints uses.
use android_hardware_samsung.Common.{
  ◌≡◌, ◌≢◌, Bool, true, false, not, ◌&&◌, if◌then◌else◌, inl, inr, ◌⊎◌, refl, arith,
}
use android_hardware_samsung.Common.Int.{ℤ, pos, negsuc, ltb_ℤ, ◌≤ℤ◌}
use android_hardware_samsung.Camera.Areas.{
  Area, is_zero, in_range, is_null_area, both_zero, is_ordered, is_valid_area,
}

-- What the framework asks of an area: numbers in range, and either a rectangle with a positive
-- weight, or the weight of no rectangle, or nothing at all.
pub record IsArea (a : Area) : Type 0 where
  pub left : (negsuc 999 ≤ℤ a.x1) × (a.x1 ≤ℤ pos 1000)
  pub top : (negsuc 999 ≤ℤ a.y1) × (a.y1 ≤ℤ pos 1000)
  pub right : (negsuc 999 ≤ℤ a.x2) × (a.x2 ≤ℤ pos 1000)
  pub bottom : (negsuc 999 ≤ℤ a.y2) × (a.y2 ≤ℤ pos 1000)
  pub weighed : (pos 0 ≤ℤ a.weight) × (a.weight ≤ℤ pos 1000)
  pub shape :
      ((ltb_ℤ a.x1 a.x2 ≡ true) × (ltb_ℤ a.y1 a.y2 ≡ true))
      ⊎ ((a.x1 ≡ pos 0) × (a.y1 ≡ pos 0) × (a.x2 ≡ pos 0) × (a.y2 ≡ pos 0))

ranged : (a : ℤ) → in_range a ≡ true → (negsuc 999 ≤ℤ a) × (a ≤ℤ pos 1000)
ranged (pos n) e = ground arith
ranged (negsuc n) e = ground arith

weighed_range :
    (a : ℤ)
    → (not (ltb_ℤ a (pos 0)) && not (ltb_ℤ (pos 1000) a)) ≡ true
    → (pos 0 ≤ℤ a) × (a ≤ℤ pos 1000)
weighed_range (pos n) e = ground arith
weighed_range (negsuc n) e = ground arith

zero_only : (a : ℤ) → is_zero a ≡ true → a ≡ pos 0
zero_only (pos n) e = ground arith
zero_only (negsuc n) e = cc

and_left : (p q : Bool) → (p && q) ≡ true → p ≡ true
and_left true q e = refl
and_left false q e = e

and_right : (p q : Bool) → (p && q) ≡ true → q ≡ true
and_right true q e = e
and_right false q e = absurd (false_true e)
  where
    false_true : false ≢ true
    false_true e = cc

-- The chain of `else if`, with its tests as Booleans: the area is null, its weight is 0, its sides
-- are 0, and they are in order.
ordered_cases :
    (null weightless flat_x flat_y less_x less_y : Bool)
    → (null ≡ true → (flat_x && flat_y) ≡ true)
    → (if null
        then true
        else if weightless
        then false
        else if not flat_x && not less_x
        then false
        else if not flat_y && not less_y
        then false
        else if not flat_x && flat_y
        then false
        else not (flat_x && not flat_y))
      ≡ true
    → ((less_x ≡ true) × (less_y ≡ true)) ⊎ ((flat_x && flat_y) ≡ true)
ordered_cases true w fx fy lx ly n e = inr (n refl)
ordered_cases false w true true lx ly n e = inr refl
ordered_cases false w true false lx ly n e = ground arith
ordered_cases false w false true lx ly n e = ground arith
ordered_cases false w false false lx ly n e = ground arith

null_flat : (a : Area) → is_null_area a ≡ true → (both_zero a.x1 a.x2 && both_zero a.y1 a.y2) ≡ true
null_flat a e =
    flat (is_zero a.x1) (is_zero a.y1) (is_zero a.x2) (is_zero a.y2) (is_zero a.weight) e
  where
    flat : (p q r s t : Bool) → (p && (q && (r && (s && t)))) ≡ true → ((p && r) && (q && s)) ≡ true
    flat p q r s t e = ground arith

valid_shape :
    (a : Area)
    → is_ordered a ≡ true
    → ((ltb_ℤ a.x1 a.x2 ≡ true) × (ltb_ℤ a.y1 a.y2 ≡ true))
      ⊎ ((a.x1 ≡ pos 0) × (a.y1 ≡ pos 0) × (a.x2 ≡ pos 0) × (a.y2 ≡ pos 0))
valid_shape a v =
    elim (ordered_cases (is_null_area a) (is_zero a.weight) (both_zero a.x1 a.x2)
      (both_zero a.y1 a.y2) (ltb_ℤ a.x1 a.x2) (ltb_ℤ a.y1 a.y2) (null_flat a) v) [
        | inl less ↦ inl less
        | inr flat ↦
            let x = and_left (both_zero a.x1 a.x2) (both_zero a.y1 a.y2) flat in
            let y = and_right (both_zero a.x1 a.x2) (both_zero a.y1 a.y2) flat in
            inr (
              zero_only a.x1 (and_left (is_zero a.x1) (is_zero a.x2) x),
              zero_only a.y1 (and_left (is_zero a.y1) (is_zero a.y2) y),
              zero_only a.x2 (and_right (is_zero a.x1) (is_zero a.x2) x),
              zero_only a.y2 (and_right (is_zero a.y1) (is_zero a.y2) y),
            )
      ]

pub valid-IsArea : (a : Area) → is_valid_area a ≡ true → IsArea a
unfolding is_valid_area
valid-IsArea a v =
    let sides = in_range a.x1 && (in_range a.y1 && (in_range a.x2 && in_range a.y2)) in
    let weight = not (ltb_ℤ a.weight (pos 0)) && not (ltb_ℤ (pos 1000) a.weight) in
    let inside = and_left sides (weight && is_ordered a) v in
    let rest = and_right sides (weight && is_ordered a) v in
    let tail1 =
      and_right (in_range a.x1) (in_range a.y1 && (in_range a.x2 && in_range a.y2)) inside in
    let tail2 = and_right (in_range a.y1) (in_range a.x2 && in_range a.y2) tail1 in
    record {
      left =
          ranged a.x1
            (and_left (in_range a.x1) (in_range a.y1 && (in_range a.x2 && in_range a.y2)) inside);
      top = ranged a.y1 (and_left (in_range a.y1) (in_range a.x2 && in_range a.y2) tail1);
      right = ranged a.x2 (and_left (in_range a.x2) (in_range a.y2) tail2);
      bottom = ranged a.y2 (and_right (in_range a.x2) (in_range a.y2) tail2);
      weighed = weighed_range a.weight (and_left weight (is_ordered a) rest);
      shape = valid_shape a (and_right weight (is_ordered a) rest);
    }
