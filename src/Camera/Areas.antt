-- ===== src/Camera/Areas.antt =====
-- The focus and metering areas that are given as a text, as in "(-10,-10,0,0,300),(0,0,10,10,700)":
-- m_bracketsStr2Ints and m_subBracketsStr2Ints of libcamera/ExynosCameraHWImpl.cpp. A text is its
-- characters up to the NUL; `atoi` is a parameter.
pub mod Valid
pub mod Accepted
pub mod Tests
use android_hardware_samsung.Common.{
  ℕ, zero, suc, ◌+◌, Bool, true, false, not, ◌&&◌, ◌||◌, Option, some, none, List, [], ◌∷◌, ◌++◌,
  map, drop, length, ltb, ◌==◌, if◌then◌else◌,
}
use android_hardware_samsung.Common.Int.{ℤ, pos, negsuc, ltb_ℤ}

-- One of `rect2s` with its weight, and what `tempArray` holds.
pub record Area : Type 0 where
  pub x1 : ℤ
  pub y1 : ℤ
  pub x2 : ℤ
  pub y2 : ℤ
  pub weight : ℤ

-- `strchr`
abbrev pub from : ℕ → List ℕ → Option (List ℕ)
from ch [] = none
from ch (x ∷ xs) = if x == ch then some (x ∷ xs) else from ch xs

abbrev pub cons_first : ℕ → Option (List ℕ × List ℕ) → Option (List ℕ × List ℕ)
cons_first x none = none
cons_first x (some (front, rest)) = some (x ∷ front, rest)

-- The text up to a character and with it, and the text from the character on.
abbrev pub up_to : ℕ → List ℕ → Option (List ℕ × List ℕ)
up_to ch [] = none
up_to ch (x ∷ xs) =
    let rest = up_to ch xs in if x == ch then some (x ∷ [], x ∷ xs) else cons_first x rest

-- The next '(' with the next ')' behind it.
unfoldable pub next_bracket : List ℕ → Option (List ℕ × List ℕ)
next_bracket text = elim (from 40 text) [ none ↦ none | some t ↦ up_to 41 t ]

-- A token ends, if there is one.
abbrev pub flush : List ℕ → List (List ℕ)
flush [] = []
flush (c ∷ cs) = (c ∷ cs) ∷ []

-- `strtok` with ",": the second argument is the token that has begun.
unfoldable pub tokens : List ℕ → List ℕ → List (List ℕ)
tokens [] token = flush token
tokens (x ∷ xs) token = if x == 44 then flush token ++ tokens xs [] else tokens xs (token ++ x ∷ [])

-- `m_subBracketsStr2Ints` of five numbers; the fifth may be missing, and keeps its place's content.
unfoldable pub sub_brackets_str2_ints : List ℤ → Area → Option Area
sub_brackets_str2_ints (a ∷ b ∷ c ∷ d ∷ e ∷ ns) old =
    some (record { x1 = a; y1 = b; x2 = c; y2 = d; weight = e })
sub_brackets_str2_ints (a ∷ b ∷ c ∷ d ∷ []) old =
    some (record { x1 = a; y1 = b; x2 = c; y2 = d; weight = old.weight })
sub_brackets_str2_ints _ old = none

abbrev pub is_zero : ℤ → Bool
is_zero (pos n) = n == 0
is_zero (negsuc n) = false

abbrev pub in_range : ℤ → Bool
in_range a = not (ltb_ℤ a (negsuc 999)) && not (ltb_ℤ (pos 1000) a)

-- All of the area is 0.
abbrev pub is_null_area : Area → Bool
is_null_area a =
    is_zero a.x1 && (is_zero a.y1 && (is_zero a.x2 && (is_zero a.y2 && is_zero a.weight)))

abbrev pub both_zero : ℤ → ℤ → Bool
both_zero a b = is_zero a && is_zero b

-- The chain of `else if`, of an area whose numbers are in range.
abbrev pub is_ordered : Area → Bool
is_ordered a =
    if is_null_area a
    then true
    else if is_zero a.weight
    then false
    else if not (both_zero a.x1 a.x2) && not (ltb_ℤ a.x1 a.x2)
    then false
    else if not (both_zero a.y1 a.y2) && not (ltb_ℤ a.y1 a.y2)
    then false
    else if not (both_zero a.x1 a.x2) && both_zero a.y1 a.y2
    then false
    else not (both_zero a.x1 a.x2 && not (both_zero a.y1 a.y2))

unfoldable pub is_valid_area : Area → Bool
is_valid_area a =
    (in_range a.x1 && (in_range a.y1 && (in_range a.x2 && in_range a.y2)))
    && ((not (ltb_ℤ a.weight (pos 0)) && not (ltb_ℤ (pos 1000) a.weight)) && is_ordered a)

-- By how much `validFocusedAreas` grows; `none` returns 0.
abbrev pub counted : Bool → Area → Option ℕ
counted true a = if is_valid_area a then some 1 else none
counted false a = some (if is_null_area a then 0 else 1)

-- What follows the loop.
abbrev pub finish : Bool → ℕ → ℕ → Bool → ℕ
finish mode num valid null_area =
    let n = if null_area && mode then num else valid in if n == 0 then 1 else n

-- A value, or what is done without one.
abbrev pub with_some {ℓ} :
    {A : Type ℓ}
    → Option A
    → Option (ℕ × List Area)
    → (A → Option (ℕ × List Area))
    → Option (ℕ × List Area)
with_some none stop k = stop
with_some (some a) stop k = k a

-- `none` is a write behind the 128 bytes of `buf`.
abbrev pub copied : List ℕ → Option (ℕ × List Area) → Option (ℕ × List Area)
copied bracket next = elim (ltb 127 (length bracket)) [ true ↦ none | false ↦ next ]

module _ (atoi : List ℕ → ℤ) (mode : Bool) (num : ℕ) where
  -- The rounds from `i` on: num - i, the variables of the loop, and what is written so far.
  unfoldable pub area_loop : ℕ → ℕ → Bool → Area → List Area → List ℕ → Option (ℕ × List Area)
  area_loop zero valid null_area old areas text =
      with_some (next_bracket text) (some (finish mode num valid null_area, areas))
        (λ b. some (0, areas))
  area_loop (suc n) valid null_area old areas text =
      with_some (next_bracket text) (some (finish mode num valid false, areas)) (λ b. copied b.0 (
        with_some (sub_brackets_str2_ints (map atoi (tokens (drop 1 b.0) [])) old)
          (some (finish mode num valid false, areas))
          (λ a. with_some (counted mode a) (some (0, areas ++ a ∷ [])) (λ k.
            area_loop n (valid + k) (null_area || (mode && is_null_area a)) a (areas ++ a ∷ [])
              b.1))))

  -- What is answered, and the areas that are written. `old` is what `tempArray` holds at first.
  unfoldable pub brackets_str2_ints : Area → List ℕ → Option (ℕ × List Area)
  brackets_str2_ints old text = area_loop num 0 false old [] text
