-- ===== src/Camera/Areas/Tests.antt =====
-- Texts of areas.
use android_hardware_samsung.Common.{
  ℕ, ◌+◌, ◌-◌, ◌*◌, ◌≡◌, true, some, List, [], ◌∷◌, ltb, ◌==◌, if◌then◌else◌, refl,
}
use android_hardware_samsung.Common.Int.{ℤ, pos, negsuc}
use android_hardware_samsung.Camera.Areas.{
  Area, next_bracket, tokens, sub_brackets_str2_ints, is_valid_area, area_loop, brackets_str2_ints,
}
use android_hardware_samsung.Camera.Areas.Accepted.{IsAnswer, brackets_lem}

-- Decimal digits up to another character, behind a sign.
abbrev digits : ℕ → List ℕ → ℕ
digits n [] = n
digits n (c ∷ cs) =
    let rest = digits (10 * n + (c - 48)) cs in if ltb c 48 then n else if ltb 57 c then n else rest

abbrev negated : ℕ → ℤ
negated n = if n == 0 then pos 0 else negsuc (n - 1)

abbrev atoi : List ℕ → ℤ
atoi [] = pos 0
atoi (c ∷ cs) = if c == 45 then negated (digits 0 cs) else pos (digits 0 (c ∷ cs))

abbrev no_area : Area
no_area = record { x1 = pos 0; y1 = pos 0; x2 = pos 0; y2 = pos 0; weight = pos 0 }

-- "(-9,-8,10,0,30)"
abbrev text : List ℕ
text = 40 ∷ 45 ∷ 57 ∷ 44 ∷ 45 ∷ 56 ∷ 44 ∷ 49 ∷ 48 ∷ 44 ∷ 48 ∷ 44 ∷ 51 ∷ 48 ∷ 41 ∷ []

abbrev area : Area
area = record { x1 = negsuc 8; y1 = negsuc 7; x2 = pos 10; y2 = pos 0; weight = pos 30 }

one_read : brackets_str2_ints atoi true 2 no_area text ≡ some (1, area ∷ [])
unfolding brackets_str2_ints area_loop next_bracket tokens sub_brackets_str2_ints is_valid_area
one_read = refl

brackets_lem_example : IsAnswer 2 (brackets_str2_ints atoi true 2 no_area text)
brackets_lem_example = brackets_lem atoi 2 no_area text
