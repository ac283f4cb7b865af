-- ===== src/Camera/Fps/Choice.antt =====
-- Which range `m_getSupportedVariableFpsList` chooses.
use android_hardware_samsung.Common.{
  ℕ, ◌≤◌, ◌≡◌, ◌⊎◌, inl, inr, Bool, true, false, not, ◌&&◌, Option, some, none, List, [], ◌∷◌, ltb,
  ◌==◌, if◌then◌else◌, Bool-cases, refl, ap, ◌∙◌, arith,
}
use android_hardware_samsung.Camera.Fps.{
  Range, fps_range_list, similar_loop, wider_loop, or_wider, get_supported_variable_fps_list,
}

abbrev pub same_range : Range → Range → Bool
same_range a b = a.low == b.low && a.high == b.high

abbrev pub has_range : Range → List Range → Bool
has_range r [] = false
has_range r (s ∷ ss) = if same_range s r then true else has_range r ss

-- The range is listed and reaches as far as the wanted one.
pub record IsChoice (want r : Range) : Type 0 where
  pub listed : has_range r fps_range_list ≡ true
  pub reaches : want.high ≤ r.high

similar_exact :
    (want : Range) (rs : List Range) (found : Option Range)
    → has_range want rs ≡ true
    → similar_loop want rs found ≡ some want
unfolding similar_loop
similar_exact want [] found h = cc
similar_exact want (r ∷ rs) found h =
    ground (arith, similar_exact want rs found, similar_exact want rs (some r))

-- A wanted range that is listed is chosen as it is.
pub listed_chosen :
    (want : Range)
    → has_range want fps_range_list ≡ true
    → get_supported_variable_fps_list want ≡ some want
unfolding get_supported_variable_fps_list
listed_chosen want h = ap (or_wider want) (similar_exact want fps_range_list none h)

similar_from :
    (want r : Range) (rs : List Range) (found : Option Range)
    → similar_loop want rs found ≡ some r
    → (found ≡ some r) ⊎ ((has_range r rs ≡ true) × (r.high ≡ want.high))
unfolding similar_loop
similar_from want r [] found e = inl e
similar_from want r (s ∷ rs) found e =
    ground (arith, similar_from want r rs found, similar_from want r rs (some s))

wider_from :
    (want r : Range) (rs : List Range)
    → wider_loop want rs ≡ some r
    → (has_range r rs ≡ true) × (want.high ≤ r.high)
unfolding wider_loop
wider_from want r [] e = cc
wider_from want r (s ∷ rs) e = ground (arith, wider_from want r rs)

-- Some range of the list reaches up to `n`, and is not a single rate.
abbrev reaching : ℕ → List Range → Bool
reaching n [] = false
reaching n (r ∷ rs) = if not (ltb r.high n) && not (r.high == r.low) then true else reaching n rs

wider_found :
    (want : Range) (rs : List Range)
    → reaching want.high rs ≡ true
    → ((r : Range) × (wider_loop want rs ≡ some r))
unfolding wider_loop
wider_found want [] h = cc
wider_found want (r ∷ rs) h =
    elim (Bool-cases (not (ltb r.high want.high) && not (r.high == r.low))) [
      | inl y ↦ (r, rw y refl)
      | inr n ↦ let (s, e) = wider_found want rs (later n h) in (s, rw n e)
    ]
  where
    later :
        (not (ltb r.high want.high) && not (r.high == r.low)) ≡ false
        → reaching want.high (r ∷ rs) ≡ true
        → reaching want.high rs ≡ true
    later n h = ground arith

list_reaching : (n : ℕ) → n ≤ 60000 → reaching n fps_range_list ≡ true
list_reaching n h = ground arith

-- Every wanted range whose end is at most 60000 gets a range of the list, and one that reaches at
-- least as far.
pub some_range-IsChoice :
    (want : Range)
    → want.high ≤ 60000
    → ((r : Range) × (get_supported_variable_fps_list want ≡ some r) × IsChoice want r)
unfolding get_supported_variable_fps_list
some_range-IsChoice want h = go (similar_loop want fps_range_list none) refl
  where
    choice :
        (r : Range)
        → (none ≡ some r) ⊎ ((has_range r fps_range_list ≡ true) × (r.high ≡ want.high))
        → IsChoice want r
    choice r (inl e) = cc
    choice r (inr (l, e)) = record { listed = l; reaches = omega arith }

    go :
        (o : Option Range)
        → similar_loop want fps_range_list none ≡ o
        → ((r : Range) × (or_wider want (similar_loop want fps_range_list none) ≡ some r)
            × IsChoice want r)
    go none e =
        let (r, w) = wider_found want fps_range_list (list_reaching want.high h) in
        let (l, k) = wider_from want r fps_range_list w in
        (r, ap (or_wider want) e ∙ w, record { listed = l; reaches = k })
    go (some r) e = (r, ap (or_wider want) e, choice r (similar_from want r fps_range_list none e))
