-- ===== src/Camera/Areas/Accepted.antt =====
-- What m_bracketsStr2Ints answers of areas that are checked.
use android_hardware_samsung.Common.{
  ℕ, zero, suc, ◌+◌, ◌≡◌, ◌≤◌, Bool, true, false, ◌||◌, Option, some, none, List, [], ◌∷◌, ◌++◌,
  map, drop, length, length-append, ltb, ◌==◌, if◌then◌else◌, refl, ◌∙◌, arith,
}
use android_hardware_samsung.Common.Int.{ℤ}
use android_hardware_samsung.Camera.Areas.{
  Area, next_bracket, tokens, sub_brackets_str2_ints, is_null_area, is_valid_area, counted, finish,
  with_some, copied, area_loop, brackets_str2_ints,
}
use android_hardware_samsung.Camera.Areas.Valid.{IsArea, valid-IsArea}

pub data AreAreas : List Area → Type 0 where
  no_areas : AreAreas []
  one_area : {a : Area} {rest : List Area} → IsArea a → AreAreas rest → AreAreas (a ∷ rest)

append-AreAreas :
    (areas : List Area) (a : Area) → AreAreas areas → IsArea a → AreAreas (areas ++ a ∷ [])
append-AreAreas [] a all i = one_area i no_areas
append-AreAreas (b ∷ areas) a (one_area j all) i = one_area j (append-AreAreas areas a all i)

-- Refused; or nothing was written, and one area is answered; or the areas that were written.
pub data IsAnswer (num : ℕ) : Option (ℕ × List Area) → Type 0 where
  overflow : IsAnswer num none
  refused : {areas : List Area} → IsAnswer num (some (0, areas))
  unwritten : IsAnswer num (some (1, []))
  accepted :
      {n : ℕ} {areas : List Area}
      → n ≡ length areas
      → n ≤ num
      → AreAreas areas
      → IsAnswer num (some (n, areas))

module _ (num : ℕ) where
  with_some-IsAnswer {ℓ} :
      {A : Type ℓ} (o : Option A) (stop : Option (ℕ × List Area)) (k : A → Option (ℕ × List Area))
      → IsAnswer num stop
      → ((a : A) → o ≡ some a → IsAnswer num (k a))
      → IsAnswer num (with_some o stop k)
  with_some-IsAnswer none stop k s f = s
  with_some-IsAnswer (some a) stop k s f = f a refl

  copied-IsAnswer :
      (bracket : List ℕ) (next : Option (ℕ × List Area))
      → IsAnswer num next
      → IsAnswer num (copied bracket next)
  copied-IsAnswer bracket next i = over (ltb 127 (length bracket))
    where
      over : (b : Bool) → IsAnswer num (elim b [ true ↦ none | false ↦ next ])
      over true = overflow
      over false = i

  finish_lem :
      (valid : ℕ) (null_area : Bool)
      → (null_area ≡ true → num ≡ valid)
      → finish true num valid null_area ≡ (if valid == 0 then 1 else valid)
  finish_lem valid true n = rw (n refl) refl
  finish_lem valid false n = refl

  finish-IsAnswer :
      (valid : ℕ) (null_area : Bool) (areas : List Area)
      → valid ≡ length areas
      → valid ≤ num
      → (null_area ≡ true → num ≡ valid)
      → AreAreas areas
      → IsAnswer num (some (finish true num valid null_area, areas))
  finish-IsAnswer valid null_area [] e l n all = rw (finish_lem valid null_area n, e) unwritten
  finish-IsAnswer valid null_area (a ∷ areas) e l n all =
      let positive : (if valid == 0 then 1 else valid) ≡ valid = ground arith in
      accepted (finish_lem valid null_area n ∙ (positive ∙ e))
        (omega (arith, finish_lem valid null_area n, positive)) all

  counted-IsAnswer :
      (a : Area) (k : ℕ) → counted true a ≡ some k → (k ≡ 1) × (is_valid_area a ≡ true)
  counted-IsAnswer a k e = ground arith

  loop-IsAnswer :
      (atoi : List ℕ → ℤ) (n valid : ℕ) (null_area : Bool) (old : Area) (areas : List Area)
      (text : List ℕ)
      → valid ≡ length areas
      → valid + n ≡ num
      → AreAreas areas
      → IsAnswer num (area_loop atoi true num n valid null_area old areas text)
  unfolding area_loop
  loop-IsAnswer atoi zero valid null_area old areas text e s all =
      with_some-IsAnswer (next_bracket text) _ _
        (finish-IsAnswer valid null_area areas e (omega arith) (λ z. omega arith) all)
        (λ b z. refused)
  loop-IsAnswer atoi (suc n) valid null_area old areas text e s all =
      with_some-IsAnswer (next_bracket text) _ _
        (finish-IsAnswer valid false areas e (omega arith) (λ z. cc) all)
        (λ b z. copied-IsAnswer b.0 _ (
          with_some-IsAnswer (sub_brackets_str2_ints (map atoi (tokens (drop 1 b.0) [])) old) _ _
            (finish-IsAnswer valid false areas e (omega arith) (λ z. cc) all)
            (λ a y. with_some-IsAnswer (counted true a) _ _ refused (λ k x.
              let (one, v) = counted-IsAnswer a k x in
              loop-IsAnswer atoi n (valid + k) (null_area || is_null_area a) a (areas ++ a ∷ []) b.1
                (omega (arith, one, length-append areas (a ∷ []))) (omega (arith, one))
                (append-AreAreas areas a all (valid-IsArea a v))))))

-- With areas to be checked, whatever the text and `atoi`: either the text is refused, or it has a
-- bracket that is longer than the buffer, or one area is answered and none is written, or the
-- answer is the number of the areas that are written, no more than there is room for, and each of
-- these is one: its numbers are in range, and its sides are in order or all of them are 0.
pub brackets_lem :
    (atoi : List ℕ → ℤ) (num : ℕ) (old : Area) (text : List ℕ)
    → IsAnswer num (brackets_str2_ints atoi true num old text)
unfolding brackets_str2_ints
brackets_lem atoi num old text =
    loop-IsAnswer num atoi num 0 false old [] text refl (omega arith) no_areas

-- A text without a bracket, given room for an area: one area is answered and none is written, so
-- that the caller reads what its memory held.
pub no_bracket_lem :
    (atoi : List ℕ → ℤ) (mode : Bool) (n : ℕ) (old : Area) (text : List ℕ)
    → next_bracket text ≡ none
    → brackets_str2_ints atoi mode (suc n) old text ≡ some (1, [])
unfolding brackets_str2_ints area_loop
no_bracket_lem atoi mode n old text e = rw e refl
