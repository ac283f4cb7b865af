-- ===== src/Daemon/Registry/Distinct.antt =====
-- The names of the registry's files, compared.
use android_hardware_samsung.Common.{
  ℕ, zero, suc, ◌*◌, ◌/◌, ◌%◌, ◌^◌, ◌<◌, ◌≡◌, true, List, [], ◌∷◌, ◌++◌, length, length-append,
  refl, ap, sym, ◌∙◌, arith,
}
use android_hardware_samsung.Daemon.Registry.Bytes.{same_bytes}
use android_hardware_samsung.Daemon.Registry.Names.{
  upper_digit, lower_digit, digits, uint32_to_string, byte_array_to_string, sp_cont_ext,
  tl_cont_ext, Place, FilePath, same_place, same_path, root_cont_file_path, sp_cont_file_path,
  tl_cont_file_path,
}

abbrev pub head_or : ℕ → List ℕ → ℕ
head_or d [] = d
head_or d (x ∷ xs) = x

abbrev pub tail : List ℕ → List ℕ
tail [] = []
tail (x ∷ xs) = xs

∷-heads : (x y : ℕ) (xs ys : List ℕ) → (x ∷ xs) ≡ (y ∷ ys) → (x ≡ y) × (xs ≡ ys)
∷-heads x y xs ys e = (ap (head_or 0) e, ap tail e)

upper_digit_inj : (a b : ℕ) → a < 16 → b < 16 → upper_digit a ≡ upper_digit b → a ≡ b
upper_digit_inj a b p q e = ground arith

lower_digit_inj : (a b : ℕ) → a < 16 → b < 16 → lower_digit a ≡ lower_digit b → a ≡ b
lower_digit_inj a b p q e = ground arith

abbrev bound : ℕ → ℕ
bound zero = 1
bound (suc n) = 16 * bound n

-- Numbers of `n` digits that begin two equal names are equal, and so is what follows.
digits_inj :
    (n a b : ℕ) (xs ys : List ℕ)
    → digits n a ++ xs ≡ digits n b ++ ys
    → a < bound n
    → b < bound n
    → (a ≡ b) × (xs ≡ ys)
digits_inj zero a b xs ys e p q = (omega arith, e)
digits_inj (suc n) a b xs ys e p q =
    let h = ∷-heads _ _ _ _ e in
    let low = upper_digit_inj (a % 16) (b % 16) (omega arith) (omega arith) h.0 in
    let r = digits_inj n (a / 16) (b / 16) xs ys h.1 (omega arith) (omega arith) in
    (omega arith, r.1)

uint32_to_string_inj :
    (a b : ℕ) (xs ys : List ℕ)
    → uint32_to_string a ++ xs ≡ uint32_to_string b ++ ys
    → a < 2 ^ 32
    → b < 2 ^ 32
    → a ≡ b
unfolding uint32_to_string
uint32_to_string_inj a b xs ys e p q = (digits_inj 8 a b xs ys e (omega arith) (omega arith)).0

-- Bytes, as many as a UUID has or more.
abbrev pub All256 : List ℕ → Type 0
All256 [] = Unit {0}
All256 (b ∷ bs) = (b < 256) × All256 bs

byte_array_to_string_inj :
    (us vs xs ys : List ℕ)
    → length us ≡ length vs
    → All256 us
    → All256 vs
    → byte_array_to_string us ++ xs ≡ byte_array_to_string vs ++ ys
    → (us ≡ vs) × (xs ≡ ys)
unfolding byte_array_to_string
byte_array_to_string_inj [] [] xs ys l p q e = (refl, e)
byte_array_to_string_inj [] (v ∷ vs) xs ys l p q e = absurd (omega arith)
byte_array_to_string_inj (u ∷ us) [] xs ys l p q e = absurd (omega arith)
byte_array_to_string_inj (u ∷ us) (v ∷ vs) xs ys l p q e =
    let h = ∷-heads _ _ _ _ e in
    let k = ∷-heads _ _ _ _ h.1 in
    let high = lower_digit_inj (u / 16) (v / 16) (omega arith) (omega arith) h.0 in
    let low = lower_digit_inj (u % 16) (v % 16) (omega arith) (omega arith) k.0 in
    let r = byte_array_to_string_inj us vs xs ys (omega arith) p.1 q.1 k.1 in
    let same : u ≡ v = omega arith in (ap (λ x. x ∷ us) same ∙ ap (λ l. v ∷ l) r.0, r.1)

length-digits : (n a : ℕ) → length (digits n a) ≡ n
length-digits zero a = refl
length-digits (suc n) a = ap suc (length-digits n (a / 16))

length-byte_array_to_string : (bs : List ℕ) → length (byte_array_to_string bs) ≡ 2 * length bs
unfolding byte_array_to_string
length-byte_array_to_string [] = refl
length-byte_array_to_string (b ∷ bs) = omega (arith, length-byte_array_to_string bs)

-- The containers of the registry.
pub data Container : Type 0 where
  root : Container
  sp : ℕ → Container
  tl : List ℕ → ℕ → Container

abbrev pub path_of : Container → FilePath
path_of root = root_cont_file_path
path_of (sp spid) = sp_cont_file_path spid
path_of (tl uuid spid) = tl_cont_file_path uuid spid

-- A container's id as the structures can hold it.
abbrev pub IsId : Container → Type 0
IsId root = Unit {0}
IsId (sp spid) = spid < 2 ^ 32
IsId (tl uuid spid) = (length uuid ≡ 16) × All256 uuid × (spid < 2 ^ 32)

length-sp : (spid : ℕ) → length (sp_cont_file_path spid).name ≡ 15
unfolding sp_cont_file_path uint32_to_string
length-sp spid = omega (arith, length-append (digits 8 spid) sp_cont_ext, length-digits 8 spid)

length-tl :
    (uuid : List ℕ) (spid : ℕ) → length uuid ≡ 16 → length (tl_cont_file_path uuid spid).name ≡ 48
unfolding tl_cont_file_path uint32_to_string
length-tl uuid spid h = omega (
  arith,
  length-append (byte_array_to_string uuid) (b'.' ∷ (digits 8 spid ++ tl_cont_ext)),
  length-append (digits 8 spid) tl_cont_ext,
  length-digits 8 spid,
  length-byte_array_to_string uuid,
)

names : {p q : FilePath} → p ≡ q → length p.name ≡ length q.name
names e = ap (λ (p : FilePath). length p.name) e

-- Different containers have different files.
pub path_of_inj : (c d : Container) → IsId c → IsId d → path_of c ≡ path_of d → c ≡ d
unfolding root_cont_file_path sp_cont_file_path tl_cont_file_path
path_of_inj root root h k e = refl
path_of_inj root (sp n) h k e = absurd (omega (arith, names e, length-sp n))
path_of_inj root (tl u n) h k e = absurd (omega (arith, names e, length-tl u n k.0))
path_of_inj (sp m) root h k e = absurd (omega (arith, names e, length-sp m))
path_of_inj (sp m) (sp n) h k e =
    ap sp (uint32_to_string_inj m n _ _ (ap (λ (p : FilePath). p.name) e) h k)
path_of_inj (sp m) (tl u n) h k e = absurd (omega (arith, names e, length-sp m, length-tl u n k.0))
path_of_inj (tl u m) root h k e = absurd (omega (arith, names e, length-tl u m h.0))
path_of_inj (tl u m) (sp n) h k e = absurd (omega (arith, names e, length-sp n, length-tl u m h.0))
path_of_inj (tl u m) (tl v n) h k e =
    let r =
      byte_array_to_string_inj u v _ _ (h.0 ∙ sym k.0) h.1 k.1 (ap (λ (p : FilePath). p.name) e) in
    let s = uint32_to_string_inj m n _ _ (∷-heads _ _ _ _ r.1).1 h.2 k.2 in
    ap (λ x. tl x m) r.0 ∙ ap (tl v) s

same_bytes-eq : (xs ys : List ℕ) → same_bytes xs ys ≡ true → xs ≡ ys
same_bytes-eq [] [] e = refl
same_bytes-eq [] (y ∷ ys) e = cc
same_bytes-eq (x ∷ xs) [] e = cc
same_bytes-eq (x ∷ xs) (y ∷ ys) e = ground (arith, same_bytes-eq xs ys)

same_bytes_refl : (xs : List ℕ) → same_bytes xs xs ≡ true
same_bytes_refl [] = refl
same_bytes_refl (x ∷ xs) = ground (arith, same_bytes_refl xs)

same_place-eq : (p q : Place) → same_place p q ≡ true → p ≡ q
same_place-eq p q e = ground arith

same_place_refl : (p : Place) → same_place p p ≡ true
same_place_refl p = ground arith

pub same_path-eq : (p q : FilePath) → same_path p q ≡ true → p ≡ q
same_path-eq p q e = ground (arith, same_place-eq p.place q.place, same_bytes-eq p.name q.name)

pub same_path_refl : (p : FilePath) → same_path p p ≡ true
same_path_refl p = ground (arith, same_place_refl p.place, same_bytes_refl p.name)
