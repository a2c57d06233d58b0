-- ===== src/Bytes.antt =====
-- The operations of QByteArray that src/src and src/tests use, on lists of numbers below 256.
pub mod Regions
use p2000t_cartridge_studio.Base.{
  ℕ, zero, suc, ◌+◌, ◌-◌, ◌*◌, ◌%◌, ◌^◌, ◌≤◌, ◌<◌, bit_or, bit_or-shifted, ◌≡◌, refl, ap, ◌↔◌, Bool,
  true, false, ◌&&◌, none, List, [], ◌∷◌, ◌++◌, arith, ltb, ◌==◌, if◌then◌else◌, length, get_elem?,
  get_or, take, drop, replicate, length-append, length-take, length-drop, length-replicate,
  get_elem?-ge, get_elem?-take, get_elem?-drop, get_elem?-append, get_elem?-replicate, list_ext,
  min,
}

abbrev pub Bytes : Type 0
Bytes = List ℕ

-- Every element fits a byte.
abbrev pub IsBytes : Bytes → Type 0
IsBytes [] = Unit {0}
IsBytes (x ∷ xs) = (x < 256) × IsBytes xs

-- `data.mid(offset, count)`: what lies in range of it.
unfoldable pub mid : ℕ → ℕ → Bytes → Bytes
mid offset count xs = take count (drop offset xs)

-- `std::copy` of `content` over the bytes from `offset` on.
unfoldable pub overwrite : ℕ → Bytes → Bytes → Bytes
overwrite offset content xs = take offset xs ++ (content ++ drop (offset + length content) xs)

unfoldable pub is_empty : Bytes → Bool
is_empty [] = true
is_empty (_ ∷ _) = false

-- `==` of two byte arrays.
unfoldable pub bytes_eq : Bytes → Bytes → Bool
bytes_eq [] [] = true
bytes_eq (x ∷ xs) (y ∷ ys) = x == y && bytes_eq xs ys
bytes_eq _ _ = false

-- `startsWith`.
unfoldable pub starts_with : Bytes → Bytes → Bool
starts_with [] ys = true
starts_with (x ∷ xs) [] = false
starts_with (x ∷ xs) (y ∷ ys) = x == y && starts_with xs ys

-- `(uint16_t(hi) << 8) | lo`.
unfoldable pub u16_of : ℕ → ℕ → ℕ
u16_of hi lo = bit_or (hi * 2 ^ 8) lo

pub bytes_eq_iff : (xs ys : Bytes) → (bytes_eq xs ys ≡ true) ↔ (xs ≡ ys)
unfolding bytes_eq
bytes_eq_iff (x ∷ xs) (y ∷ ys) = ground (arith, bytes_eq_iff xs ys)
bytes_eq_iff _ _ = ground arith

pub bytes_eq_refl : (xs : Bytes) → bytes_eq xs xs ≡ true
bytes_eq_refl xs = (bytes_eq_iff xs xs).1 refl

pub starts_with-append : (xs ys : Bytes) → starts_with xs (xs ++ ys) ≡ true
unfolding starts_with
starts_with-append [] ys = refl
starts_with-append (x ∷ xs) ys = ground (arith, starts_with-append xs ys)

pub u16_of_lem : (hi lo : ℕ) → lo < 256 → u16_of hi lo ≡ hi * 256 + lo
unfolding u16_of
u16_of_lem hi lo h = bit_or-shifted 8 hi lo (omega arith)

pub length-mid :
    (offset count : ℕ) (xs : Bytes)
    → offset + count ≤ length xs
    → length (mid offset count xs) ≡ count
unfolding mid
length-mid offset count xs h =
    omega (arith, length-take count (drop offset xs), length-drop offset xs)

pub length-overwrite :
    (offset : ℕ) (content xs : Bytes)
    → offset + length content ≤ length xs
    → length (overwrite offset content xs) ≡ length xs
unfolding overwrite
length-overwrite offset content xs h = omega (
  arith,
  length-append (take offset xs) (content ++ drop (offset + length content) xs),
  length-append content (drop (offset + length content) xs),
  length-take offset xs,
  length-drop (offset + length content) xs,
)

pub get_elem?-mid :
    (offset count : ℕ) (xs : Bytes) (i : ℕ)
    → get_elem? (mid offset count xs) i ≡ (if ltb i count then get_elem? xs (offset + i) else none)
unfolding mid
get_elem?-mid offset count xs i =
    rw (get_elem?-take count (drop offset xs) i, get_elem?-drop offset xs i)

pub get_elem?-overwrite :
    (offset : ℕ) (content xs : Bytes) (i : ℕ)
    → offset + length content ≤ length xs
    → get_elem? (overwrite offset content xs) i ≡ (
        if ltb i offset
        then get_elem? xs i
        else if ltb i (offset + length content)
        then get_elem? content (i - offset)
        else get_elem? xs i)
unfolding overwrite
get_elem?-overwrite offset content xs i h =
    let past = offset + length content in
    let in_prefix : length (take offset xs) ≡ offset = omega (arith, length-take offset xs) in
    let back : past ≤ i → past + (i - offset - length content) ≡ i =
      λ (p : past ≤ i). omega arith in
    ground (
      arith,
      in_prefix,
      get_elem?-append (take offset xs) (content ++ drop past xs) i,
      get_elem?-append content (drop past xs) (i - offset),
      get_elem?-take offset xs i,
      get_elem?-drop past xs (i - offset - length content),
    )
