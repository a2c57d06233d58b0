-- ===== src/Bytes/Regions.antt =====
-- Regions of a byte array: what a copy into one region leaves of itself and of the others.
use p2000t_cartridge_studio.Bytes.{
  Bytes, mid, overwrite, length-mid, length-overwrite, get_elem?-mid, get_elem?-overwrite,
}
use p2000t_cartridge_studio.Base.{
  ℕ, ◌+◌, ◌-◌, ◌≤◌, ◌<◌, ◌≡◌, refl, ap, ◌⊎◌, [], ◌++◌, arith, length, get_elem?, take,
  length-append, get_elem?-ge, get_elem?-append, list_ext,
}

-- The region that was copied into holds the copy.
pub mid-overwrite_self :
    (offset : ℕ) (content xs : Bytes)
    → offset + length content ≤ length xs
    → mid offset (length content) (overwrite offset content xs) ≡ content
mid-overwrite_self offset content xs h = list_ext _ _ λ i.
    let e : offset + i - offset ≡ i = omega arith in
    ground (
      arith,
      get_elem?-mid offset (length content) (overwrite offset content xs) i,
      get_elem?-overwrite offset content xs (offset + i) h,
      ap (get_elem? content) e,
      get_elem?-ge content i,
    )

-- A region with no byte in common keeps its content.
pub mid-overwrite_disjoint :
    (at count offset : ℕ) (content xs : Bytes)
    → offset + length content ≤ length xs
    → (at + count ≤ offset) ⊎ (offset + length content ≤ at)
    → mid at count (overwrite offset content xs) ≡ mid at count xs
mid-overwrite_disjoint at count offset content xs h apart = list_ext _ _ λ i. ground (
  arith,
  get_elem?-mid at count (overwrite offset content xs) i,
  get_elem?-mid at count xs i,
  get_elem?-overwrite offset content xs (at + i) h,
)

-- Copies into neighbouring regions are one copy of both.
pub overwrite-overwrite_next :
    (offset : ℕ) (a b xs : Bytes)
    → offset + length a + length b ≤ length xs
    → overwrite (offset + length a) b (overwrite offset a xs) ≡ overwrite offset (a ++ b) xs
overwrite-overwrite_next offset a b xs h = list_ext _ _ λ i.
    let first : offset + length a ≤ length xs = omega arith in
    let whole : offset + length (a ++ b) ≤ length xs = omega (arith, length-append a b) in
    let e : i - (offset + length a) ≡ i - offset - length a = omega arith in
    ground (
      arith,
      get_elem?-overwrite (offset + length a) b (overwrite offset a xs) i
          (omega (arith, length-overwrite offset a xs first)),
      get_elem?-overwrite offset a xs i first,
      get_elem?-overwrite offset (a ++ b) xs i whole,
      get_elem?-append a b (i - offset),
      length-append a b,
      ap (get_elem? b) e,
    )

-- A later copy into the same region hides an earlier one.
pub overwrite-overwrite_same :
    (offset : ℕ) (a b xs : Bytes)
    → length a ≡ length b
    → offset + length b ≤ length xs
    → overwrite offset b (overwrite offset a xs) ≡ overwrite offset b xs
overwrite-overwrite_same offset a b xs e h = list_ext _ _ λ i.
    let first : offset + length a ≤ length xs = omega arith in
    ground (
      arith,
      get_elem?-overwrite offset b (overwrite offset a xs) i
          (omega (arith, length-overwrite offset a xs first)),
      get_elem?-overwrite offset a xs i first,
      get_elem?-overwrite offset b xs i h,
    )

pub overwrite_whole :
    (content xs : Bytes) → length content ≡ length xs → overwrite 0 content xs ≡ content
overwrite_whole content xs e = list_ext _ _ λ i.
    let same : i - 0 ≡ i = omega arith in
    ground (
      arith,
      get_elem?-overwrite 0 content xs i (omega arith),
      ap (get_elem? content) same,
      get_elem?-ge content i,
      get_elem?-ge xs i,
    )

pub overwrite_nothing : (offset : ℕ) (xs : Bytes) → offset ≤ length xs → overwrite offset [] xs ≡ xs
overwrite_nothing offset xs h = list_ext _ _ λ i.
    let fits : offset + length {A = ℕ} [] ≤ length xs = omega arith in
    ground (arith, get_elem?-overwrite offset [] xs i fits)

pub mid_whole : (xs : Bytes) (n : ℕ) → length xs ≡ n → mid 0 n xs ≡ xs
mid_whole xs n e = list_ext _ _ λ i.
    let same : 0 + i ≡ i = omega arith in
    ground (arith, get_elem?-mid 0 n xs i, ap (get_elem? xs) same, get_elem?-ge xs i)

pub mid-mid : (a n b m : ℕ) (xs : Bytes) → b + m ≤ n → mid b m (mid a n xs) ≡ mid (a + b) m xs
mid-mid a n b m xs h = list_ext _ _ λ i.
    let e : a + (b + i) ≡ a + b + i = omega arith in
    ground (
      arith,
      get_elem?-mid b m (mid a n xs) i,
      get_elem?-mid a n xs (b + i),
      get_elem?-mid (a + b) m xs i,
      ap (get_elem? xs) e,
    )

-- Neighbouring regions joined.
pub mid-append_mid :
    (a n m : ℕ) (xs : Bytes)
    → a + n + m ≤ length xs
    → mid a n xs ++ mid (a + n) m xs ≡ mid a (n + m) xs
mid-append_mid a n m xs h = list_ext _ _ λ i.
    let e : a + n + (i - n) ≡ a + i ⊎ (i < n) = ground arith in
    ground (
      arith,
      length-mid a n xs (omega arith),
      get_elem?-append (mid a n xs) (mid (a + n) m xs) i,
      get_elem?-mid a n xs i,
      get_elem?-mid (a + n) m xs (i - n),
      get_elem?-mid a (n + m) xs i,
      e,
    )

pub take-mid : (n : ℕ) (xs : Bytes) → take n xs ≡ mid 0 n xs
unfolding mid
take-mid n xs = refl
