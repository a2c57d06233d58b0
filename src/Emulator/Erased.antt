-- ===== src/Emulator/Erased.antt =====
-- Erased regions, and what may be programmed into them.
use native.Mathlib.Nat.{pow-suc, one-le-pow}
use p2000t_cartridge_studio.Bytes.{
  Bytes, IsBytes, mid, overwrite, get_elem?-mid, get_elem?-overwrite,
}
use p2000t_cartridge_studio.Emulator.{clears_bits}
use p2000t_cartridge_studio.Base.{
  ℕ, zero, suc, ◌+◌, ◌-◌, ◌/◌, ◌^◌, ◌≤◌, ◌<◌, bit_and, ◌≡◌, refl, ap, true, [], ◌∷◌, arith, length,
  take, drop, replicate, length-replicate, get_elem?-replicate, list_ext, bit_and_step,
}

-- Any part of an erased region reads as FF.
pub mid-overwrite-replicate :
    (at count offset size value : ℕ) (xs : Bytes)
    → offset ≤ at
    → at + count ≤ offset + size
    → offset + size ≤ length xs
    → mid at count (overwrite offset (replicate size value) xs) ≡ replicate count value
mid-overwrite-replicate at count offset size value xs h k l = list_ext _ _ λ i. ground (
  arith,
  length-replicate size value,
  get_elem?-mid at count (overwrite offset (replicate size value) xs) i,
  get_elem?-overwrite offset (replicate size value) xs (at + i)
      (omega (arith, length-replicate size value)),
  get_elem?-replicate size value (at + i - offset),
  get_elem?-replicate count value i,
)

ones-bit_and : (k v : ℕ) → v < 2 ^ k → bit_and (2 ^ k - 1) v ≡ v
ones-bit_and zero v h = let e : v ≡ 0 = omega arith in rw e refl
ones-bit_and (suc k) v h =
    let half : (2 ^ suc k - 1) / 2 ≡ 2 ^ k - 1 = omega (arith, pow-suc 2 k) in
    omega (
      arith,
      pow-suc 2 k,
      one-le-pow k 2,
      bit_and_step (2 ^ suc k - 1) v,
      ap (λ (x : ℕ). bit_and x (v / 2)) half,
      ones-bit_and k (v / 2) (omega (arith, pow-suc 2 k)),
    )

-- Programming an erased region is always possible.
pub clears_bits_erased :
    (new : Bytes) (size : ℕ)
    → IsBytes new
    → length new ≡ size
    → clears_bits (replicate size 0xFF) new ≡ true
unfolding clears_bits replicate
clears_bits_erased [] zero h e = refl
clears_bits_erased (n ∷ new) zero h e = absurd (omega arith)
clears_bits_erased [] (suc size) h e = refl
clears_bits_erased (n ∷ new) (suc size) h e =
    ground (arith, ones-bit_and 8 n, clears_bits_erased new size h.1)

pub IsBytes-mid : (offset count : ℕ) (xs : Bytes) → IsBytes xs → IsBytes (mid offset count xs)
unfolding mid
IsBytes-mid offset count xs h = IsBytes-take count (drop offset xs) (IsBytes-drop offset xs h)
  where
    IsBytes-drop : (n : ℕ) (xs : Bytes) → IsBytes xs → IsBytes (drop n xs)
    IsBytes-drop zero xs h = h
    IsBytes-drop (suc n) [] h = tt
    IsBytes-drop (suc n) (x ∷ xs) h = IsBytes-drop n xs h.1

    IsBytes-take : (n : ℕ) (xs : Bytes) → IsBytes xs → IsBytes (take n xs)
    IsBytes-take zero xs h = tt
    IsBytes-take (suc n) [] h = tt
    IsBytes-take (suc n) (x ∷ xs) h = (h.0, IsBytes-take n xs h.1)

pub IsBytes-replicate : (n v : ℕ) → v < 256 → IsBytes (replicate n v)
unfolding replicate
IsBytes-replicate zero v h = tt
IsBytes-replicate (suc n) v h = (h, IsBytes-replicate n v h)
