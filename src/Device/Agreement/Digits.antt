-- ===== src/Device/Agreement/Digits.antt =====
-- The numbers in commands: what bank_number and block_number of firmware/protocol.c read from digits, and
-- what the emulated cartridge of the tests does.
use native.Mathlib.Nat.{mod-eq_of_lt}
use p2000t_cartridge_studio.Bytes.{Bytes}
use p2000t_cartridge_studio.Text.{is_upper_hex, all_upper_hex, hex_digit_value, hex_number}
use p2000t_cartridge_studio.Emulator.{parse_block, parse_bank}
use p2000t_cartridge_studio.Device.Protocol.{digit_value, digits_number, block_number, bank_number}
use p2000t_cartridge_studio.Base.{
  ℕ, ◌+◌, ◌*◌, ◌%◌, ◌^◌, ◌≤◌, ◌<◌, ◌≡◌, refl, sym, ap, subst, ◌∙◌, Bool, true, false, ◌&&◌, Option,
  none, some, [], ◌∷◌, arith, ltb, if◌then◌else◌, if_both,
}

-- What the emulator and the firmware make of the digits of a command.
pub data Same (limit : ℕ) : Option ℕ → Option ℕ → Type 0 where
  malformed : Same limit none none
  too_large : (v : ℕ) → limit ≤ v → Same limit none (some v)
  same : (v : ℕ) → v < limit → Same limit (some v) (some v)

hex_digit_value_small : (c : ℕ) → is_upper_hex c ≡ true → hex_digit_value c < 16
unfolding is_upper_hex hex_digit_value
hex_digit_value_small c h = ground (arith, h)

digit_value-is_upper_hex :
    (c : ℕ) → digit_value c ≡ (if is_upper_hex c then some (hex_digit_value c) else none)
unfolding digit_value is_upper_hex hex_digit_value
digit_value-is_upper_hex c = ground arith

tested_digit :
    (t : Bool) (x : ℕ) (y : Option ℕ) (f : ℕ → Option ℕ)
    → (t ≡ true → f x ≡ y)
    → (elim (if t then some x else none) [ none ↦ none | some d ↦ f d ]) ≡ (if t then y else none)
tested_digit true x y f h = h refl
tested_digit false x y f h = refl

digits_step :
    (width v c : ℕ) (cs : Bytes)
    → v * 16 + 16 ≤ 2 ^ width
    → digits_number width v (c ∷ cs)
      ≡ (if is_upper_hex c then digits_number width (v * 16 + hex_digit_value c) cs else none)
unfolding digits_number
digits_step width v c cs room =
    let read = λ (d : ℕ). digits_number width ((v * 16 + d) % 2 ^ width) cs in
    ap (λ (o : Option ℕ). elim o [ none ↦ none | some d ↦ read d ]) (digit_value-is_upper_hex c)
    ∙ tested_digit (is_upper_hex c) (hex_digit_value c) _ read (λ hex.
      ap (λ (n : ℕ). digits_number width n cs)
        (mod-eq_of_lt (omega (arith, hex_digit_value_small c hex, room))))

nested :
    (s t : Bool) (x y : Option ℕ)
    → (s ≡ true → x ≡ (if t then y else none))
    → (if s then x else none) ≡ (if s && t then y else none)
nested true t x y h = h refl
nested false t x y h = refl

bounded :
    (limit : ℕ) (t : Bool) (n : ℕ)
    → Same limit (if t && ltb n limit then some n else none) (if t then some n else none)
bounded limit false n = malformed
bounded limit true n =
    if_both (λ (x : Option ℕ). Same limit x (some n)) (ltb n limit) _ _
      (λ h. same n (ground (arith, h))) (λ h. too_large n (ground (arith, h)))

bank_number-two :
    (a b : ℕ)
    → bank_number (a ∷ b ∷ []) ≡ (
        if is_upper_hex a && (is_upper_hex b && true)
        then some (hex_number 0 (a ∷ b ∷ []))
        else none)
unfolding bank_number hex_number
bank_number-two a b =
    digits_step 8 0 a (b ∷ []) (omega arith)
    ∙ nested (is_upper_hex a) (is_upper_hex b && true) _ _ (λ hex.
      digits_step 8 (0 * 16 + hex_digit_value a) b [] (omega (arith, hex_digit_value_small a hex))
      ∙ nested (is_upper_hex b) true _ _ (λ _. refl))

pub bank_number-Same : (a b : ℕ) → Same 16 (parse_bank (a ∷ b ∷ [])) (bank_number (a ∷ b ∷ []))
unfolding parse_bank all_upper_hex
bank_number-Same a b =
    let n = hex_number 0 (a ∷ b ∷ []) in
    let t = is_upper_hex a && (is_upper_hex b && true) in
    subst (λ (x : Option ℕ). Same 16 (if t && ltb n 16 then some n else none) x)
      (sym (bank_number-two a b)) (bounded 16 t n)

block_number-four :
    (a b c d : ℕ)
    → block_number (a ∷ b ∷ c ∷ d ∷ []) ≡ (
        if is_upper_hex a && (is_upper_hex b && (is_upper_hex c && (is_upper_hex d && true)))
        then some (hex_number 0 (a ∷ b ∷ c ∷ d ∷ []))
        else none)
unfolding block_number hex_number
block_number-four a b c d =
    let va = 0 * 16 + hex_digit_value a in
    let vb = va * 16 + hex_digit_value b in
    let vc = vb * 16 + hex_digit_value c in
    digits_step 16 0 a (b ∷ c ∷ d ∷ []) (omega arith)
    ∙ nested (is_upper_hex a) _ _ _ (λ ha.
      let la = hex_digit_value_small a ha in
      digits_step 16 va b (c ∷ d ∷ []) (omega (arith, la))
      ∙ nested (is_upper_hex b) _ _ _ (λ hb.
        let lb = hex_digit_value_small b hb in
        digits_step 16 vb c (d ∷ []) (omega (arith, la, lb))
        ∙ nested (is_upper_hex c) _ _ _ (λ hc.
          let lc = hex_digit_value_small c hc in
          digits_step 16 vc d [] (omega (arith, la, lb, lc))
          ∙ nested (is_upper_hex d) true _ _ (λ _. refl))))

pub block_number-Same :
    (a b c d : ℕ) → Same 1024 (parse_block (a ∷ b ∷ c ∷ d ∷ [])) (block_number (a ∷ b ∷ c ∷ d ∷ []))
unfolding parse_block all_upper_hex
block_number-Same a b c d =
    let n = hex_number 0 (a ∷ b ∷ c ∷ d ∷ []) in
    let t = is_upper_hex a && (is_upper_hex b && (is_upper_hex c && (is_upper_hex d && true))) in
    subst (λ (x : Option ℕ). Same 1024 (if t && ltb n 1024 then some n else none) x)
      (sym (block_number-four a b c d)) (bounded 1024 t n)
