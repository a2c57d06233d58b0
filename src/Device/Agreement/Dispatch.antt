-- ===== src/Device/Agreement/Dispatch.antt =====
-- The choice of a command: firmware/protocol.c and the emulated cartridge of the tests.
use p2000t_cartridge_studio.RomSizes.{blocksize, banksize}
use p2000t_cartridge_studio.Bytes.{Bytes, bytes_eq, starts_with, bytes_eq_iff}
use p2000t_cartridge_studio.Text.{codes}
use p2000t_cartridge_studio.Emulator.{
  Backend, Emulated, parse_block, parse_bank, queue_response, read_range, erase_bank_command,
  write_block_command, dispatch,
}
use p2000t_cartridge_studio.Device.Protocol.{
  ProtocolOps, Protocol, block_number, bank_number, Fed, read_bank_command, erase_bank_response,
  block_command, respond,
}
use p2000t_cartridge_studio.Base.{
  ℕ, ◌/◌, ◌%◌, ◌^◌, ◌≡◌, refl, sym, subst, ◌∙◌, Bool, true, false, [], ◌∷◌, ◌++◌, arith,
  if◌then◌else◌,
}
use p2000t_cartridge_studio.Device.Agreement.{Implements, Agree, Waiting}
use p2000t_cartridge_studio.Device.Agreement.Digits.{bank_number-Same, block_number-Same}
use p2000t_cartridge_studio.Device.Agreement.Commands.{
  answered, erase_all_agrees, erase_bank_agrees, read_bank_agrees, block_agrees,
}

module _ {D : Type 0} (version : Bytes) (time : ℕ → ℕ) (ops : ProtocolOps D)
    (R : D → Backend → Type 0) (driver : Implements ops R) where
  -- The emulator has echoed the command.
  abbrev echoed : Bytes → Emulated → Emulated
  echoed command e = queue_response command e

  both :
      (P : Fed D → Emulated → Type 0) (t : Bool) (x x' : Fed D) (y y' : Emulated)
      → (t ≡ true → P x y)
      → (t ≡ false → P x' y')
      → P (if t then x else x') (if t then y else y')
  both P true x x' y y' h k = h refl
  both P false x x' y y' h k = k refl

  -- Two tests of which at most one holds, in either order.
  swapped :
      {A : Type 0} (s t : Bool) (x y z : A)
      → (s ≡ true → t ≡ true → ⊥)
      → (if s then x else if t then y else z) ≡ (if t then y else if s then x else z)
  swapped true true x y z h = absurd (h refl refl)
  swapped true false x y z h = refl
  swapped false true x y z h = refl
  swapped false false x y z h = refl

  not_both_equal :
      (command x y : Bytes)
      → bytes_eq x y ≡ false
      → bytes_eq command x ≡ true
      → bytes_eq command y ≡ true
      → ⊥
  not_both_equal command x y different left right =
      let equal : x ≡ y =
        sym ((bytes_eq_iff command x).0 left) ∙ (bytes_eq_iff command y).0 right in
      let same_bytes : bytes_eq x y ≡ true = (bytes_eq_iff x y).1 equal in
      absurd (ground (arith, different, same_bytes))

  erase_is_not_boot : bytes_eq (codes "ERASEALL") (codes "BOOTLOAD") ≡ false
  unfolding bytes_eq
  erase_is_not_boot = refl

  not_both_start :
      (c₁ c₂ c₃ c₄ : ℕ) (rest : Bytes)
      → starts_with (codes "RDBK") (c₁ ∷ c₂ ∷ c₃ ∷ c₄ ∷ rest) ≡ true
      → starts_with (codes "WRBK") (c₁ ∷ c₂ ∷ c₃ ∷ c₄ ∷ rest) ≡ true
      → ⊥
  unfolding starts_with
  not_both_start c₁ c₂ c₃ c₄ rest read write = ground (arith, read, write)

  -- The commands with a number, and what is no command.
  numbered_agrees :
      (c₁ c₂ c₃ c₄ c₅ c₆ c₇ c₈ : ℕ) (p : Protocol) (d : D) (e : Emulated)
      → Waiting p e
      → R d e.backend
      → (let command = c₁ ∷ c₂ ∷ c₃ ∷ c₄ ∷ c₅ ∷ c₆ ∷ c₇ ∷ c₈ ∷ [] in
          Agree R e.read_buffer
            (if starts_with (codes "RDBANK") command
              then read_bank_command version ops command (bank_number (c₇ ∷ c₈ ∷ [])) p d
              else if starts_with (codes "ERBANK") command
              then erase_bank_response version ops command (bank_number (c₇ ∷ c₈ ∷ [])) p d
              else if starts_with (codes "WRBK") command
              then block_command version ops true command
                  (block_number (c₅ ∷ c₆ ∷ c₇ ∷ c₈ ∷ []))
                  p
                  d
              else if starts_with (codes "RDBK") command
              then block_command version ops false command
                  (block_number (c₅ ∷ c₆ ∷ c₇ ∷ c₈ ∷ []))
                  p
                  d
              else (command ++ codes "ERRORCMD", p, d))
            (if starts_with (codes "RDBANK") command
              then read_range (parse_bank (c₇ ∷ c₈ ∷ [])) banksize (echoed command e)
              else if starts_with (codes "ERBANK") command
              then erase_bank_command (parse_bank (c₇ ∷ c₈ ∷ [])) (echoed command e)
              else if starts_with (codes "RDBK") command
              then read_range (parse_block (c₅ ∷ c₆ ∷ c₇ ∷ c₈ ∷ [])) blocksize (echoed command e)
              else if starts_with (codes "WRBK") command
              then write_block_command (parse_block (c₅ ∷ c₆ ∷ c₇ ∷ c₈ ∷ [])) (echoed command e)
              else queue_response (codes "ERRORCMD") (echoed command e)))
  numbered_agrees c₁ c₂ c₃ c₄ c₅ c₆ c₇ c₈ p d e h r =
      let command = c₁ ∷ c₂ ∷ c₃ ∷ c₄ ∷ c₅ ∷ c₆ ∷ c₇ ∷ c₈ ∷ [] in
      let digits = c₅ ∷ c₆ ∷ c₇ ∷ c₈ ∷ [] in
      let P = Agree R e.read_buffer in
      both P (starts_with (codes "RDBANK") command) _ _ _ _
        (λ _.
          read_bank_agrees version time ops R driver _ _ command p d e (bank_number-Same c₇ c₈) h r)
        (λ _.
          both P (starts_with (codes "ERBANK") command) _ _ _ _
            (λ _.
              erase_bank_agrees version time ops R driver _ _ command p d e (bank_number-Same c₇ c₈)
                h r)
            (λ _.
              subst (P _)
                (sym (
                  swapped (starts_with (codes "RDBK") command) (starts_with (codes "WRBK") command)
                    _ _ _ (not_both_start c₁ c₂ c₃ c₄ digits)))
                (both P (starts_with (codes "WRBK") command) _ _ _ _
                  (λ _.
                    block_agrees version time ops R driver true _ _ command p d e
                      (block_number-Same c₅ c₆ c₇ c₈) h r)
                  (λ _.
                    both P (starts_with (codes "RDBK") command) _ _ _ _
                      (λ _.
                        block_agrees version time ops R driver false _ _ command p d e
                          (block_number-Same c₅ c₆ c₇ c₈) h r)
                      (λ _.
                        answered version time ops R driver command (codes "ERRORCMD") p d e h r)))))

  -- The answers to a complete command, whatever its bytes.
  pub respond-dispatch :
      (c₁ c₂ c₃ c₄ c₅ c₆ c₇ c₈ : ℕ) (p : Protocol) (d : D) (e : Emulated)
      → Waiting p e
      → R d e.backend
      → (let command = c₁ ∷ c₂ ∷ c₃ ∷ c₄ ∷ c₅ ∷ c₆ ∷ c₇ ∷ c₈ ∷ [] in
          Agree R e.read_buffer
            (respond version ops command p d)
            (dispatch version time command (queue_response command e)))
  unfolding respond dispatch
  respond-dispatch c₁ c₂ c₃ c₄ c₅ c₆ c₇ c₈ p d e h r =
      let command = c₁ ∷ c₂ ∷ c₃ ∷ c₄ ∷ c₅ ∷ c₆ ∷ c₇ ∷ c₈ ∷ [] in
      let P = Agree R e.read_buffer in
      let (named_chip, identified) = driver.identifies d e.backend r in
      both P (bytes_eq command (codes "READINFO")) _ _ _ _
        (λ _.
          subst
            (λ (x : Bytes).
              P (command ++ codes "P2000T-FW p01.00", p, d) (queue_response x (echoed command e)))
            (sym (driver.named d e.backend r))
            (answered version time ops R driver command (codes "P2000T-FW p01.00") p d e h r))
        (λ _.
          both P (bytes_eq command (codes "READVERS")) _ _ _ _
            (λ _. answered version time ops R driver command version p d e h r)
            (λ _.
              both P (bytes_eq command (codes "DEVIDSST")) _ _ _ _
                (λ _.
                  subst
                    (λ (x : Bytes).
                      P (command ++ x, p, (ops.read_id d).1)
                        (queue_response (e.backend.chip_id / 2 ^ 8 ∷ e.backend.chip_id % 256 ∷ [])
                          (echoed command e)))
                    (sym named_chip)
                    (answered version time ops R driver command
                      (e.backend.chip_id / 2 ^ 8 ∷ e.backend.chip_id % 256 ∷ []) p (ops.read_id d).1
                      e h identified))
                (λ _.
                  subst (P _)
                    (sym (
                      swapped (bytes_eq command (codes "ERASEALL"))
                        (bytes_eq command (codes "BOOTLOAD")) _ _ _
                        (not_both_equal command (codes "ERASEALL") (codes "BOOTLOAD")
                          erase_is_not_boot)))
                    (both P (bytes_eq command (codes "BOOTLOAD")) _ _ _ _
                      (λ _.
                        answered version time ops R driver command (0 ∷ []) p (ops.boot d) e h
                          (driver.boots d e.backend r))
                      (λ _.
                        both P (bytes_eq command (codes "ERASEALL")) _ _ _ _
                          (λ _. erase_all_agrees version time ops R driver command p d e h r)
                          (λ _. numbered_agrees c₁ c₂ c₃ c₄ c₅ c₆ c₇ c₈ p d e h r))))))
