-- ===== src/BankSelector.antt =====
-- src/bankselector.cpp: the selected bank, and the DIP-switch setting that selects it on the cartridge.
use p2000t_cartridge_studio.RomSizes.{numbanks}
use p2000t_cartridge_studio.Base.Int.{ℤ, pos, negsuc}
use p2000t_cartridge_studio.Base.{
  ℕ, zero, suc, ◌+◌, ◌*◌, ◌<◌, bit_and, ◌≡◌, refl, Bool, false, not, ◌||◌, List, [], ◌∷◌, ◌++◌,
  arith, leb, ◌==◌, if◌then◌else◌,
}

-- `current_bank`, and the banks with which currentBankChanged was emitted.
pub record Selection : Type 0 where
  pub current_bank : ℤ
  pub changes : List ℕ

unfoldable pub is_current : ℕ → ℤ → Bool
is_current bank (pos n) = bank == n
is_current bank (negsuc n) = false

unfoldable pub set_current_bank : ℤ → Selection → Selection
unfolding is_current
set_current_bank (negsuc n) selection = selection
set_current_bank (pos bank) selection =
    if leb numbanks bank || is_current bank selection.current_bank
    then selection
    else record { current_bank = pos bank; changes = selection.changes ++ bank ∷ [] }

-- The positions that read ON, from DIP 1 to DIP 4.
unfoldable pub dip_switch_positions : ℕ → List Bool
dip_switch_positions bank =
    not (bit_and bank 8 == 0)
    ∷ not (bit_and bank 4 == 0)
    ∷ not (bit_and bank 2 == 0)
    ∷ not (bit_and bank 1 == 0)
    ∷ []

-- The bank whose address lines the switches set, DIP 1 the highest.
unfoldable pub switched_bank : List Bool → ℕ → ℕ
switched_bank [] bank = bank
switched_bank (on ∷ rest) bank = switched_bank rest (bank * 2 + (if on then 1 else 0))

sixteen : (bank : ℕ) → bank < 16 → switched_bank (dip_switch_positions bank) 0 ≡ bank
unfolding switched_bank dip_switch_positions
sixteen zero h = refl
sixteen (suc zero) h = refl
sixteen (suc (suc zero)) h = refl
sixteen (suc (suc (suc zero))) h = refl
sixteen (suc (suc (suc (suc zero)))) h = refl
sixteen (suc (suc (suc (suc (suc zero))))) h = refl
sixteen (suc (suc (suc (suc (suc (suc zero)))))) h = refl
sixteen (suc (suc (suc (suc (suc (suc (suc zero))))))) h = refl
sixteen (suc (suc (suc (suc (suc (suc (suc (suc zero)))))))) h = refl
sixteen (suc (suc (suc (suc (suc (suc (suc (suc (suc zero))))))))) h = refl
sixteen (suc (suc (suc (suc (suc (suc (suc (suc (suc (suc zero)))))))))) h = refl
sixteen (suc (suc (suc (suc (suc (suc (suc (suc (suc (suc (suc zero))))))))))) h = refl
sixteen (suc (suc (suc (suc (suc (suc (suc (suc (suc (suc (suc (suc zero)))))))))))) h = refl
sixteen (suc (suc (suc (suc (suc (suc (suc (suc (suc (suc (suc (suc (suc zero))))))))))))) h = refl
sixteen (suc (suc (suc (suc (suc (suc (suc (suc (suc (suc (suc (suc (suc (suc zero)))))))))))))) h =
    refl
sixteen
      (suc (suc (suc (suc (suc (suc (suc (suc (suc (suc (suc (suc (suc (suc (suc zero)))))))))))))))
      h =
    refl
sixteen
      (suc
        (suc (suc (suc (suc (suc (suc (suc (suc (suc (suc (suc (suc (suc (suc (suc n))))))))))))))))
      h =
    absurd (omega arith)

-- For each bank of the chip, the switches set as dipSwitchPattern shows them, read as a binary
-- number with DIP 1 first, select that bank.
pub switched_bank-dip_switch_positions :
    (bank : ℕ) → bank < numbanks → switched_bank (dip_switch_positions bank) 0 ≡ bank
unfolding switched_bank dip_switch_positions
switched_bank-dip_switch_positions bank h = sixteen bank h
