-- ===== src/Emulator/Protocol.antt =====
-- src/serial_interface.cpp against the emulated cartridge: each command has on it the effect, and
-- returns the value, that the specification Cartridge says.
use p2000t_cartridge_studio.RomSizes.{romsize, blocksize, numblocks, banksize, numbanks}
use p2000t_cartridge_studio.Bytes.{Bytes, mid, u16_of, u16_of_lem, length-mid}
use p2000t_cartridge_studio.Crc.{crc16_xmodem}
use p2000t_cartridge_studio.Text.{codes, hex_field, length-hex_field}
use p2000t_cartridge_studio.Effects.{Result, ok}
use p2000t_cartridge_studio.Serial.{
  SerialInterface, Failure, default_timeout_ms, bank_read_timeout_ms, erase_timeout_ms,
}
use p2000t_cartridge_studio.Serial.Wire.{wait_for_response}
use p2000t_cartridge_studio.Serial.Commands.{
  send_command_capture_response, wait_for_status, require_success, check_response, get_chip_id,
  read_bank, read_block, erase_bank, erase_chip,
}
use p2000t_cartridge_studio.Emulator.{sst39sf020}
use p2000t_cartridge_studio.Emulator.Session.{
  Cartridge, Port, Session, wait_for_response-Session, wait_for_last-Session,
}
use p2000t_cartridge_studio.Emulator.Exchange.{send_command-Session}
use p2000t_cartridge_studio.Emulator.Answers.{
  range_answer, fill, Answers-identity, Answers-read_bank, Answers-read_block, Answers-erase_bank,
  Answers-erase_chip,
}
use p2000t_cartridge_studio.Base.{
  ℕ, suc, ◌+◌, ◌*◌, ◌/◌, ◌%◌, ◌^◌, ◌≤◌, ◌<◌, ◌≡◌, refl, true, Option, none, [], ◌∷◌, ◌++◌, arith,
  ◌==◌, lt→ltb, length, length-append, get_or_append_exact, take_append_exact,
}

-- Two rounds are enough for each loop of SerialInterface on this transport, whatever its clock does.
abbrev pub enough : ℕ → ℕ
enough fuel = suc (suc fuel)

module _ (version : Bytes) (time : ℕ → ℕ) (fuel : ℕ) where
  -- `m` returns `a` and leaves an idle session with cartridge `c`.
  abbrev pub Yields :
      {A : Type 0}
      → Result Failure A × SerialInterface (Port version time)
      → Result Failure A
      → Cartridge
      → Type 0
  Yields r a c =
      (s' : SerialInterface (Port version time)) × (r ≡ (a, s')) × Session version time c none [] s'

  -- In a session with the emulated cartridge, get_chip_id returns the 16-bit identifier of its
  -- chip and changes nothing.
  pub get_chip_id-Session :
      {c : Cartridge} (s : SerialInterface (Port version time))
      → Session version time c none [] s
      → c.chip < 2 ^ 16
      → Yields (get_chip_id (Port version time) (enough fuel) s) (ok c.chip) c
  unfolding get_chip_id send_command_capture_response
  get_chip_id-Session {c} s h fits =
      let (s₁, sent, h₁) =
        send_command-Session version time _ _ fuel s h refl
          (Answers-identity version time {c = c}) in
      let (s₂, got, h₂) =
        wait_for_response-Session version time (c.chip / 2 ^ 8 ∷ c.chip % 256 ∷ []) [] 2 refl
          (suc fuel) default_timeout_ms s₁ h₁ in
      let value : u16_of (c.chip / 2 ^ 8) (c.chip % 256) ≡ c.chip =
        omega (arith, u16_of_lem (c.chip / 2 ^ 8) (c.chip % 256) (omega arith)) in
      (s₂, rw (sent, got, value) refl, h₂)

  pub wait_for_status-Session :
      {c : Cartridge} {w : Option ℕ} (status : ℕ) (rest : Bytes) (timeout_ms : ℕ)
      (s : SerialInterface (Port version time))
      → Session version time c w (status ∷ rest) s
      → (s' : SerialInterface (Port version time)) × (wait_for_status
            (Port version time)
            (enough fuel)
            timeout_ms
            s
          ≡ (ok status, s'))
        × Session version time c w rest s'
  unfolding wait_for_status
  wait_for_status-Session status rest timeout_ms s h =
      let (s', got, h') =
        wait_for_response-Session version time (status ∷ []) rest 1 refl (suc fuel) timeout_ms s
          h in
      (s', rw got refl, h')

  -- A response with the CRC of its bytes is accepted.
  check_response_lem :
      (index size : ℕ) (content : Bytes) (s : SerialInterface (Port version time))
      → length content ≡ size
      → check_response
          (Port version time)
          (enough fuel)
          index
          size
          (content ++ (crc16_xmodem content / 2 ^ 8 ∷ crc16_xmodem content % 256 ∷ []))
          s
        ≡ (ok content, s)
  unfolding check_response
  check_response_lem index size content s sized =
      let crc = crc16_xmodem content in
      let tail = crc / 2 ^ 8 ∷ crc % 256 ∷ [] in
      let agree : (u16_of (crc / 2 ^ 8) (crc % 256) == crc) ≡ true =
        ground (arith, u16_of_lem (crc / 2 ^ 8) (crc % 256)) in
      rw
        (
          take_append_exact size content tail sized,
          get_or_append_exact size 0 size content tail 0 sized (omega arith),
          get_or_append_exact size 1 (size + 1) content tail 0 sized refl,
          check_response,
          agree,
        )
        refl

  -- The bytes of a range with their CRC, behind the status of the response.
  abbrev framed : Bytes → Bytes
  framed content = content ++ (crc16_xmodem content / 2 ^ 8 ∷ crc16_xmodem content % 256 ∷ [])

  length-framed :
      (content : Bytes) (size : ℕ) → length content ≡ size → length (framed content) ≡ size + 2
  length-framed content size sized = omega (
    arith,
    length-append content (crc16_xmodem content / 2 ^ 8 ∷ crc16_xmodem content % 256 ∷ []),
  )

  -- What a read of `size` bytes from `offset` on receives, once its command was sent.
  read_answer-Session :
      {c : Cartridge} (offset size index timeout_ms : ℕ) (s : SerialInterface (Port version time))
      → Session version time c none (range_answer offset size c) s
      → offset + size ≤ length c.contents
      → (s₁ s₂ : SerialInterface (Port version time)) × (wait_for_status
            (Port version time)
            (enough fuel)
            default_timeout_ms
            s
          ≡ (ok 0, s₁))
        × (wait_for_response (Port version time) (enough fuel) (size + 2) timeout_ms s₁
            ≡ (ok (framed (mid offset size c.contents)), s₂))
        × (check_response
              (Port version time)
              (enough fuel)
              index
              size
              (framed (mid offset size c.contents))
              s₂
            ≡ (ok (mid offset size c.contents), s₂))
        × Session version time c none [] s₂
  read_answer-Session {c} offset size index timeout_ms s h inside =
      let content = mid offset size c.contents in
      let sized = length-mid offset size c.contents inside in
      let (s₁, status, h₁) = wait_for_status-Session 0 (framed content) default_timeout_ms s h in
      let (s₂, got, h₂) =
        wait_for_last-Session version time (framed content) (size + 2) (suc fuel) timeout_ms s₁
          (length-framed content size sized) h₁ in
      (s₁, s₂, status, got, check_response_lem index size content s₂ sized, h₂)

  -- In a session with the emulated cartridge of the supported chip with 256 KiB, read_bank of a
  -- bank in range returns the bytes of that bank and changes nothing.
  pub read_bank-Session :
      {c : Cartridge} (bank : ℕ) (s : SerialInterface (Port version time))
      → Session version time c none [] s
      → bank < numbanks
      → c.chip ≡ sst39sf020
      → length c.contents ≡ romsize
      → Yields
          (read_bank (Port version time) (enough fuel) bank s)
          (ok (mid (bank * banksize) banksize c.contents))
          c
  unfolding read_bank require_success
  read_bank-Session {c} bank s h within known whole =
      let named : length (codes "RDBANK" ++ hex_field 2 bank) ≡ 8 =
        omega (arith, length-hex_field 2 bank) in
      let (s₁, sent, h₁) =
        send_command-Session version time _ _ fuel s h named
          (Answers-read_bank version time known bank within) in
      let (s₂, s₃, status, got, accepted, h₃) =
        read_answer-Session (bank * banksize) banksize bank bank_read_timeout_ms s₁ h₁
          (omega arith) in
      (s₃, rw (lt→ltb bank numbanks within, sent, status, got, accepted) refl, h₃)

  -- In a session with the emulated cartridge of the supported chip with 256 KiB, read_block of
  -- a block in range returns the bytes of that block and changes nothing.
  pub read_block-Session :
      {c : Cartridge} (block : ℕ) (s : SerialInterface (Port version time))
      → Session version time c none [] s
      → block < numblocks
      → c.chip ≡ sst39sf020
      → length c.contents ≡ romsize
      → Yields
          (read_block (Port version time) (enough fuel) block s)
          (ok (mid (block * blocksize) blocksize c.contents))
          c
  unfolding read_block require_success
  read_block-Session {c} block s h within known whole =
      let named : length (codes "RDBK" ++ hex_field 4 block) ≡ 8 =
        omega (arith, length-hex_field 4 block) in
      let (s₁, sent, h₁) =
        send_command-Session version time _ _ fuel s h named
          (Answers-read_block version time known block within) in
      let (s₂, s₃, status, got, accepted, h₃) =
        read_answer-Session (block * blocksize) blocksize block default_timeout_ms s₁ h₁
          (omega arith) in
      (s₃, rw (lt→ltb block numblocks within, sent, status, got, accepted) refl, h₃)

  -- In a session with the emulated cartridge of the supported chip, erase_bank of a bank in
  -- range returns and fills that bank, as far as the chip reaches, with FF.
  pub erase_bank-Session :
      {c : Cartridge} (bank : ℕ) (s : SerialInterface (Port version time))
      → Session version time c none [] s
      → bank < numbanks
      → c.chip ≡ sst39sf020
      → Yields
          (erase_bank (Port version time) (enough fuel) bank s)
          (ok tt)
          (fill (bank * banksize) banksize c)
  unfolding erase_bank require_success
  erase_bank-Session {c} bank s h within known =
      let named : length (codes "ERBANK" ++ hex_field 2 bank) ≡ 8 =
        omega (arith, length-hex_field 2 bank) in
      let (s₁, sent, h₁) =
        send_command-Session version time _ _ fuel s h named
          (Answers-erase_bank version time known bank within) in
      let (s₂, status, h₂) = wait_for_status-Session 0 [] erase_timeout_ms s₁ h₁ in
      (s₂, rw (lt→ltb bank numbanks within, sent, status) refl, h₂)

  -- In a session with the emulated cartridge of the supported chip, erase_chip returns and
  -- fills the complete chip with FF.
  pub erase_chip-Session :
      {c : Cartridge} (s : SerialInterface (Port version time))
      → Session version time c none [] s
      → c.chip ≡ sst39sf020
      → Yields (erase_chip (Port version time) (enough fuel) s) (ok tt) (fill 0 romsize c)
  unfolding erase_chip require_success
  erase_chip-Session {c} s h known =
      let (s₁, sent, h₁) =
        send_command-Session version time _ _ fuel s h refl
          (Answers-erase_chip version time known) in
      let (s₂, status, h₂) = wait_for_status-Session 0 [] erase_timeout_ms s₁ h₁ in
      (s₂, rw (sent, status) refl, h₂)
