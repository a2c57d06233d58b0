-- ===== src/Device/Main.antt =====
-- firmware/main.c: the main loop, which joins the parser, the flash and the USB serial line. The USB
-- library is a parameter.
pub mod Sending
use p2000t_cartridge_studio.Bytes.{Bytes, is_empty}
use p2000t_cartridge_studio.Device.Protocol.{
  ProtocolOps, Protocol, protocol_reset, protocol_tick, protocol_take_bank_read,
  protocol_crc_update, protocol_feed,
}
use p2000t_cartridge_studio.Base.{
  ℕ, zero, suc, ◌+◌, ◌-◌, ◌*◌, ◌/◌, ◌%◌, ◌^◌, ◌⊎◌, inl, inr, Bool, true, false, not, ◌&&◌, Option,
  none, some, [], ◌∷◌, ◌==◌, if◌then◌else◌,
}

-- What main.c calls: sst39sf020.c on the board, and the USB library. `usb_task` stands for
-- CDC_Device_USBTask and USB_USBTask, and a send that succeeds returns true.
pub record Board (B : Type 0) : Type 0 where
  pub sst_read_id : B → Bytes × B
  pub sst_read_block : ℕ → B → ℕ × Bytes × B
  pub sst_program_block : ℕ → Bytes → B → ℕ × B
  pub sst_erase : B → ℕ × B
  pub sst_erase_bank : ℕ → B → ℕ × B
  pub configured : B → Bool
  pub dtr : B → Bool
  pub frame_number : B → ℕ
  pub receive_byte : B → Option ℕ × B
  pub send_byte : ℕ → B → B
  pub send_data : Bytes → B → Bool × B
  pub wdt_reset : B → B
  pub usb_task : B → B
  -- Whether the USB library has called the handler of a configuration change or of a disconnection, which
  -- it does inside its own functions, since the last look at this.
  pub parser_events : B → Bool × B
  pub flush : B → B
  pub delay_ms : ℕ → B → B
  pub detach : B → B
  -- Interrupts off, the key at 0AFE, and the watchdog, which resets into the bootloader.
  pub restart : B → B

-- The variable `boot_requested` with the board.
pub record Host (B : Type 0) : Type 0 where
  pub boot_requested : Bool
  pub board : B

module _ {B : Type 0} (T : Board B) where
  abbrev on_board : {A : Type 0} → (B → A × B) → Host B → A × Host B
  on_board f h = let (a, b) = f h.board in (a, record h { board = b })

  abbrev pub request_boot : Host B → Host B
  request_boot h = record h { boot_requested = true }

  -- `operations`.
  abbrev pub operations : ProtocolOps (Host B)
  operations = record {
    read_id = λ h. (let (id, b) = T.sst_read_id h.board in (id, record h { board = b }));
    read_block = λ block h.
        (let (value, content, b) = T.sst_read_block block h.board in
          (value, content, record h { board = b }));
    program_block = λ block content h.
        (let (value, b) = T.sst_program_block block content h.board in
          (value, record h { board = b }));
    erase = λ h. (let (value, b) = T.sst_erase h.board in (value, record h { board = b }));
    erase_bank = λ bank h.
        (let (value, b) = T.sst_erase_bank bank h.board in (value, record h { board = b }));
    boot = request_boot;
  }

  -- EVENT_USB_Device_ConfigurationChanged and EVENT_USB_Device_Disconnect: the parser is read again only
  -- where this stands.
  unfoldable pub after_events : Protocol → Host B → Protocol × Host B
  after_events p h =
      let (reset, b) = T.parser_events h.board in
      (if reset then protocol_reset p else p, record h { board = b })

  unfoldable pub sst_service : B → B
  sst_service b = T.usb_task (T.wdt_reset b)

  -- The loop of send_bank: `left` blocks from `block` on; the CRC so far, or none after a failure.
  unfoldable pub send_blocks : ℕ → ℕ → ℕ → B → Option ℕ × B
  send_blocks zero block crc b = (some crc, b)
  send_blocks (suc left) block crc b =
      let (value, content, b₁) = T.sst_read_block block b in
      let (sent, b₂) = T.send_data content b₁ in
      let later = send_blocks left (block + 1) (protocol_crc_update crc content) b₂ in
      if not (value == 0) then (none, b₁) else if not sent then (none, b₂) else later

  unfoldable pub finish_bank : Option ℕ × B → Bool × B
  finish_bank (none, b) = (false, b)
  finish_bank (some crc, b) = T.send_data (crc / 2 ^ 8 ∷ crc % 256 ∷ []) b

  unfoldable pub send_bank : ℕ → B → Bool × B
  unfolding send_blocks finish_bank
  send_bank bank b = finish_bank (send_blocks 64 (bank * 2 ^ 6) 0 b)

  -- After a response was sent.
  unfoldable pub serve_bank : Option ℕ → Protocol → Host B → Protocol × Host B
  unfolding send_bank
  serve_bank none p h = (p, h)
  serve_bank (some bank) p h =
      let (sent, b) = send_bank bank h.board in
      if sent then (p, record h { board = b }) else (protocol_reset p, record h { board = b })

  unfoldable pub reply : Bytes → Protocol → Host B → Protocol × Host B
  unfolding serve_bank after_events
  reply response p h =
      let (sent, b) = T.send_data response h.board in
      let (p₁, h₁) = after_events p (record h { board = b }) in
      let (bank, p₂) = protocol_take_bank_read p₁ in
      let (p₃, h₃) = serve_bank bank p₂ h₁ in
      if is_empty response
      then (p, h)
      else if not sent
      then (protocol_reset p₁, h₁)
      else after_events p₃ h₃

  -- A byte that came in while the port was ready.
  unfoldable pub handle_byte : Bytes → ℕ → Protocol → Host B → Protocol × Host B
  unfolding reply
  handle_byte version byte p h =
      let (response, p', h') = protocol_feed version operations byte p h in reply response p' h'

-- The variables of the main loop.
pub record Machine (B : Type 0) : Type 0 where
  pub parser : Protocol
  pub last_frame : ℕ
  pub host : Host B

module _ {B : Type 0} (T : Board B) (version : Bytes) where
  unfoldable pub take_byte : Bool → Option ℕ → Protocol → Host B → Protocol × Host B
  unfolding handle_byte
  take_byte false byte p h = (protocol_reset p, h)
  take_byte true none p h = (p, h)
  take_byte true (some byte) p h = handle_byte T version byte p h

  -- The loop before `for(;;)` at its end: 50 rounds of service.
  unfoldable pub settle : ℕ → B → B
  unfolding sst_service
  settle zero b = b
  settle (suc n) b = settle n (T.delay_ms 1 (sst_service T b))

  -- What `boot_requested` makes of a round: the board when the controller restarts, or the next round.
  unfoldable pub end_round : Protocol → ℕ → Host B → B ⊎ Machine B
  unfolding settle
  end_round p frame h =
      if h.boot_requested
      then inl (T.restart (T.detach (settle 50 (T.flush h.board))))
      else inr (record { parser = p; last_frame = frame; host = h })

  -- A round of the main loop. The difference of the frame numbers is one of 11 bits.
  unfoldable pub round : Machine B → B ⊎ Machine B
  unfolding take_byte end_round
  round m =
      let b₀ = T.wdt_reset m.host.board in
      let ready = T.configured b₀ && T.dtr b₀ in
      let frame = T.frame_number b₀ in
      let (late, p₁) = protocol_tick ((frame + 2 ^ 16 - m.last_frame) % 2 ^ 16 % 2 ^ 11) m.parser in
      let b₁ = if late then T.send_byte 7 b₀ else b₀ in
      let (byte, b₂) = T.receive_byte b₁ in
      let (p₂, h₂) = after_events T p₁ (record (m.host) { board = b₂ }) in
      let (p₃, h₃) = take_byte ready byte p₂ h₂ in
      let (p₄, h₄) = after_events T p₃ (record h₃ { board = T.usb_task h₃.board }) in
      end_round p₄ frame h₄
