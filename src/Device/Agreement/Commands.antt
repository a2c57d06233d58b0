-- ===== src/Device/Agreement/Commands.antt =====
-- The answers to single commands: firmware/protocol.c and the emulated cartridge of the tests.
use p2000t_cartridge_studio.RomSizes.{blocksize, banksize}
use p2000t_cartridge_studio.Bytes.{Bytes, mid}
use p2000t_cartridge_studio.Crc.{crc16_xmodem}
use p2000t_cartridge_studio.Emulator.{
  Backend, Emulated, sst39sf020, queue_response, respond_range, read_range, erase_bank_command,
  write_block_command, erase_all,
}
use p2000t_cartridge_studio.Device.Protocol.{
  ProtocolOps, Protocol, protocol_crc, Fed, read_bank_command, erase_bank_response,
  read_block_response, block_command,
}
use p2000t_cartridge_studio.Base.{
  ℕ, ◌*◌, ◌≤◌, ◌≡◌, refl, sym, ap, subst, ◌∙◌, Bool, true, false, not, Option, some, [], ◌∷◌, ◌++◌,
  append-nil, append_assoc, arith, ltb, ◌==◌, if◌then◌else◌, if_both,
}
use p2000t_cartridge_studio.Device.Agreement.{
  Implements, with_crc, bank_stream, Agree, Waiting, respond_range_plain,
}
use p2000t_cartridge_studio.Device.Agreement.Digits.{Same, malformed, too_large, same}

module _ {D : Type 0} (version : Bytes) (time : ℕ → ℕ) (ops : ProtocolOps D)
    (R : D → Backend → Type 0) (driver : Implements ops R) where
  -- The emulator has echoed the command.
  abbrev echoed : Bytes → Emulated → Emulated
  echoed command e = queue_response command e

  sent :
      (before command answer stream : Bytes)
      → stream ≡ []
      → before ++ command ++ answer ≡ before ++ (command ++ answer ++ stream)
  sent before command answer stream none_left =
      append_assoc before command answer
      ∙ ap (λ (x : Bytes). before ++ x)
          (sym (append-nil (command ++ answer))
            ∙ ap (λ (s : Bytes). command ++ answer ++ s) (sym none_left))

  -- An answer of bytes, after which both parties wait for a command.
  pub answered :
      (command answer : Bytes) (p : Protocol) (d : D) (e : Emulated)
      → Waiting p e
      → R d e.backend
      → Agree R e.read_buffer (command ++ answer, p, d) (queue_response answer (echoed command e))
  unfolding queue_response
  answered command answer p d e h r = record {
    output =
        sent e.read_buffer command answer _
          (ap (λ (b : Bool). bank_stream b p.bank e.backend.flash) h.no_bank);
    board = r;
    mode = h.reads_command ∙ sym h.expects_command;
    target = λ w. absurd (ground (arith, w, h.reads_command));
  }

  -- The same of the firmware's status and of a cartridge that the driver has changed.
  answered_status :
      (command : Bytes) (value : ℕ) (result : ℕ × D) (b : Backend) (p : Protocol) (e : Emulated)
      → Waiting p e
      → result.0 ≡ value
      → R (result.1) b
      → Agree R e.read_buffer
          (command ++ result.0 ∷ [], p, result.1)
          (queue_response (value ∷ []) (record (echoed command e) { backend = b }))
  unfolding queue_response
  answered_status command value result b p e h equal r =
      subst
        (λ (v : ℕ).
          Agree R e.read_buffer (command ++ v ∷ [], p, result.1)
            (queue_response (value ∷ []) (record (echoed command e) { backend = b })))
        (sym equal) (answered command (value ∷ []) p (result.1) (record e { backend = b }) h r)

  -- Past the emulator's test for the chip.
  pub chip_passed :
      {A : Type 0} (P : A → Type 0) (d : D) (b : Backend) (x y : A)
      → R d b
      → P y
      → P (if not (b.chip_id == sst39sf020) then x else y)
  chip_passed P d b x y r h =
      let known : not (b.chip_id == sst39sf020) ≡ false = ground (arith, driver.supported d b r) in
      subst (λ (t : Bool). P (if t then x else y)) (sym known) h

  pub erase_all_agrees :
      (command : Bytes) (p : Protocol) (d : D) (e : Emulated)
      → Waiting p e
      → R d e.backend
      → Agree R e.read_buffer
          (command ++ (ops.erase d).0 ∷ [], p, (ops.erase d).1)
          (erase_all (echoed command e))
  unfolding erase_all queue_response
  erase_all_agrees command p d e h r =
      let (zero_status, erased) = driver.erases d e.backend r in
      chip_passed (Agree R e.read_buffer (command ++ (ops.erase d).0 ∷ [], p, (ops.erase d).1)) d
        e.backend _ _ r (answered_status command 0 (ops.erase d) _ p e h zero_status erased)

  pub erase_bank_agrees :
      (x y : Option ℕ) (command : Bytes) (p : Protocol) (d : D) (e : Emulated)
      → Same 16 x y
      → Waiting p e
      → R d e.backend
      → Agree R e.read_buffer
          (erase_bank_response version ops command y p d)
          (erase_bank_command x (echoed command e))
  unfolding erase_bank_response erase_bank_command queue_response
  erase_bank_agrees _ _ command p d e malformed h r = answered command (2 ∷ []) p d e h r
  erase_bank_agrees _ _ command p d e (too_large v far) h r =
      if_both (λ (x : Fed D). Agree R e.read_buffer x (queue_response (2 ∷ []) (echoed command e)))
        (ltb v 16) _ _ (λ near. absurd (ground (arith, near, far)))
        (λ _. answered command (2 ∷ []) p d e h r)
  erase_bank_agrees _ _ command p d e (same v near) h r =
      let (zero_status, erased) = driver.erases_bank d e.backend v near r in
      if_both
        (λ (x : Fed D). Agree R e.read_buffer x (erase_bank_command (some v) (echoed command e)))
        (ltb v 16) _ _
        (λ _.
          chip_passed
            (Agree R e.read_buffer
              (command ++ (ops.erase_bank v d).0 ∷ [], p, (ops.erase_bank v d).1))
            d e.backend _ _ r
            (answered_status command 0 (ops.erase_bank v d) _ p e h zero_status erased))
        (λ far. absurd (ground (arith, near, far)))

  pub read_bank_agrees :
      (x y : Option ℕ) (command : Bytes) (p : Protocol) (d : D) (e : Emulated)
      → Same 16 x y
      → Waiting p e
      → R d e.backend
      → Agree R e.read_buffer
          (read_bank_command version ops command y p d)
          (read_range x banksize (echoed command e))
  unfolding read_bank_command read_range respond_range queue_response
  read_bank_agrees _ _ command p d e malformed h r = answered command (2 ∷ []) p d e h r
  read_bank_agrees _ _ command p d e (too_large v far) h r =
      if_both (λ (x : Fed D). Agree R e.read_buffer x (queue_response (2 ∷ []) (echoed command e)))
        (ltb v 16) _ _ (λ near. absurd (ground (arith, near, far)))
        (λ _. answered command (2 ∷ []) (record p { bank = v }) d e h r)
  read_bank_agrees _ _ command p d e (same v near) h r =
      let content = mid (v * banksize) banksize e.backend.flash in
      let announced = record p { bank = v; bank_read_pending = true } in
      if_both
        (λ (x : Fed D). Agree R e.read_buffer x (read_range (some v) banksize (echoed command e)))
        (ltb v 16) _ _
        (λ _.
          chip_passed (Agree R e.read_buffer (command ++ 0 ∷ [], announced, d)) d e.backend _ _ r (
            subst (Agree R e.read_buffer (command ++ 0 ∷ [], announced, d))
              (sym (
                respond_range_plain (v * banksize) banksize (echoed command e)
                  (driver.faultless d e.backend r)))
              (record {
                output =
                    append_assoc e.read_buffer command (0 ∷ with_crc content)
                    ∙ ap (λ (x : Bytes). e.read_buffer ++ x)
                        (sym (append_assoc command (0 ∷ []) (with_crc content)));
                board = r;
                mode = h.reads_command ∙ sym h.expects_command;
                target = λ w. absurd (ground (arith, w, h.reads_command));
              })))
        (λ far. absurd (ground (arith, near, far)))

  block_response :
      (command content : Bytes) (result : ℕ × Bytes × D) (p : Protocol)
      → result.0 ≡ 0
      → result.1 ≡ content
      → read_block_response version ops command result p
        ≡ (command ++ (0 ∷ with_crc content), p, result.2)
  unfolding read_block_response protocol_crc crc16_xmodem
  block_response command content result p done equal =
      subst
        (λ (v : ℕ).
          read_block_response version ops command (v, result.1, result.2) p
          ≡ (command ++ (0 ∷ with_crc content), p, result.2))
        (sym done) (ap (λ (c : Bytes). (command ++ (0 ∷ with_crc c), p, result.2)) equal)

  -- The same for a command that is refused.
  refused_block :
      (v : ℕ) (command : Bytes) (p : Protocol) (d : D) (e : Emulated) (accepted : Fed D)
      → 1024 ≤ v
      → Waiting p e
      → R d e.backend
      → Agree R e.read_buffer
          (if not (ltb v 1024) then (command ++ 2 ∷ [], record p { block = v }, d) else accepted)
          (queue_response (2 ∷ []) (echoed command e))
  refused_block v command p d e accepted far h r =
      if_both (λ (x : Fed D). Agree R e.read_buffer x (queue_response (2 ∷ []) (echoed command e)))
        (not (ltb v 1024)) _ accepted
        (λ _. answered command (2 ∷ []) (record p { block = v }) d e h r)
        (λ near. absurd (ground (arith, near, far)))

  pub block_agrees :
      (write : Bool) (x y : Option ℕ) (command : Bytes) (p : Protocol) (d : D) (e : Emulated)
      → Same 1024 x y
      → Waiting p e
      → R d e.backend
      → Agree R e.read_buffer (block_command version ops write command y p d) (
          if write
          then write_block_command x (echoed command e)
          else read_range x blocksize (echoed command e))
  unfolding block_command write_block_command read_range queue_response read_block_response
      protocol_crc
  block_agrees true _ _ command p d e malformed h r = answered command (2 ∷ []) p d e h r
  block_agrees false _ _ command p d e malformed h r = answered command (2 ∷ []) p d e h r
  block_agrees true _ _ command p d e (too_large v far) h r =
      refused_block v command p d e _ far h r
  block_agrees false _ _ command p d e (too_large v far) h r =
      refused_block v command p d e _ far h r
  block_agrees true _ _ command p d e (same v near) h r =
      let announced = record p { block = v; writing = true; received = 0 } in
      if_both
        (λ (x : Fed D). Agree R e.read_buffer x (write_block_command (some v) (echoed command e)))
        (not (ltb v 1024)) _ _ (λ far. absurd (ground (arith, near, far)))
        (λ _. record {
          output =
              sent e.read_buffer command (0 ∷ []) _
                (ap (λ (b : Bool). bank_stream b p.bank e.backend.flash) h.no_bank);
          board = r;
          mode = refl;
          target = λ w. (refl, refl);
        })
  block_agrees false _ _ command p d e (same v near) h r =
      let named = record p { block = v } in
      let content = mid (v * blocksize) blocksize e.backend.flash in
      let result = ops.read_block v d in
      let (done, equal, kept) = driver.reads d e.backend v near r in
      if_both
        (λ (x : Fed D). Agree R e.read_buffer x (read_range (some v) blocksize (echoed command e)))
        (not (ltb v 1024)) _ _ (λ far. absurd (ground (arith, near, far)))
        (λ _.
          chip_passed (Agree R e.read_buffer (read_block_response version ops command result named))
            d e.backend _ _ r
            (subst (Agree R e.read_buffer (read_block_response version ops command result named))
              (sym (
                respond_range_plain (v * blocksize) blocksize (echoed command e)
                  (driver.faultless d e.backend r)))
              (subst
                (λ (x : Fed D).
                  Agree R e.read_buffer x
                    (queue_response (0 ∷ with_crc content) (echoed command e)))
                (sym (block_response command content result named done equal))
                (answered command (0 ∷ with_crc content) named (result.2) e h kept))))
