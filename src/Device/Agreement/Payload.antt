-- ===== src/Device/Agreement/Payload.antt =====
-- The payload of a write: firmware/protocol.c and the emulated cartridge of the tests.
use p2000t_cartridge_studio.RomSizes.{blocksize}
use p2000t_cartridge_studio.Bytes.{Bytes, u16_of}
use p2000t_cartridge_studio.Crc.{crc16_xmodem}
use p2000t_cartridge_studio.Emulator.{
  Backend, Emulated, program_range, queue_response, handle_payload,
}
use p2000t_cartridge_studio.Device.Protocol.{
  ProtocolOps, Protocol, protocol_crc, Fed, feed_payload, protocol_feed,
}
use p2000t_cartridge_studio.Device.Protocol.Framing.{take-set}
use p2000t_cartridge_studio.Device.Agreement.{Implements, Agree, bank_stream}
use p2000t_cartridge_studio.Device.Agreement.Commands.{chip_passed}
use p2000t_cartridge_studio.Base.{
  ℕ, ◌+◌, ◌*◌, ◌%◌, ◌^◌, ◌<◌, ◌≡◌, refl, sym, ap, subst, ◌∙◌, Bool, true, false, not, [], ◌∷◌, ◌++◌,
  append-nil, append_assoc, arith, ltb, ◌==◌, if◌then◌else◌, if_both, length, get_or, set, take,
  length-take, length-set, take-length,
}

-- In the payload, of which n bytes have come.
abbrev pub receiving : ℕ → Bytes → Protocol → Protocol
receiving n payload p = record p {
  payload = payload;
  received = n;
  idle_ms = 0;
  writing = true;
  failed = false;
}

module _ {D : Type 0} (version : Bytes) (ops : ProtocolOps D) where
  -- The parser is fed one byte after the other.
  unfoldable pub feed_each : Bytes → Protocol → D → Fed D
  feed_each [] p d = ([], p, d)
  feed_each (byte ∷ rest) p d =
      let (out, p₁, d₁) = protocol_feed version ops byte p d in
      let (more, p₂, d₂) = feed_each rest p₁ d₁ in (out ++ more, p₂, d₂)

  -- What the firmware does with a complete payload.
  abbrev pub written : Bytes → Protocol → D → Fed D
  written whole p d =
      let done = record p {
        payload = whole;
        received = 258;
        idle_ms = 0;
        writing = false;
        failed = false;
      } in
      let content = take 256 whole in
      let (value, d') = ops.program_block p.block content d in
      if u16_of (get_or whole 256 0) (get_or whole 257 0) == protocol_crc content
      then (value ∷ [], done, d')
      else (1 ∷ [], done, d)

  abbrev fed_after : Bytes → Fed D → Fed D
  fed_after rest r = let (more, p, d) = feed_each rest (r.1) (r.2) in (r.0 ++ more, p, d)

  stored :
      (byte n : ℕ) (payload : Bytes) (p : Protocol) (d : D)
      → n < 257
      → protocol_feed version ops byte (receiving n payload p) d
        ≡ ([], receiving (n + 1) (set payload n byte) p, d)
  unfolding protocol_feed feed_payload
  stored byte n payload p d short =
      let next : (n + 1) % 2 ^ 16 ≡ n + 1 = omega arith in
      let few : ltb ((n + 1) % 2 ^ 16) 258 ≡ true = ground arith in
      if_both (λ (r : Fed D). r ≡ ([], receiving (n + 1) (set payload n byte) p, d))
        (ltb ((n + 1) % 2 ^ 16) 258) _ _
        (λ _. ap (λ (k : ℕ). ([], receiving k (set payload n byte) p, d)) next)
        (λ many. absurd (ground (arith, few, many)))

  completed :
      (byte : ℕ) (payload : Bytes) (p : Protocol) (d : D)
      → protocol_feed version ops byte (receiving 257 payload p) d
        ≡ written (set payload 257 byte) p d
  unfolding protocol_feed feed_payload
  completed byte payload p d = refl

  feed_rest :
      (byte : ℕ) (rest : Bytes) (n : ℕ) (payload : Bytes) (p : Protocol) (d : D)
      → length rest + n ≡ 257
      → length payload ≡ 258
      → feed_each (byte ∷ rest) (receiving n payload p) d
        ≡ written (take n payload ++ byte ∷ rest) p d
  unfolding feed_each
  feed_rest byte [] n payload p d count size =
      let last : n ≡ 257 = omega arith in
      let whole : set payload 257 byte ≡ take 257 payload ++ byte ∷ [] =
        sym (take-length (set payload 257 byte))
        ∙ ap (λ (k : ℕ). take k (set payload 257 byte)) (length-set payload 257 byte ∙ size)
        ∙ take-set 257 payload byte (omega arith) in
      let end = written (take 257 payload ++ byte ∷ []) p d in
      subst
        (λ (k : ℕ).
          feed_each (byte ∷ []) (receiving k payload p) d
          ≡ written (take k payload ++ byte ∷ []) p d)
        (sym last)
        (ap (fed_after []) (completed byte payload p d ∙ ap (λ (c : Bytes). written c p d) whole)
          ∙ ap (λ (o : Bytes). (o, end.1, end.2)) (append-nil (end.0)))
  feed_rest byte (byte₂ ∷ rest) n payload p d count size =
      let kept : take (n + 1) (set payload n byte) ++ byte₂ ∷ rest
          ≡ take n payload ++ byte ∷ byte₂ ∷ rest =
        ap (λ (c : Bytes). c ++ byte₂ ∷ rest) (take-set n payload byte (omega arith))
        ∙ append_assoc (take n payload) (byte ∷ []) (byte₂ ∷ rest) in
      ap (fed_after (byte₂ ∷ rest)) (stored byte n payload p d (omega arith))
      ∙ feed_rest byte₂ rest (n + 1) (set payload n byte) p d (omega arith)
          (length-set payload n byte ∙ size)
      ∙ ap (λ (c : Bytes). written c p d) kept

both_not :
    {A B : Type 0} (P : A → B → Type 0) (t : Bool) (x x' : A) (y y' : B)
    → P x y
    → P x' y'
    → P (if t then x else x') (if not t then y' else y)
both_not P true x x' y y' h k = h
both_not P false x x' y y' h k = k

module _ {D : Type 0} (version : Bytes) (time : ℕ → ℕ) (ops : ProtocolOps D)
    (R : D → Backend → Type 0) (driver : Implements ops R) where
  answer_of :
      (before : Bytes) (v w : ℕ) (stream : Bytes)
      → v ≡ w
      → stream ≡ []
      → before ++ w ∷ [] ≡ before ++ (v ∷ stream)
  answer_of before v w stream same_value none_left =
      ap (λ (x : ℕ). before ++ x ∷ []) (sym same_value)
      ∙ ap (λ (s : Bytes). before ++ (v ∷ s)) (sym none_left)

  written_agrees :
      (whole : Bytes) (p : Protocol) (d : D) (e : Emulated)
      → length whole ≡ 258
      → p.bank_read_pending ≡ false
      → p.block < 1024
      → R d e.backend
      → Agree R e.read_buffer
          (written version ops whole p d)
          (handle_payload version time (record e { write_buffer = whole; pending_block = p.block }))
  unfolding handle_payload queue_response protocol_crc crc16_xmodem
  written_agrees whole p d e size quiet inside r =
      let content = take 256 whole in
      let size_of_content : length content ≡ 256 = omega (arith, length-take 256 whole) in
      let (value, kept) = driver.programs d e.backend p.block content inside size_of_content r in
      let no_stream = λ (flash : Bytes). ap (λ (b : Bool). bank_stream b p.bank flash) quiet in
      let result = ops.program_block p.block content d in
      let done = record p {
        payload = whole;
        received = 258;
        idle_ms = 0;
        writing = false;
        failed = false;
      } in
      both_not (Agree R e.read_buffer)
        (u16_of (get_or whole 256 0) (get_or whole 257 0) == crc16_xmodem content) _ _ _ _
        (chip_passed version time ops R driver
          (Agree R e.read_buffer (result.0 ∷ [], done, result.1)) d e.backend _ _ r
          (record {
            output =
                answer_of e.read_buffer (result.0) _ _ value
                  (no_stream (program_range (p.block * blocksize) content e.backend).1.flash);
            board = kept;
            mode = refl;
            target = λ w. absurd (ground (arith, w));
          }))
        (record {
          output = answer_of e.read_buffer 1 1 _ refl (no_stream e.backend.flash);
          board = r;
          mode = refl;
          target = λ w. absurd (ground (arith, w));
        })

  -- For every payload of 258 bytes of a write to a block in range, with such a driver, the
  -- firmware, fed one byte after the other, gives exactly the status that the emulator of the
  -- tests appends for the payload (wrong CRC, bits that would have to be set, or success), both
  -- leave the same cartridge, and both wait for a command again.
  pub feed_each-handle_payload :
      (byte : ℕ) (rest payload : Bytes) (p : Protocol) (d : D) (e : Emulated)
      → length rest ≡ 257
      → length payload ≡ 258
      → p.bank_read_pending ≡ false
      → p.block < 1024
      → R d e.backend
      → Agree R e.read_buffer (feed_each version ops (byte ∷ rest) (receiving 0 payload p) d) (
          handle_payload version time
            (record e { write_buffer = byte ∷ rest; pending_block = p.block }))
  feed_each-handle_payload byte rest payload p d e count size quiet inside r =
      subst
        (λ (x : Fed D). Agree R e.read_buffer x (
          handle_payload version time
            (record e { write_buffer = byte ∷ rest; pending_block = p.block })))
        (sym (feed_rest version ops byte rest 0 payload p d (omega arith) size))
        (written_agrees (byte ∷ rest) p d e (omega arith) quiet inside r)
