-- ===== src/Device/Agreement/Heard.antt =====
-- Commands as they arrive: the parser of firmware/protocol.c, which is fed byte by byte, and the loop of
-- the emulated cartridge of the tests, which takes eight bytes off its buffer.
use p2000t_cartridge_studio.Bytes.{Bytes}
use p2000t_cartridge_studio.Emulator.{Backend, Emulated, command_echo, handle_command}
use p2000t_cartridge_studio.Device.Protocol.{ProtocolOps, Protocol, Fed, respond}
use p2000t_cartridge_studio.Device.Protocol.Silence.{listening}
use p2000t_cartridge_studio.Device.Protocol.Framing.{
  Arrival, bytes_of, InTime, Significant, feed_all, feed_all-eight,
}
use p2000t_cartridge_studio.Device.Agreement.{Implements, Agree, Waiting}
use p2000t_cartridge_studio.Device.Agreement.Dispatch.{respond-dispatch}
use p2000t_cartridge_studio.Base.{
  ℕ, suc, ◌≡◌, refl, sym, ap, subst, ◌∙◌, Bool, false, List, [], ◌∷◌, ◌++◌, arith, length,
}

-- The cartridge of the emulator, once the command is recorded.
abbrev pub recorded : Bytes → Backend → Backend
recorded command b = record b { command_history = b.command_history ++ command ∷ [] }

module _ {D : Type 0} (version : Bytes) (time : ℕ → ℕ) (ops : ProtocolOps D)
    (R : D → Backend → Type 0) (driver : Implements ops R) where
  -- Eight bytes in the buffer of the emulator, and an echo without a fault.
  buffered :
      (c₁ c₂ c₃ c₄ c₅ c₆ c₇ c₈ : ℕ) (p : Protocol) (d : D) (e : Emulated)
      → (let command = c₁ ∷ c₂ ∷ c₃ ∷ c₄ ∷ c₅ ∷ c₆ ∷ c₇ ∷ c₈ ∷ [] in
          Waiting p e
          → e.write_buffer ≡ command
          → e.backend.corrupt_next_echo ≡ false
          → R d (recorded command e.backend)
          → Agree R e.read_buffer (respond version ops command p d) (handle_command version time e))
  unfolding handle_command command_echo
  buffered c₁ c₂ c₃ c₄ c₅ c₆ c₇ c₈ p d e h full plain r =
      let command = c₁ ∷ c₂ ∷ c₃ ∷ c₄ ∷ c₅ ∷ c₆ ∷ c₇ ∷ c₈ ∷ [] in
      let ready : Bytes → Bool → Emulated = λ buffer spoilt. record e {
        backend = record (e.backend) { corrupt_next_echo = spoilt };
        write_buffer = buffer;
      } in
      let same : e ≡ ready command false = λ i. ready (full i) (plain i) in
      let P = λ (f : Emulated).
        Waiting p f
        → R d (recorded command f.backend)
        → Agree R f.read_buffer (respond version ops command p d) (handle_command version time f) in
      subst P (sym same)
        (λ waiting related.
          respond-dispatch version time ops R driver c₁ c₂ c₃ c₄ c₅ c₆ c₇ c₈ p d
            (record (ready [] false) { backend = recorded command (ready [] false).backend })
            waiting related)
        h r

  -- Seven bytes after the first.
  eight :
      (byte : ℕ) (rest : Bytes) (p : Protocol) (d : D) (e : Emulated)
      → length rest ≡ 7
      → Waiting p e
      → e.write_buffer ≡ byte ∷ rest
      → e.backend.corrupt_next_echo ≡ false
      → R d (recorded (byte ∷ rest) e.backend)
      → Agree R e.read_buffer
          (respond version ops (byte ∷ rest) p d)
          (handle_command version time e)
  eight c₁ (c₂ ∷ c₃ ∷ c₄ ∷ c₅ ∷ c₆ ∷ c₇ ∷ c₈ ∷ []) p d e size h full plain r =
      buffered c₁ c₂ c₃ c₄ c₅ c₆ c₇ c₈ p d e h full plain r
  eight c₁ [] p d e size h full plain r = absurd (omega (arith, size))
  eight c₁ (c₂ ∷ []) p d e size h full plain r = absurd (omega (arith, size))
  eight c₁ (c₂ ∷ c₃ ∷ []) p d e size h full plain r = absurd (omega (arith, size))
  eight c₁ (c₂ ∷ c₃ ∷ c₄ ∷ []) p d e size h full plain r = absurd (omega (arith, size))
  eight c₁ (c₂ ∷ c₃ ∷ c₄ ∷ c₅ ∷ []) p d e size h full plain r = absurd (omega (arith, size))
  eight c₁ (c₂ ∷ c₃ ∷ c₄ ∷ c₅ ∷ c₆ ∷ []) p d e size h full plain r = absurd (omega (arith, size))
  eight c₁ (c₂ ∷ c₃ ∷ c₄ ∷ c₅ ∷ c₆ ∷ c₇ ∷ []) p d e size h full plain r =
      absurd (omega (arith, size))
  eight c₁ (c₂ ∷ c₃ ∷ c₄ ∷ c₅ ∷ c₆ ∷ c₇ ∷ c₈ ∷ c₉ ∷ more) p d e size h full plain r =
      absurd (omega (arith, size))

  length-bytes_of : (xs : List Arrival) → length (bytes_of xs) ≡ length xs
  length-bytes_of [] = refl
  length-bytes_of ((ticks, byte) ∷ xs) = ap suc (length-bytes_of xs)

  -- For eight bytes that come to the parser of the firmware between commands, with a silence
  -- below 1000 ms before each, the first of them no CR or LF, and stand in the buffer of the
  -- emulator of the tests, with a driver of the flash that does what Implements says on the
  -- cartridge that the emulator stores once the command is recorded (of the supported chip,
  -- with its identity, and without injected faults), and both parties waiting for a command:
  -- the emulator appends exactly all that the firmware answers, followed by the bank and its
  -- CRC where the firmware announces a bank, both leave the same cartridge, and both await the
  -- payload of a write or neither, for the same block.
  pub feed_all-handle_command :
      (ticks : List ℕ) (byte : ℕ) (rest : List Arrival) (buffer : Bytes) (p : Protocol) (d : D)
      (e : Emulated)
      → length rest ≡ 7
      → length buffer ≡ 8
      → InTime ((ticks, byte) ∷ rest)
      → Significant byte
      → Waiting p e
      → e.write_buffer ≡ byte ∷ bytes_of rest
      → e.backend.corrupt_next_echo ≡ false
      → R d (recorded (byte ∷ bytes_of rest) e.backend)
      → Agree R e.read_buffer
          (feed_all version ops ((ticks, byte) ∷ rest) (listening 0 buffer p) d)
          (handle_command version time e)
  feed_all-handle_command ticks byte rest buffer p d e count size quick first h full plain r =
      let whole = byte ∷ bytes_of rest in
      subst (λ (x : Fed D). Agree R e.read_buffer x (handle_command version time e))
        (sym (feed_all-eight version ops ticks byte rest buffer p d count size quick first))
        (eight byte (bytes_of rest) (listening 0 whole p) d e (length-bytes_of rest ∙ count)
          (record {
            reads_command = refl;
            no_bank = h.no_bank;
            expects_command = h.expects_command;
          })
          full plain r)
