-- ===== src/Emulator/Exchange.antt =====
-- A command that is sent to the emulated cartridge, its echo, and its answer.
use p2000t_cartridge_studio.Bytes.{Bytes, bytes_eq_refl}
use p2000t_cartridge_studio.Effects.{ok}
use p2000t_cartridge_studio.Serial.{SerialInterface, default_timeout_ms}
use p2000t_cartridge_studio.Serial.Wire.{
  accepted, queue_bytes, drain_bytes, write_bytes, port_is_open,
}
use p2000t_cartridge_studio.Serial.Commands.{send_command}
use p2000t_cartridge_studio.Emulator.{
  Backend, Emulated, command_echo, queue_response, dispatch, handle_command, process_write_buffer,
  write,
}
use p2000t_cartridge_studio.Base.{
  ℕ, zero, suc, ◌+◌, ◌≡◌, refl, sym, ap, ◌∙◌, inl, inr, true, false, Option, none, some, [], ◌∷◌,
  ◌++◌, append_assoc, arith, ◌==◌, Bool-cases, length, take, drop, take-length, drop-length,
}
use p2000t_cartridge_studio.Emulator.Session.{
  Cartridge, Wired, Port, Session, looked, looked-Session, wait_for_response-Session,
}

module _ (version : Bytes) (time : ℕ → ℕ) where
  -- With nothing unread the emulator has nothing to do.
  pub process_idle :
      {c : Cartridge} {w : Option ℕ} (fuel : ℕ) (e : Emulated)
      → Wired c w e
      → process_write_buffer version time fuel e ≡ e
  unfolding process_write_buffer
  process_idle zero e h = refl
  process_idle (suc fuel) e h = elim (Bool-cases e.pending_block_write) [
    | inl awaits ↦ rw (awaits, h.nothing_unread) refl
    | inr idle ↦ rw (idle, h.nothing_unread) refl
  ]

  -- `command` makes the emulator send `response`, and takes cartridge `c` to `c'`.
  abbrev pub Answers : Cartridge → Cartridge → Option ℕ → Bytes → Bytes → Type 0
  Answers c c' w command response =
      (e : Emulated)
      → Wired c none e
      → Wired c' w (dispatch version time command e)
        × ((dispatch version time command e).read_buffer ≡ e.read_buffer ++ response)

  -- The emulator has echoed `command` and is about to act on it.
  heard : Bytes → Emulated → Emulated
  heard command e = queue_response command (record e {
    backend = record (e.backend) { command_history = e.backend.command_history ++ command ∷ [] };
    write_buffer = [];
  })

  heard-Wired :
      {c : Cartridge} (command : Bytes) (e : Emulated)
      → Wired c none e
      → Wired c none (heard command e)
  unfolding heard queue_response
  heard-Wired command e h = record {
    contents_are = h.contents_are;
    chip_is = h.chip_is;
    identity_is = h.identity_is;
    echo_intact = h.echo_intact;
    crc_intact = h.crc_intact;
    is_opened = h.is_opened;
    nothing_unread = refl;
    unchunked = h.unchunked;
    payload_awaited = h.payload_awaited;
  }

  echo_intact_lem :
      (command : Bytes) (b : Backend)
      → b.corrupt_next_echo ≡ false
      → command_echo command b ≡ (command, b)
  unfolding command_echo
  echo_intact_lem [] b h = refl
  echo_intact_lem (x ∷ command) b h = rw h refl

  handle_heard :
      {c : Cartridge} (command : Bytes) (e : Emulated)
      → Wired c none e
      → length command ≡ 8
      → handle_command version time (record e { write_buffer = command })
        ≡ dispatch version time command (heard command e)
  unfolding handle_command heard
  handle_heard command e h l =
      let whole : take 8 command ≡ command =
        ap (λ n. take n command) (sym l) ∙ take-length command in
      let none_left : drop 8 command ≡ [] =
        ap (λ n. drop n command) (sym l) ∙ drop-length command in
      let known = record (e.backend) {
        command_history = e.backend.command_history ++ command ∷ [];
      } in
      rw (whole, none_left, echo_intact_lem command known h.echo_intact) refl

  process_command :
      (fuel : ℕ) (e : Emulated)
      → e.pending_block_write ≡ false
      → length e.write_buffer ≡ 8
      → process_write_buffer version time (suc fuel) e
        ≡ process_write_buffer version time fuel (handle_command version time e)
  unfolding process_write_buffer
  process_command fuel e idle l = rw (idle, l) refl

  -- With nothing unread, `write` processes what it is given.
  pub write_opened :
      (content : Bytes) (size : ℕ) (e : Emulated)
      → e.open_state ≡ true
      → e.write_buffer ≡ []
      → length content ≡ size
      → write version time content e ≡ (
        some size,
        process_write_buffer version time (suc size) (record e { write_buffer = content }),
      )
  unfolding write
  write_opened content size e o n l =
      simp o refl
      ∙ ap
          (λ b. (
            some (length content),
            process_write_buffer version time (length (b ++ content) + 1)
                (record e { write_buffer = b ++ content }),
          ))
          n
      ∙ ap
          (λ k. (
            some k,
            process_write_buffer version time (k + 1) (record e { write_buffer = content }),
          ))
          l
      ∙ ap
          (λ k.
            (some size, process_write_buffer version time k (record e { write_buffer = content })))
          (omega arith)

  heard_buffer :
      (command : Bytes) (e : Emulated) → (heard command e).read_buffer ≡ e.read_buffer ++ command
  unfolding heard queue_response
  heard_buffer command e = refl

  -- A command written to an idle emulator leaves its echo and its answer on the way.
  write_command :
      {c c' : Cartridge} {w : Option ℕ} (command response : Bytes) (e : Emulated)
      → Wired c none e
      → length command ≡ 8
      → Answers c c' w command response
      → (e' : Emulated) × (write version time command e ≡ (some 8, e'))
        × Wired c' w e'
        × (e'.read_buffer ≡ e.read_buffer ++ (command ++ response))
  write_command command response e h l answers =
      let told = record e { write_buffer = command } in
      let e' = dispatch version time command (heard command e) in
      let (wired, sent) = answers (heard command e) (heard-Wired command e h) in
      let idle : e.pending_block_write ≡ false = ground (arith, h.payload_awaited) in
      let processed : process_write_buffer version time 9 told ≡ e' =
        process_command 8 told idle l
        ∙ ap (process_write_buffer version time 8) (handle_heard command e h l)
        ∙ process_idle 8 e' wired in
      (
        e',
        write_opened command 8 e h.is_opened h.nothing_unread l
            ∙ ap (λ (x : Emulated). (some 8, x)) processed,
        wired,
        sent
            ∙ ap (λ x. x ++ response) (heard_buffer command e)
            ∙ append_assoc e.read_buffer command response,
      )

  -- A write that the emulator takes whole ends write_bytes at once.
  pub write_bytes_taken :
      (fuel timeout_ms b : ℕ) (rest : Bytes) (s : SerialInterface (Port version time))
      (e' : Emulated)
      → write version time (b ∷ rest) (looked version time s).link ≡ (some (suc (length rest)), e')
      → write_bytes (Port version time) (suc (suc fuel)) (b ∷ rest) timeout_ms s
        ≡ (ok tt, record s { link = e' })
  unfolding write_bytes queue_bytes accepted drain_bytes looked
  write_bytes_taken fuel timeout_ms b rest s e' taken =
      let nonzero : (suc (length rest) == 0) ≡ false = ground arith in
      rw (taken, nonzero, drop-length rest) refl

  -- A command that the cartridge answers is sent, echoed and accepted, and its answer is on the way.
  pub send_command-Session :
      {c c' : Cartridge} {w : Option ℕ} (command response : Bytes) (fuel : ℕ)
      (s : SerialInterface (Port version time))
      → Session version time c none [] s
      → length command ≡ 8
      → Answers c c' w command response
      → (s' : SerialInterface (Port version time)) × (send_command
            (Port version time)
            (suc (suc fuel))
            command
            s
          ≡ (ok tt, s'))
        × Session version time c' w response s'
  unfolding send_command looked
  send_command-Session [] response fuel s h l answers = absurd (omega arith)
  send_command-Session (b ∷ rest) response fuel s h l answers =
      let command = b ∷ rest in
      let (e', written, wired, sent) =
        write_command command response (looked version time s).link
          (looked-Session version time h).wired l answers in
      let size : ◌≡◌ {A = Option ℕ × Emulated} (some 8, e') (some (suc (length rest)), e') =
        ap (λ k. (some k, e')) (sym l) in
      let taken = write_bytes_taken fuel default_timeout_ms b rest s e' (written ∙ size) in
      let echoed : Session version time _ _ (command ++ response) (record s { link = e' }) =
        record {
          wired = wired;
          named = h.named;
          present = h.present;
          on_the_way =
              ap (λ x. s.receive_buffer ++ x) sent
              ∙ sym (append_assoc s.receive_buffer s.link.read_buffer (command ++ response))
              ∙ ap (λ x. x ++ (command ++ response)) h.on_the_way;
        } in
      let (s', echo, h') =
        wait_for_response-Session version time command response 8 l (suc fuel) default_timeout_ms _
          echoed in
      let usable : port_is_open (Port version time) s ≡ true =
        ground (arith, h.present, h.wired.is_opened) in
      (s', rw (usable, l, taken, echo, bytes_eq_refl command) refl, h')
