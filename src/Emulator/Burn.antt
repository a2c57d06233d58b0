-- ===== src/Emulator/Burn.antt =====
-- burn_block of src/serial_interface.cpp against the emulated cartridge.
use p2000t_cartridge_studio.RomSizes.{romsize, blocksize, numblocks}
use p2000t_cartridge_studio.Bytes.{Bytes, IsBytes, mid, overwrite, u16_of, u16_of_lem}
use p2000t_cartridge_studio.Crc.{crc16_xmodem}
use p2000t_cartridge_studio.Crc.Detection.{crc16_xmodem-lt}
use p2000t_cartridge_studio.Text.{codes, hex_field, length-hex_field}
use p2000t_cartridge_studio.Effects.{Result, ok, err, pure}
use p2000t_cartridge_studio.Serial.{SerialInterface, Failure, status_failed, default_timeout_ms}
use p2000t_cartridge_studio.Serial.Commands.{require_success, status_description, burn_block}
use p2000t_cartridge_studio.Emulator.{
  Backend, Emulated, sst39sf020, clears_bits, program_range, queue_response, process_write_buffer,
  handle_payload, write,
}
use p2000t_cartridge_studio.Emulator.Session.{
  Cartridge, Wired, Port, Session, looked, looked-Session,
}
use p2000t_cartridge_studio.Emulator.Exchange.{
  send_command-Session, write_bytes_taken, write_opened, process_idle,
}
use p2000t_cartridge_studio.Emulator.Answers.{Answers-write_block}
use p2000t_cartridge_studio.Emulator.Protocol.{enough, Yields, wait_for_status-Session}
use p2000t_cartridge_studio.Base.{
  ℕ, suc, ◌+◌, ◌*◌, ◌/◌, ◌%◌, ◌^◌, ◌≤◌, ◌<◌, ◌≡◌, refl, sym, ap, ◌∙◌, inl, inr, Bool, true, false,
  none, some, [], ◌∷◌, ◌++◌, append_assoc, arith, ltb, ◌==◌, if◌then◌else◌, Bool-cases, lt→ltb,
  length, drop, length-append, get_or_append_exact, drop-length, take_append_exact,
}

-- The cartridge with `content` in a block.
abbrev pub programmed : ℕ → Bytes → Cartridge → Cartridge
programmed block content c = record c {
  contents = overwrite (block * blocksize) content c.contents;
}

-- The status of a write, and what the cartridge then holds.
abbrev write_status : Bool → ℕ
write_status possible = if possible then 0 else 6

abbrev pub after_write : Bool → ℕ → Bytes → Cartridge → Cartridge
after_write possible block content c = if possible then programmed block content c else c

-- The payload that burn_block sends.
abbrev payload : Bytes → Bytes
payload content = content ++ (crc16_xmodem content / 2 ^ 8 % 256 ∷ crc16_xmodem content % 256 ∷ [])

length-payload :
    (content : Bytes) → length content ≡ blocksize → length (payload content) ≡ blocksize + 2
length-payload content sized = omega (
  arith,
  length-append content (crc16_xmodem content / 2 ^ 8 % 256 ∷ crc16_xmodem content % 256 ∷ []),
)

module _ (version : Bytes) (time : ℕ → ℕ) where
  process_payload :
      (fuel : ℕ) (e : Emulated)
      → e.pending_block_write ≡ true
      → length e.write_buffer ≡ blocksize + 2
      → process_write_buffer version time (suc fuel) e
        ≡ process_write_buffer version time fuel (handle_payload version time e)
  unfolding process_write_buffer
  process_payload fuel e awaits l = rw (awaits, l) refl

  -- The emulator after the payload of block `block`, whose buffer held nothing else.
  settled : Bool → ℕ → Bytes → Emulated → Emulated
  settled possible block content e = queue_response (write_status possible ∷ []) (record e {
    write_buffer = [];
    pending_block_write = false;
    backend =
        if possible
        then record (e.backend) { flash = overwrite (block * blocksize) content e.backend.flash }
        else e.backend;
  })

  program_range_lem :
      (offset size : ℕ) (content : Bytes) (b : Backend)
      → length content ≡ size
      → offset + size ≤ length b.flash
      → program_range offset content b ≡ (
        clears_bits (mid offset size b.flash) content,
        if clears_bits (mid offset size b.flash) content
            then record b { flash = overwrite offset content b.flash }
            else b,
      )
  unfolding program_range
  program_range_lem offset size content b sized fits =
      let room : ltb (length b.flash) (offset + length content) ≡ false = ground arith in
      elim (Bool-cases (clears_bits (mid offset size b.flash) content)) [
        | inl can ↦ rw (room, sized, can) refl
        | inr cannot ↦ rw (room, sized, cannot) refl
      ]

  handle_payload_lem :
      (content : Bytes) (e : Emulated)
      → length content ≡ blocksize
      → IsBytes content
      → (e.backend.chip_id == sst39sf020) ≡ true
      → e.pending_block * blocksize + blocksize ≤ length e.backend.flash
      → handle_payload version time (record e { write_buffer = payload content })
        ≡ settled
            (clears_bits (mid (e.pending_block * blocksize) blocksize e.backend.flash) content)
            e.pending_block
            content
            e
  unfolding handle_payload settled
  handle_payload_lem content e sized bytes known fits =
      let crc = crc16_xmodem content in
      let tail = crc / 2 ^ 8 % 256 ∷ crc % 256 ∷ [] in
      let agree : (u16_of (crc / 2 ^ 8 % 256) (crc % 256) == crc) ≡ true =
        ground (arith, crc16_xmodem-lt content bytes, u16_of_lem (crc / 2 ^ 8 % 256) (crc % 256)) in
      let gone : drop (blocksize + 2) (payload content) ≡ [] =
        ap (λ (n : ℕ). drop n (payload content)) (sym (length-payload content sized))
        ∙ drop-length (payload content) in
      rw
        (
          take_append_exact blocksize content tail sized,
          get_or_append_exact blocksize 0 blocksize content tail 0 sized (omega arith),
          get_or_append_exact blocksize 1 (blocksize + 1) content tail 0 sized (omega arith),
          agree,
          known,
          gone,
          program_range_lem (e.pending_block * blocksize) blocksize content e.backend sized fits,
        )
        refl

  settled-Wired :
      {c : Cartridge} (possible : Bool) (block : ℕ) (content : Bytes) (e : Emulated)
      → Wired c (some block) e
      → Wired (after_write possible block content c) none (settled possible block content e)
  unfolding settled queue_response
  settled-Wired true block content e h = record {
    contents_are = ap (overwrite (block * blocksize) content) h.contents_are;
    chip_is = h.chip_is;
    identity_is = h.identity_is;
    echo_intact = h.echo_intact;
    crc_intact = h.crc_intact;
    is_opened = h.is_opened;
    nothing_unread = refl;
    unchunked = h.unchunked;
    payload_awaited = refl;
  }
  settled-Wired false block content e h = record {
    contents_are = h.contents_are;
    chip_is = h.chip_is;
    identity_is = h.identity_is;
    echo_intact = h.echo_intact;
    crc_intact = h.crc_intact;
    is_opened = h.is_opened;
    nothing_unread = refl;
    unchunked = h.unchunked;
    payload_awaited = refl;
  }

  settled_buffer :
      (possible : Bool) (block : ℕ) (content : Bytes) (e : Emulated)
      → (settled possible block content e).read_buffer ≡ e.read_buffer ++ write_status possible ∷ []
  unfolding settled queue_response
  settled_buffer possible block content e = refl

  -- A payload written to an emulator that waits for it.
  write_payload :
      {c : Cartridge} (block : ℕ) (content : Bytes) (e : Emulated)
      → Wired c (some block) e
      → length content ≡ blocksize
      → IsBytes content
      → c.chip ≡ sst39sf020
      → block * blocksize + blocksize ≤ length c.contents
      → let possible = clears_bits (mid (block * blocksize) blocksize c.contents) content in
        (e' : Emulated) × (write version time (payload content) e ≡ (some (blocksize + 2), e'))
        × Wired (after_write possible block content c) none e'
        × (e'.read_buffer ≡ e.read_buffer ++ write_status possible ∷ [])
  write_payload {c} block content e h sized bytes known fits =
      let possible = clears_bits (mid (block * blocksize) blocksize c.contents) content in
      let e' = settled possible block content e in
      let told = record e { write_buffer = payload content } in
      let awaits : e.pending_block_write ≡ true = ground (arith, h.payload_awaited) in
      let this : e.pending_block ≡ block = ground (arith, h.payload_awaited) in
      let handled : handle_payload version time told ≡ e' =
        handle_payload_lem content e sized bytes (ground arith)
          (omega (arith, ap (λ (x : Bytes). length x) h.contents_are))
        ∙ ap
            (λ (k : ℕ).
              settled (clears_bits (mid (k * blocksize) blocksize e.backend.flash) content) k
                content e)
            this
        ∙ ap
            (λ (f : Bytes).
              settled (clears_bits (mid (block * blocksize) blocksize f) content) block content e)
            h.contents_are in
      let wired = settled-Wired possible block content e h in
      let processed : process_write_buffer version time (suc (blocksize + 2)) told ≡ e' =
        process_payload (blocksize + 2) told awaits (length-payload content sized)
        ∙ ap (process_write_buffer version time (blocksize + 2)) handled
        ∙ process_idle version time (blocksize + 2) e' wired in
      (
        e',
        write_opened version time (payload content) (blocksize + 2) e h.is_opened h.nothing_unread
              (length-payload content sized)
            ∙ ap (λ (x : Emulated). (some (blocksize + 2), x)) processed,
        wired,
        settled_buffer possible block content e,
      )

module _ (version : Bytes) (time : ℕ → ℕ) (fuel : ℕ) where
  -- What burn_block returns for a status that the cartridge sent.
  abbrev pub write_outcome : Bool → ℕ → Result Failure (Unit {0})
  write_outcome possible block =
      if possible
      then ok tt
      else err (status_failed (codes "WRBK" ++ hex_field 4 block) 6 (status_description 6))

  finish :
      (possible : Bool) (block : ℕ) (s : SerialInterface (Port version time))
      → require_success
          (Port version time)
          (enough fuel)
          (write_status possible)
          (codes "WRBK" ++ hex_field 4 block)
          s
        ≡ (write_outcome possible block, s)
  unfolding require_success
  finish true block s = refl
  finish false block s = refl

  success :
      (operation : Bytes) → require_success (Port version time) (enough fuel) 0 operation ≡ pure tt
  unfolding require_success
  success operation = refl

  -- In a session with the emulated cartridge of the supported chip with 256 KiB, burn_block
  -- with 256 bytes on a block in range programs the block and returns if that only clears bits,
  -- and otherwise throws status 6 and leaves the cartridge as it was.
  pub burn_block-Session :
      {c : Cartridge} (block : ℕ) (content : Bytes) (s : SerialInterface (Port version time))
      → Session version time c none [] s
      → block < numblocks
      → length content ≡ blocksize
      → IsBytes content
      → c.chip ≡ sst39sf020
      → length c.contents ≡ romsize
      → let possible = clears_bits (mid (block * blocksize) blocksize c.contents) content in
        Yields version time fuel
          (burn_block (Port version time) (enough fuel) block content s)
          (write_outcome possible block)
          (after_write possible block content c)
  unfolding burn_block looked
  burn_block-Session {c} block [] s h within sized bytes known whole = absurd (omega arith)
  burn_block-Session {c} block (b ∷ rest) s h within sized bytes known whole =
      let content = b ∷ rest in
      let possible = clears_bits (mid (block * blocksize) blocksize c.contents) content in
      let named : length (codes "WRBK" ++ hex_field 4 block) ≡ 8 =
        omega (arith, length-hex_field 4 block) in
      let (s₁, sent, h₁) =
        send_command-Session version time _ _ fuel s h named
          (Answers-write_block version time {c = c} block within) in
      let (s₂, ready, h₂) =
        wait_for_status-Session version time fuel 0 [] default_timeout_ms s₁ h₁ in
      let (e', written, wired, buffered) =
        write_payload version time block content (looked version time s₂).link
          (looked-Session version time h₂).wired sized bytes known (omega arith) in
      let taken =
        write_bytes_taken version time fuel default_timeout_ms b _ s₂ e'
          (written ∙ ap (λ (k : ℕ). (some k, e')) (sym (length-payload content sized))) in
      let s₃ = record s₂ { link = e' } in
      let (s₄, status, h₄) =
        wait_for_status-Session version time fuel (write_status possible) [] default_timeout_ms s₃
          (record {
            wired = wired;
            named = h₂.named;
            present = h₂.present;
            on_the_way =
                ap (λ x. s₂.receive_buffer ++ x) buffered
                ∙ sym (append_assoc s₂.receive_buffer s₂.link.read_buffer _)
                ∙ ap (λ x. x ++ write_status possible ∷ []) h₂.on_the_way;
          }) in
      (
        s₄,
        rw (lt→ltb block numblocks within, sized, sent, ready, success, taken, status)
            (finish possible block s₄),
        h₄,
      )
