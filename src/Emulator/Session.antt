-- ===== src/Emulator/Session.antt =====
-- A session with the emulated cartridge: what is on the way to the host, and how a command and its
-- answer change that. The children of Emulator use it for each command.
use p2000t_cartridge_studio.Bytes.{Bytes, is_empty}
use p2000t_cartridge_studio.Effects.{ok, pure}
use p2000t_cartridge_studio.Transport.{SerialTransport}
use p2000t_cartridge_studio.Serial.{SerialInterface}
use p2000t_cartridge_studio.Serial.Wire.{receive, gather, wait_for_response}
use p2000t_cartridge_studio.Emulator.{Emulated, read_all, emulated_transport}
use p2000t_cartridge_studio.Base.{
  ℕ, suc, ◌+◌, ◌-◌, ◌≤◌, ◌≡◌, refl, sym, ap, subst, ◌∙◌, inl, inr, true, false, ◌||◌, Option, none,
  some, [], ◌++◌, append-nil, arith, ltb, leb, if◌then◌else◌, Bool-cases, length, take, drop,
  length-append, take-length, drop-length, take_append_exact, drop_append_exact, take-append_le,
  drop-append_le,
}

-- What a host can observe of a cartridge: the specification that the emulator refines.
pub record Cartridge : Type 0 where
  pub contents : Bytes
  pub chip : ℕ
  pub identity : Bytes

-- The emulator is open, holds `c`, waits for the payload of block `w` if there is one, and injects
-- no fault.
pub record Wired (c : Cartridge) (w : Option ℕ) (e : Emulated) : Type 0 where
  pub contents_are : e.backend.flash ≡ c.contents
  pub chip_is : e.backend.chip_id ≡ c.chip
  pub identity_is : e.backend.board_info ≡ c.identity
  pub echo_intact : e.backend.corrupt_next_echo ≡ false
  pub crc_intact : e.backend.corrupt_next_read_crc ≡ false
  pub is_opened : e.open_state ≡ true
  pub nothing_unread : e.write_buffer ≡ []
  pub unchunked : e.read_chunk_size ≡ 0
  pub payload_awaited : (if e.pending_block_write then some e.pending_block else none) ≡ w

module _ (version : Bytes) (time : ℕ → ℕ) where
  abbrev pub Port : SerialTransport
  Port = emulated_transport version time

  -- `incoming` is sent by the emulator and not yet returned by wait_for_response.
  pub record Session (c : Cartridge) (w : Option ℕ) (incoming : Bytes) (s : SerialInterface Port)
      : Type 0 where
    pub wired : Wired c w s.link
    pub named : is_empty s.portname ≡ false
    pub present : s.port ≡ true
    pub on_the_way : s.receive_buffer ++ s.link.read_buffer ≡ incoming

  read_all_lem :
      (e : Emulated)
      → e.read_chunk_size ≡ 0
      → read_all version time e ≡ (
        e.read_buffer,
        record e { read_buffer = []; ready_read_pending = ltb 0 0 || e.ready_read_pending },
      )
  unfolding read_all
  read_all_lem e h = rw h (ground (arith, take-length e.read_buffer, drop-length e.read_buffer))

  -- A reading of the clock changes nothing that a session speaks of.
  unfoldable pub looked : SerialInterface Port → SerialInterface Port
  looked s = record s { link = record (s.link) { looks = s.link.looks + 1 } }

  module _ {c : Cartridge} {w : Option ℕ} {p : Bytes} where
    pub looked-Session : {s : SerialInterface Port} → Session c w p s → Session c w p (looked s)
    unfolding looked
    looked-Session h = record {
      wired = record {
        contents_are = h.wired.contents_are;
        chip_is = h.wired.chip_is;
        identity_is = h.wired.identity_is;
        echo_intact = h.wired.echo_intact;
        crc_intact = h.wired.crc_intact;
        is_opened = h.wired.is_opened;
        nothing_unread = h.wired.nothing_unread;
        unchunked = h.wired.unchunked;
        payload_awaited = h.wired.payload_awaited;
      };
      named = h.named;
      present = h.present;
      on_the_way = h.on_the_way;
    }

    -- `receive` moves all that is on the way into the buffer.
    receive-Session :
        (s : SerialInterface Port)
        → Session c w p s
        → (s' : SerialInterface Port) × (receive Port s ≡ (ok tt, s'))
          × Session c w p s'
          × (s'.receive_buffer ≡ p)
    unfolding receive
    receive-Session s h = (
      record s {
        receive_buffer = s.receive_buffer ++ s.link.read_buffer;
        link = record (s.link) {
          read_buffer = [];
          ready_read_pending = ltb 0 0 || s.link.ready_read_pending;
        };
      },
      rw (read_all_lem s.link h.wired.unchunked) refl,
      record {
        wired = record {
          contents_are = h.wired.contents_are;
          chip_is = h.wired.chip_is;
          identity_is = h.wired.identity_is;
          echo_intact = h.wired.echo_intact;
          crc_intact = h.wired.crc_intact;
          is_opened = h.wired.is_opened;
          nothing_unread = h.wired.nothing_unread;
          unchunked = h.wired.unchunked;
          payload_awaited = h.wired.payload_awaited;
        };
        named = h.named;
        present = h.present;
        on_the_way = append-nil _ ∙ h.on_the_way;
      },
      h.on_the_way,
    )

    -- With enough on the way, the loop of wait_for_response ends in its first round.
    gather-Session :
        (fuel start size timeout_ms : ℕ) (s : SerialInterface Port)
        → Session c w p s
        → size ≤ length p
        → (s' : SerialInterface Port) × (gather Port (suc fuel) start size timeout_ms s
            ≡ (ok tt, s'))
          × Session c w p s'
    unfolding gather looked
    gather-Session fuel start size timeout_ms s h long =
        elim (Bool-cases (leb size (length s.receive_buffer))) [
          | inl held ↦ (s, rw held refl, h)
          | inr short ↦ elim (Bool-cases (leb timeout_ms (time s.link.looks - start))) [
            | inl late ↦ (looked s, rw (short, late) refl, looked-Session h)
            | inr early ↦
                let (s', got, h', all) = receive-Session (looked s) (looked-Session h) in
                let enough : leb size (length s'.receive_buffer) ≡ true = rw all (ground arith) in
                (s', rw (short, early, got, enough) refl, h')
          ]
        ]

  -- Taking `size` bytes off a buffer that holds them.
  module _ {c : Cartridge} {w : Option ℕ} (response rest : Bytes) (size : ℕ)
      (sized : length response ≡ size) where
    deliver-Session :
        (s : SerialInterface Port)
        → Session c w (response ++ rest) s
        → size ≤ length s.receive_buffer
        → (take size s.receive_buffer ≡ response)
          × Session c w rest (record s { receive_buffer = drop size s.receive_buffer })
    deliver-Session s h long =
        let whole = s.receive_buffer ++ s.link.read_buffer in
        (
          sym (take-append_le size s.receive_buffer s.link.read_buffer long)
              ∙ ap (take size) h.on_the_way
              ∙ take_append_exact size response rest sized,
          record {
            wired = h.wired;
            named = h.named;
            present = h.present;
            on_the_way =
                sym (drop-append_le size s.receive_buffer s.link.read_buffer long)
                ∙ ap (drop size) h.on_the_way
                ∙ drop_append_exact size response rest sized;
          },
        )

    fill-Session :
        (s : SerialInterface Port)
        → Session c w (response ++ rest) s
        → (s' : SerialInterface Port) × ((if ltb (length s.receive_buffer) size
                then receive Port
                else pure tt)
              s
            ≡ (ok tt, s'))
          × Session c w (response ++ rest) s'
          × (size ≤ length s'.receive_buffer)
    fill-Session s h = elim (Bool-cases (ltb (length s.receive_buffer) size)) [
      | inl short ↦
          let (s', got, h', all) = receive-Session s h in
          (s', rw short got, h', rw all (omega (arith, length-append response rest)))
      | inr held ↦ (s, rw held refl, h, ground arith)
    ]

    -- If the emulator has sent a response of the awaited size, wait_for_response returns it
    -- with one round of fuel, whatever the clock and the timeout, and what was sent behind it
    -- stays on the way.
    pub wait_for_response-Session :
        (fuel timeout_ms : ℕ) (s : SerialInterface Port)
        → Session c w (response ++ rest) s
        → (s' : SerialInterface Port) × (wait_for_response Port (suc fuel) size timeout_ms s
            ≡ (ok response, s'))
          × Session c w rest s'
    unfolding wait_for_response looked
    wait_for_response-Session fuel timeout_ms s h =
        let long : size ≤ length (response ++ rest) = omega (arith, length-append response rest) in
        let (s₁, gathered, h₁) =
          gather-Session fuel (time s.link.looks) size timeout_ms (looked s) (looked-Session h)
            long in
        let (s₂, filled, h₂, held) = fill-Session s₁ h₁ in
        let (taken, h₃) = deliver-Session s₂ h₂ held in
        let enough : leb size (length s₂.receive_buffer) ≡ true = ground arith in
        (
          record s₂ { receive_buffer = drop size s₂.receive_buffer },
          rw (gathered, filled, enough, taken) refl,
          h₃,
        )

  -- The same where nothing follows the response.
  pub wait_for_last-Session :
      {c : Cartridge} {w : Option ℕ} (response : Bytes) (size fuel timeout_ms : ℕ)
      (s : SerialInterface Port)
      → length response ≡ size
      → Session c w response s
      → (s' : SerialInterface Port) × (wait_for_response Port (suc fuel) size timeout_ms s
          ≡ (ok response, s'))
        × Session c w [] s'
  wait_for_last-Session {c} {w} response size fuel timeout_ms s sized h =
      wait_for_response-Session response [] size sized fuel timeout_ms s
        (subst (λ x. Session c w x s) (sym (append-nil response)) h)
