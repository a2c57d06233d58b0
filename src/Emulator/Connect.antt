-- ===== src/Emulator/Connect.antt =====
-- open_port and close_port of src/serial_interface.cpp on the emulated cartridge.
use p2000t_cartridge_studio.Bytes.{Bytes, is_empty}
use p2000t_cartridge_studio.Effects.{ok}
use p2000t_cartridge_studio.Serial.{SerialInterface}
use p2000t_cartridge_studio.Serial.Wire.{open_port, connect_port, close_port, port_is_open}
use p2000t_cartridge_studio.Emulator.{fresh_transport, close}
use p2000t_cartridge_studio.Emulator.Session.{Cartridge, Port, Session}
use p2000t_cartridge_studio.Base.{
  ℕ, ◌≡◌, refl, ◌∙◌, true, false, Option, none, [], append-nil, arith,
}

module _ (version : Bytes) (time : ℕ → ℕ) where
  -- The port is closed, and the cartridge that it leads to is `c`.
  pub record Attached (c : Cartridge) (s : SerialInterface (Port version time)) : Type 0 where
    pub contents_are : s.link.backend.flash ≡ c.contents
    pub chip_is : s.link.backend.chip_id ≡ c.chip
    pub identity_is : s.link.backend.board_info ≡ c.identity
    pub echo_intact : s.link.backend.corrupt_next_echo ≡ false
    pub crc_intact : s.link.backend.corrupt_next_read_crc ≡ false
    pub unchunked : s.link.read_chunk_size ≡ 0
    pub named : is_empty s.portname ≡ false
    pub absent : s.port ≡ false
    pub nothing_received : s.receive_buffer ≡ []

  -- Opening the port starts an idle session with the cartridge.
  pub open_port-Session :
      {c : Cartridge} (s : SerialInterface (Port version time))
      → Attached c s
      → (s' : SerialInterface (Port version time)) × (open_port (Port version time) s ≡ (ok tt, s'))
        × Session version time c none [] s'
  unfolding open_port connect_port fresh_transport
  open_port-Session s h =
      let fresh = fresh_transport version time s.link in
      let shut : port_is_open (Port version time) s ≡ false = ground (arith, h.absent) in
      (
        record s { port = true; link = record fresh { open_state = true } },
        rw (h.named, shut) refl,
        record {
          wired = record {
            contents_are = h.contents_are;
            chip_is = h.chip_is;
            identity_is = h.identity_is;
            echo_intact = h.echo_intact;
            crc_intact = h.crc_intact;
            is_opened = refl;
            nothing_unread = refl;
            unchunked = h.unchunked;
            payload_awaited = refl;
          };
          named = h.named;
          present = refl;
          on_the_way = append-nil _ ∙ h.nothing_received;
        },
      )

  -- Closing it ends any session.
  pub close_port-Attached :
      {c : Cartridge} {w : Option ℕ} {p : Bytes} (s : SerialInterface (Port version time))
      → Session version time c w p s
      → Attached c (close_port (Port version time) s)
  unfolding close_port close
  close_port-Attached s h =
      let usable : port_is_open (Port version time) s ≡ true =
        ground (arith, h.present, h.wired.is_opened) in
      rw usable (record {
        contents_are = h.wired.contents_are;
        chip_is = h.wired.chip_is;
        identity_is = h.wired.identity_is;
        echo_intact = h.wired.echo_intact;
        crc_intact = h.wired.crc_intact;
        unchunked = h.wired.unchunked;
        named = h.named;
        absent = refl;
        nothing_received = refl;
      })
