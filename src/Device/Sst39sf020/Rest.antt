-- ===== src/Device/Sst39sf020/Rest.antt =====
-- firmware/sst39sf020.c: what its operations leave on the pins, and that on the way no two drivers meet.
use p2000t_cartridge_studio.Bytes.{Bytes}
use p2000t_cartridge_studio.Device.Sst39sf020.{
  Pins, Event, pins_written, delayed_us, delayed_ms, pind_read, serviced, Chip, happen, set_ddrd,
  set_portd, set_ce, release, idle, latch, address, command_write, id_command, unlock, erase_prefix,
  read_byte, sst_read_id, read_bytes, sst_read_block,
}
use p2000t_cartridge_studio.Base.{
  ℕ, zero, suc, ◌+◌, ◌*◌, ◌^◌, ◌<◌, ◌≡◌, refl, sym, subst, Bool, true, false, not, ◌&&◌, ◌||◌, List,
  [], ◌∷◌, arith, leb, ◌==◌, if_both,
}

-- The controller drives port D while the flash does.
abbrev pub fights : Pins → Bool
fights p = not p.ce && not p.oe && not (p.ddrd == 0)

-- A write pulse outside of a write cycle: without the data, without the address, or while the flash drives.
abbrev pub stray_write : Pins → Bool
stray_write p = not p.we && not (p.oe && not p.ce && not p.addr_oe && p.ddrd == 255)

-- A latch that is open while the controller does not drive its inputs.
abbrev pub blind_latch : Pins → Bool
blind_latch p = (p.le_low || p.le_high || p.le_upper) && not (p.ddrd == 255)

-- The first two for control lines that are driven, the last for latch lines that are.
abbrev pub quiet : Pins → Bool
quiet p = not (p.b_outputs && (fights p || stray_write p)) && not (p.f_outputs && blind_latch p)

abbrev pub quiet_event : Event → Bool
quiet_event (pins_written p) = quiet p
quiet_event (delayed_us n) = true
quiet_event (delayed_ms n) = true
quiet_event pind_read = true
quiet_event serviced = true

abbrev pub all_quiet : List Event → Bool
all_quiet [] = true
all_quiet (e ∷ es) = quiet_event e && all_quiet es

-- Nothing is selected and every latch is closed.
abbrev pub resting : Bool → ℕ → ℕ → Pins
resting addr_oe ddrd portd = record {
  we = true;
  ce = true;
  oe = true;
  addr_oe = addr_oe;
  le_low = false;
  le_high = false;
  le_upper = false;
  b_outputs = true;
  f_outputs = true;
  ddrd = ddrd;
  portd = portd;
}

-- As `idle` leaves them.
abbrev pub released : Pins
released = resting true 0 0

pub record Calm (c : Chip) : Type 0 where
  pub addr_oe : Bool
  pub ddrd : ℕ
  pub portd : ℕ
  pub at_rest : c.pins ≡ resting addr_oe ddrd portd
  pub undisturbed : all_quiet c.events ≡ true

abbrev at : Pins → List Event → Chip
at p es = record { pins = p; events = es }

pub at_rest_by :
    (f : Chip → Chip)
    → ((a : Bool) (d v : ℕ) (es : List Event)
        → all_quiet es ≡ true
        → Calm (f (at (resting a d v) es)))
    → (c : Chip) → Calm c
    → Calm (f c)
at_rest_by f step c h =
    subst (λ (p : Pins). Calm (f (at p c.events))) (sym h.at_rest)
      (step h.addr_oe h.ddrd h.portd c.events h.undisturbed)

-- Calm, and as `idle` leaves the pins.
pub record Settled (c : Chip) : Type 0 where
  pub at_rest : c.pins ≡ released
  pub undisturbed : all_quiet c.events ≡ true

pub Settled-Calm : (c : Chip) → Settled c → Calm c
Settled-Calm c h = record {
  addr_oe = true;
  ddrd = 0;
  portd = 0;
  at_rest = h.at_rest;
  undisturbed = h.undisturbed;
}

pub idle-Settled : (c : Chip) → Calm c → Settled (idle c)
unfolding idle
idle-Settled c h =
    subst (λ (p : Pins). Settled (idle (at p c.events))) (sym h.at_rest)
      (record { at_rest = refl; undisturbed = h.undisturbed })

pub command_write-Calm : (addr value : ℕ) (c : Chip) → Calm c → Calm (command_write addr value c)
unfolding command_write address latch
command_write-Calm addr value c h =
    at_rest_by (command_write addr value)
      (λ a d v es q. record {
        addr_oe = false;
        ddrd = 255;
        portd = value;
        at_rest = refl;
        undisturbed = q;
      })
      c h

pub happen-Calm : (e : Event) (c : Chip) → quiet_event e ≡ true → Calm c → Calm (happen e c)
happen-Calm e c q h = record {
  addr_oe = h.addr_oe;
  ddrd = h.ddrd;
  portd = h.portd;
  at_rest = h.at_rest;
  undisturbed = subst (λ (b : Bool). b && all_quiet c.events ≡ true) (sym q) h.undisturbed;
}

pub id_command-Calm : (command : ℕ) (c : Chip) → Calm c → Calm (id_command command c)
unfolding id_command
id_command-Calm command c h = happen-Calm (delayed_us 150) _ refl (
    command_write-Calm 21845 command _
      (command_write-Calm 10922 85 _ (command_write-Calm 21845 170 c h)))

pub unlock-Calm : (c : Chip) → Calm c → Calm (unlock c)
unlock-Calm c h = command_write-Calm 10922 85 _ (command_write-Calm 21845 170 c h)

pub erase_prefix-Calm : (c : Chip) → Calm c → Calm (erase_prefix c)
erase_prefix-Calm c h = unlock-Calm _ (command_write-Calm 21845 128 _ (unlock-Calm c h))

module _ (pind : List Event → ℕ) where
  pub read_byte-Calm : (addr : ℕ) (c : Chip) → Calm c → Calm (read_byte pind addr c).1
  unfolding read_byte address latch
  read_byte-Calm addr c h =
      at_rest_by (λ (c : Chip). (read_byte pind addr c).1)
        (λ a d v es q. record {
          addr_oe = false;
          ddrd = 0;
          portd = 0;
          at_rest = refl;
          undisturbed = q;
        })
        c h

  pub sst_read_id-Settled : (c : Chip) → Calm c → Settled (sst_read_id pind c).1
  unfolding sst_read_id
  sst_read_id-Settled c h =
      idle-Settled _
        (id_command-Calm 240 _ (read_byte-Calm 1 _ (read_byte-Calm 0 _ (id_command-Calm 144 c h))))

  -- During a sequential read: the chip is selected, and the flash drives the bus unless `oe`.
  abbrev pub reading : Bool → Pins
  reading oe = record (resting false 0 0) { ce = false; oe = oe }

  pub record Reading (c : Chip) : Type 0 where
    pub oe : Bool
    pub selected : c.pins ≡ reading oe
    pub undisturbed : all_quiet c.events ≡ true

  read_bytes-Reading : (left i : ℕ) (c : Chip) → Reading c → Reading (read_bytes pind left i c).1
  unfolding read_bytes latch
  read_bytes-Reading zero i c h = h
  read_bytes-Reading (suc left) i c h =
      subst (λ (p : Pins). Reading (read_bytes pind (suc left) i (at p c.events)).1)
        (sym h.selected)
        (read_bytes-Reading left (i + 1) _
          (record { oe = false; selected = refl; undisturbed = h.undisturbed }))

  addressed :
      (addr : ℕ) (c : Chip)
      → Calm c
      → Reading (set_ce false (set_portd 0 (set_ddrd 0 (address addr c))))
  unfolding address latch
  addressed addr c h =
      subst
        (λ (p : Pins).
          Reading (set_ce false (set_portd 0 (set_ddrd 0 (address addr (at p c.events))))))
        (sym h.at_rest) (record { oe = true; selected = refl; undisturbed = h.undisturbed })

  released_after : (c : Chip) → Reading c → Settled (idle (release c))
  unfolding idle
  released_after c h =
      subst (λ (p : Pins). Settled (idle (release (at p c.events)))) (sym h.selected)
        (record { at_rest = refl; undisturbed = h.undisturbed })

  -- A block that exists; for another one nothing happens.
  pub sst_read_block-Settled :
      (block : ℕ) (c : Chip) → block < 1024 → Calm c → Settled (sst_read_block pind block c).2
  unfolding sst_read_block
  sst_read_block-Settled block c h calm =
      if_both (λ (r : ℕ × Bytes × Chip). Settled (r.2)) (leb 1024 block) _ _
        (λ outside. absurd (ground (arith, outside, h)))
        (λ inside. released_after _ (read_bytes-Reading 256 0 _ (addressed (block * 2 ^ 8) c calm)))

  pub sst_read_block_settles :
      (block : ℕ) (c : Chip) → Settled c → Settled (sst_read_block pind block c).2
  unfolding sst_read_block
  sst_read_block_settles block c h =
      if_both (λ (r : ℕ × Bytes × Chip). Settled (r.2)) (leb 1024 block) _ _ (λ outside. h)
        (λ inside.
          released_after _
            (read_bytes-Reading 256 0 _ (addressed (block * 2 ^ 8) c (Settled-Calm c h))))
