-- ===== src/Device/Sst39sf020/Cycles.antt =====
-- firmware/sst39sf020.c: the bus cycles that the states of the pins make. Three latches hold the address;
-- a rising WE ends a write.
use p2000t_cartridge_studio.Device.Sst39sf020.{
  Pins, Event, pins_written, delayed_us, delayed_ms, pind_read, serviced, Chip, happen, idle, latch,
  address, command_write, read_byte,
}
use p2000t_cartridge_studio.Device.Sst39sf020.Rest.{resting}
use p2000t_cartridge_studio.Base.{
  ℕ, ◌+◌, ◌*◌, ◌/◌, ◌%◌, ◌^◌, ◌<◌, bit_and, ◌≡◌, refl, sym, ap, subst, ◌∙◌, Bool, true, false, not,
  ◌&&◌, List, [], ◌∷◌, arith, if◌then◌else◌, bit_and_step, bit_and-one,
}

pub data Cycle : Type 0 where
  read_cycle : ℕ → Cycle
  write_cycle : ℕ → ℕ → Cycle

-- The latches, whether WE and CE are low, and the cycles so far, the last one first.
pub record Bus : Type 0 where
  pub low_latch : ℕ
  pub high_latch : ℕ
  pub upper_latch : ℕ
  pub write_enabled : Bool
  pub read_enabled : Bool
  pub cycles : List Cycle

abbrev pub bus_address : Bus → ℕ
bus_address b = b.upper_latch * 2 ^ 16 + b.high_latch * 2 ^ 8 + b.low_latch

abbrev pub next_bus : Event → Bus → Bus
next_bus (pins_written p) b = record {
  low_latch = if p.le_low then p.portd else b.low_latch;
  high_latch = if p.le_high then p.portd else b.high_latch;
  upper_latch = if p.le_upper then p.portd else b.upper_latch;
  write_enabled = not p.we && not p.ce;
  read_enabled = not p.oe && not p.ce;
  cycles =
      if b.write_enabled && p.we then write_cycle (bus_address b) p.portd ∷ b.cycles else b.cycles;
}
next_bus (delayed_us n) b = b
next_bus (delayed_ms n) b = b
next_bus pind_read b = record b {
  cycles = if b.read_enabled then read_cycle (bus_address b) ∷ b.cycles else b.cycles;
}
next_bus serviced b = b

abbrev pub bus_after : List Event → Bus
bus_after [] = record {
  low_latch = 0;
  high_latch = 0;
  upper_latch = 0;
  write_enabled = false;
  read_enabled = false;
  cycles = [];
}
bus_after (e ∷ es) = next_bus e (bus_after es)

abbrev pub all_of : (Cycle → Bool) → List Cycle → Bool
all_of ok [] = true
all_of ok (c ∷ cs) = ok c && all_of ok cs

-- Between two cycles, after cycles that pass a test.
pub record Passed (ok : Cycle → Bool) (c : Chip) : Type 0 where
  pub addr_oe : Bool
  pub ddrd : ℕ
  pub portd : ℕ
  pub at_rest : c.pins ≡ resting addr_oe ddrd portd
  pub no_write : (bus_after c.events).write_enabled ≡ false
  pub all_passed : all_of ok (bus_after c.events).cycles ≡ true

abbrev at : Pins → List Event → Chip
at p es = record { pins = p; events = es }

-- The address that the latches keep of a number.
latched :
    (addr : ℕ)
    → addr < 2 ^ 18
    → bit_and (addr / 2 ^ 16) 3 % 2 ^ 8 * 2 ^ 16 + addr / 2 ^ 8 % 2 ^ 8 * 2 ^ 8 + addr % 2 ^ 8
      ≡ addr
latched addr inside =
    let high = addr / 2 ^ 16 in
    let two_bits : bit_and high 3 ≡ high % 4 =
      omega (arith, bit_and_step high 3, bit_and-one (high / 2)) in
    omega (arith, two_bits, inside)

both_true : (a b : Bool) → a ≡ true → b ≡ true → a && b ≡ true
both_true true b h k = k
both_true false b h k = h

module _ (ok : Cycle → Bool) where
  no_new :
      (t : Bool) (x y : List Cycle)
      → t ≡ false
      → all_of ok y ≡ true
      → all_of ok (if t && true then x else y) ≡ true
  no_new true x y h k = absurd (ground (arith, h))
  no_new false x y h k = k

  from_rest :
      (f : Chip → Chip)
      → ((a : Bool) (d v : ℕ) (es : List Event)
          → (bus_after es).write_enabled ≡ false
          → all_of ok (bus_after es).cycles ≡ true
          → Passed ok (f (at (resting a d v) es)))
      → (c : Chip) → Passed ok c
      → Passed ok (f c)
  from_rest f step c h =
      subst (λ (p : Pins). Passed ok (f (at p c.events))) (sym h.at_rest)
        (step h.addr_oe h.ddrd h.portd c.events h.no_write h.all_passed)

  pub idle-Passed : (c : Chip) → Passed ok c → Passed ok (idle c)
  unfolding idle
  idle-Passed c h =
      from_rest idle
        (λ a d v es n q. record {
          addr_oe = true;
          ddrd = 0;
          portd = 0;
          at_rest = refl;
          no_write = refl;
          all_passed = no_new (bus_after es).write_enabled _ _ n q;
        })
        c h

  pub command_write-Passed :
      (addr value : ℕ) (c : Chip)
      → addr < 2 ^ 18
      → ok (write_cycle addr value) ≡ true
      → Passed ok c
      → Passed ok (command_write addr value c)
  unfolding command_write address latch
  command_write-Passed addr value c inside allowed h =
      from_rest (command_write addr value)
        (λ a d v es n q. record {
          addr_oe = false;
          ddrd = 255;
          portd = value;
          at_rest = refl;
          no_write = refl;
          all_passed =
              both_true
                (ok (
                  write_cycle
                    (bit_and (addr / 2 ^ 16) 3 % 2 ^ 8 * 2 ^ 16
                      + addr / 2 ^ 8 % 2 ^ 8 * 2 ^ 8
                      + addr % 2 ^ 8)
                    value))
                _ (ap (λ (x : ℕ). ok (write_cycle x value)) (latched addr inside) ∙ allowed)
                (no_new (bus_after es).write_enabled _ _ n q);
        })
        c h

  pub happen-Passed :
      (e : Event) (c : Chip)
      → next_bus e (bus_after c.events) ≡ bus_after c.events
      → Passed ok c
      → Passed ok (happen e c)
  happen-Passed e c same h = record {
    addr_oe = h.addr_oe;
    ddrd = h.ddrd;
    portd = h.portd;
    at_rest = h.at_rest;
    no_write = ap (λ (b : Bus). b.write_enabled) same ∙ h.no_write;
    all_passed = ap (λ (b : Bus). all_of ok b.cycles) same ∙ h.all_passed;
  }

  module _ (pind : List Event → ℕ) (reads_pass : (addr : ℕ) → ok (read_cycle addr) ≡ true) where
    pub read_byte-Passed : (addr : ℕ) (c : Chip) → Passed ok c → Passed ok (read_byte pind addr c).1
    unfolding read_byte address latch
    read_byte-Passed addr c h =
        from_rest (λ (c : Chip). (read_byte pind addr c).1)
          (λ a d v es n q. record {
            addr_oe = false;
            ddrd = 0;
            portd = 0;
            at_rest = refl;
            no_write = refl;
            all_passed =
                both_true
                  (ok (
                    read_cycle (
                      bit_and (addr / 2 ^ 16) 3 % 2 ^ 8 * 2 ^ 16
                      + addr / 2 ^ 8 % 2 ^ 8 * 2 ^ 8
                      + addr % 2 ^ 8)))
                  _ (reads_pass _) (no_new (bus_after es).write_enabled _ _ n q);
          })
          c h
