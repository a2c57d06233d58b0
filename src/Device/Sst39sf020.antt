-- ===== src/Device/Sst39sf020.antt =====
-- firmware/sst39sf020.c: the driver of the flash, at the level of the controller's pins. PORTB, PORTF and
-- their directions are the bits that the driver names; DDRD and PORTD are bytes. What is on the other side
-- of the pins is a parameter: the value of PIND as a function of everything the driver did so far.
pub mod Update
pub mod Rest
pub mod Safety
pub mod Cycles
pub mod Writes
pub mod Inside
use p2000t_cartridge_studio.Bytes.{Bytes}
use p2000t_cartridge_studio.Base.{
  ℕ, zero, suc, ◌+◌, ◌-◌, ◌*◌, ◌/◌, ◌%◌, ◌^◌, ◌≤◌, ◌<◌, min, max, bit_and, bit_or, bit_xor, ◌≡◌,
  refl, sym, ap, subst, ◌∙◌, ◌≢◌, ◌↔◌, ◌⊎◌, inl, inr, Bool, true, false, not, ◌&&◌, ◌||◌, Option,
  none, some, List, [], ◌∷◌, ◌++◌, map, append-nil, append_assoc, arith, ltb, leb, ◌==◌,
  if◌then◌else◌, Bool-cases, Option-cases, ==_iff, ltb→lt, lt→ltb, leb→le, length, get_elem?,
  get_or, set, take, drop, replicate, length-append, length-take, length-drop, length-replicate,
  length-map, length-set, get_elem?-set_self, get_elem?-set_ne, get_elem?-ge, get_elem?-take,
  get_elem?-drop, get_elem?-append, get_elem?-replicate, list_ext, take-append-drop,
  get_or_append_exact, take-length, drop-length, take_append_exact, drop_append_exact,
  take-append_le, drop-append_le, bit_and_step, bit_or_step, bit_xor_step, bit_xor-bit_xor_right,
  bit_xor-parity, bit_xor-lt, bit_xor_left_cancel, bit_xor_right_cancel, bit_xor_comm,
  bit_or-shifted, bit_or-zero, bit_and-zero, bit_and-pow, bit_xor-div, bit_and-one,
}

pub data Latch : Type 0 where
  low : Latch
  high : Latch
  upper : Latch

-- The levels of PORTB and PORTF, true for 1, and the two registers of port D. `outputs` tells that DDRB and
-- DDRF make the control lines and the latch lines outputs.
pub record Pins : Type 0 where
  pub we : Bool
  pub ce : Bool
  pub oe : Bool
  pub addr_oe : Bool
  pub le_low : Bool
  pub le_high : Bool
  pub le_upper : Bool
  pub b_outputs : Bool
  pub f_outputs : Bool
  pub ddrd : ℕ
  pub portd : ℕ

-- A write to the registers with its outcome, a delay, a read of PIND, a call of sst_service.
pub data Event : Type 0 where
  pins_written : Pins → Event
  delayed_us : ℕ → Event
  delayed_ms : ℕ → Event
  pind_read : Event
  serviced : Event

-- The registers, and everything done so far, the last event first.
pub record Chip : Type 0 where
  pub pins : Pins
  pub events : List Event

abbrev pub write : (Pins → Pins) → Chip → Chip
write f c = record { pins = f c.pins; events = pins_written (f c.pins) ∷ c.events }

abbrev pub happen : Event → Chip → Chip
happen e c = record c { events = e ∷ c.events }

abbrev pub delay_us : ℕ → Chip → Chip
delay_us n c = happen (delayed_us n) c

-- `PORTB |= WE | CE | OE | ADDR_OE`.
abbrev pub deselect : Chip → Chip
deselect c = write (λ p. record p { we = true; ce = true; oe = true; addr_oe = true }) c

abbrev pub set_ddrd : ℕ → Chip → Chip
set_ddrd v c = write (λ p. record p { ddrd = v }) c

abbrev pub set_portd : ℕ → Chip → Chip
set_portd v c = write (λ p. record p { portd = v }) c

abbrev pub set_ce : Bool → Chip → Chip
set_ce v c = write (λ p. record p { ce = v }) c

abbrev pub set_oe : Bool → Chip → Chip
set_oe v c = write (λ p. record p { oe = v }) c

abbrev pub set_we : Bool → Chip → Chip
set_we v c = write (λ p. record p { we = v }) c

-- `PORTB |= OE | CE`.
abbrev pub release : Chip → Chip
release c = write (λ p. record p { ce = true; oe = true }) c

abbrev pub set_latch : Latch → Bool → Pins → Pins
set_latch low v p = record p { le_low = v }
set_latch high v p = record p { le_high = v }
set_latch upper v p = record p { le_upper = v }

unfoldable pub idle : Chip → Chip
idle c = set_portd 0 (set_ddrd 0 (delay_us 1 (deselect c)))

unfoldable pub sst_init : Chip → Chip
unfolding idle
sst_init c =
    let c₁ = write (λ p. record p { b_outputs = true }) (deselect c) in
    let c₂ = write (λ p. record p { le_low = false; le_high = false; le_upper = false }) c₁ in
    idle (write (λ p. record p { f_outputs = true }) c₂)

unfoldable pub latch : Latch → ℕ → Chip → Chip
latch enable value c =
    let c₁ = delay_us 1 (set_portd (value % 2 ^ 8) c) in
    let c₂ = delay_us 1 (write (set_latch enable true) c₁) in
    delay_us 1 (write (set_latch enable false) c₂)

unfoldable pub address : ℕ → Chip → Chip
unfolding latch
address value c =
    let c₁ = set_ddrd 255 (delay_us 1 (deselect c)) in
    let c₂ = latch upper (bit_and (value / 2 ^ 16) 3) c₁ in
    let c₃ = latch low value (latch high (value / 2 ^ 8) c₂) in
    delay_us 1 (write (λ p. record p { addr_oe = false }) c₃)

unfoldable pub command_write : ℕ → ℕ → Chip → Chip
unfolding address
command_write addr data_byte c =
    let c₁ = delay_us 1 (set_portd data_byte (address addr c)) in
    let c₂ = delay_us 1 (set_we false (delay_us 1 (set_ce false c₁))) in
    set_ce true (delay_us 1 (set_we true c₂))

unfoldable pub id_command : ℕ → Chip → Chip
unfolding command_write
id_command command c =
    let c₁ = command_write 10922 85 (command_write 21845 170 c) in
    delay_us 150 (command_write 21845 command c₁)

-- Two unlocking cycles.
abbrev pub unlock : Chip → Chip
unlock c = command_write 10922 85 (command_write 21845 170 c)

-- The cycles before the last one of an erasure.
abbrev pub erase_prefix : Chip → Chip
erase_prefix c = unlock (command_write 21845 128 (unlock c))

module _ (pind : List Event → ℕ) where
  -- The chip and the read value.
  abbrev pub Sampled : Type 0
  Sampled = ℕ × Chip

  abbrev pub sample : Chip → ℕ × Chip
  sample c = (pind c.events, happen pind_read c)

  unfoldable pub read_byte : ℕ → Chip → ℕ × Chip
  unfolding address
  read_byte addr c =
      let c₁ = set_portd 0 (set_ddrd 0 (address addr c)) in
      let (result, c₂) = sample (delay_us 1 (set_oe false (set_ce false c₁))) in
      (result, delay_us 1 (release c₂))

  unfoldable pub sst_read_id : Chip → Bytes × Chip
  unfolding read_byte id_command idle
  sst_read_id c =
      let (first, c₁) = read_byte 0 (id_command 144 c) in
      let (second, c₂) = read_byte 1 c₁ in (first ∷ second ∷ [], idle (id_command 240 c₂))

  unfoldable pub correct_chip : Chip → Bool × Chip
  unfolding sst_read_id
  correct_chip c =
      let (id, c') = sst_read_id c in (get_or id 0 0 == 191 && get_or id 1 0 == 182, c')

  -- The loop of sst_read_block: `left` bytes from `i` on.
  unfoldable pub read_bytes : ℕ → ℕ → Chip → Bytes × Chip
  unfolding latch
  read_bytes zero i c = ([], c)
  read_bytes (suc left) i c =
      let c₁ = latch low (i % 2 ^ 8) (set_ddrd 255 (set_oe true c)) in
      let c₂ = delay_us 1 (set_oe false (set_portd 0 (set_ddrd 0 c₁))) in
      let (byte, c₃) = sample c₂ in let (more, c₄) = read_bytes left (i + 1) c₃ in (byte ∷ more, c₄)

  -- Without bytes where the array is left as it is.
  unfoldable pub sst_read_block : ℕ → Chip → ℕ × Bytes × Chip
  unfolding read_bytes address idle
  sst_read_block block c =
      let c₁ = set_ce false (set_portd 0 (set_ddrd 0 (address (block * 2 ^ 8) c))) in
      let (content, c₂) = read_bytes 256 0 c₁ in
      if leb 1024 block then (2, [], c) else (0, content, idle (release c₂))
