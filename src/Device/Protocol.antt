-- ===== src/Device/Protocol.antt =====
-- firmware/protocol.c and firmware/protocol.h: the parser of the command stream. The operations on the
-- flash are a record of functions on a state `D` of the board, as protocol_ops_t is one of pointers.
pub mod Invariant
pub mod Silence
pub mod Framing
use p2000t_cartridge_studio.Bytes.{Bytes, bytes_eq, starts_with, u16_of}
use p2000t_cartridge_studio.Crc.{crc16_from}
use p2000t_cartridge_studio.Text.{codes}
use p2000t_cartridge_studio.Base.{
  ℕ, zero, suc, ◌+◌, ◌-◌, ◌*◌, ◌/◌, ◌%◌, ◌^◌, ◌≤◌, ◌<◌, min, max, bit_and, bit_or, bit_xor, ◌≡◌,
  refl, sym, ap, subst, ◌∙◌, ◌≢◌, ◌↔◌, ◌⊎◌, inl, inr, Bool, true, false, not, ◌&&◌, ◌||◌, Option,
  none, some, List, [], ◌∷◌, ◌++◌, map, append-nil, append_assoc, arith, ltb, leb, ◌==◌,
  if◌then◌else◌, Bool-cases, Option-cases, ==_iff, ltb→lt, lt→ltb, leb→le, length, get_elem?,
  get_or, set, take, drop, replicate, length-append, length-take, length-drop, length-replicate,
  length-map, length-set, get_elem?-set_self, get_elem?-set_ne, get_elem?-ge, get_elem?-take,
  get_elem?-drop, get_elem?-append, get_elem?-replicate, list_ext, take-append-drop,
  get_or_append_exact, take-length, drop-length, take_append_exact, drop_append_exact,
  take-append_le, drop-append_le, bit_and_step, bit_or_step, bit_xor_step, bit_xor-bit_xor_right,
  bit_xor-parity, bit_xor-lt, bit_xor_left_cancel, bit_xor_right_cancel, bit_xor_comm,
  bit_or-shifted, bit_or-zero, bit_and-zero, bit_and-pow, bit_xor-div, bit_and-one,
}

abbrev pub command_timeout_ms : ℕ
command_timeout_ms = 1000

abbrev pub payload_timeout_ms : ℕ
payload_timeout_ms = 2000

-- `protocol_ops_t`. A status is a byte; read_block also fills 256 bytes.
pub record ProtocolOps (D : Type 0) : Type 0 where
  pub read_id : D → Bytes × D
  pub read_block : ℕ → D → ℕ × Bytes × D
  pub program_block : ℕ → Bytes → D → ℕ × D
  pub erase : D → ℕ × D
  pub erase_bank : ℕ → D → ℕ × D
  pub boot : D → D

-- `protocol_t`, with its two arrays as lists of 8 and of 258 bytes.
pub record Protocol : Type 0 where
  pub command : Bytes
  pub used : ℕ
  pub idle_ms : ℕ
  pub received : ℕ
  pub block : ℕ
  pub bank : ℕ
  pub writing : Bool
  pub failed : Bool
  pub bank_read_pending : Bool
  pub payload : Bytes

unfoldable pub protocol_reset : Protocol → Protocol
protocol_reset p = record p {
  used = 0;
  idle_ms = 0;
  writing = false;
  failed = false;
  bank_read_pending = false;
  received = 0;
}

abbrev pub time_limit : Protocol → ℕ
time_limit p = if p.writing then payload_timeout_ms else command_timeout_ms

-- The result is true for a payload that timed out. An int has 16 bits here, so
-- the difference `limit - idle_ms` is one of uint16_t.
unfoldable pub protocol_tick : ℕ → Protocol → Bool × Protocol
unfolding protocol_reset
protocol_tick ms p =
    if p.used == 0 && not p.writing
    then (false, p)
    else if leb ((time_limit p + 2 ^ 16 - p.idle_ms) % 2 ^ 16) ms
    then (p.writing, record (protocol_reset p) { failed = p.writing })
    else (false, record p { idle_ms = (p.idle_ms + ms) % 2 ^ 16 })

unfoldable pub protocol_take_bank_read : Protocol → Option ℕ × Protocol
protocol_take_bank_read p =
    if p.bank_read_pending then (some p.bank, record p { bank_read_pending = false }) else (none, p)

unfoldable pub protocol_crc_update : ℕ → Bytes → ℕ
protocol_crc_update crc content = crc16_from crc content

unfoldable pub protocol_crc : Bytes → ℕ
unfolding protocol_crc_update
protocol_crc content = protocol_crc_update 0 content

unfoldable pub digit_value : ℕ → Option ℕ
digit_value c =
    if leb b'0' c && leb c b'9'
    then some (c - b'0')
    else if leb b'A' c && leb c b'F'
    then some (c - b'A' + 10)
    else none

-- The loop of block_number and bank_number, for a result of `width` bits; `none` where it returns early.
unfoldable pub digits_number : ℕ → ℕ → Bytes → Option ℕ
unfolding digit_value
digits_number width v [] = some v
digits_number width v (c ∷ cs) =
    let rest = λ (d : ℕ). digits_number width ((v * 16 + d) % 2 ^ width) cs in
    elim (digit_value c) [ none ↦ none | some d ↦ rest d ]

unfoldable pub block_number : Bytes → Option ℕ
unfolding digits_number
block_number s = digits_number 16 0 s

unfoldable pub bank_number : Bytes → Option ℕ
unfolding digits_number
bank_number s = digits_number 8 0 s

-- The response to a byte, the parser and the board.
abbrev pub Fed : Type 0 → Type 0
Fed D = Bytes × Protocol × D

module _ {D : Type 0} (version : Bytes) (ops : ProtocolOps D) where
  abbrev pub status : Bytes → ℕ × D → Protocol → Fed D
  status command (value, d) p = (command ++ value ∷ [], p, d)

  unfoldable pub read_bank_command : Bytes → Option ℕ → Protocol → D → Fed D
  read_bank_command command none p d = status command (2, d) p
  read_bank_command command (some bank) p d =
      if ltb bank 16
      then status command (0, d) (record p { bank = bank; bank_read_pending = true })
      else status command (2, d) (record p { bank = bank })

  unfoldable pub erase_bank_response : Bytes → Option ℕ → Protocol → D → Fed D
  erase_bank_response command none p d = status command (2, d) p
  erase_bank_response command (some bank) p d =
      if ltb bank 16 then status command (ops.erase_bank bank d) p else status command (2, d) p

  -- The block, or a failure, and its CRC.
  unfoldable pub read_block_response : Bytes → ℕ × Bytes × D → Protocol → Fed D
  unfolding protocol_crc
  read_block_response command (value, content, d) p =
      let crc = protocol_crc content in
      if value == 0
      then (command ++ (0 ∷ (content ++ (crc / 2 ^ 8 ∷ crc % 256 ∷ []))), p, d)
      else status command (value, d) p

  -- WRBK if `write`, otherwise RDBK.
  unfoldable pub block_command : Bool → Bytes → Option ℕ → Protocol → D → Fed D
  block_command write command none p d = status command (2, d) p
  block_command write command (some block) p d =
      let named = record p { block = block } in
      if not (ltb block 1024)
      then status command (2, d) named
      else if write
      then status command (0, d) (record named { writing = true; received = 0 })
      else read_block_response command (ops.read_block block d) named

  -- The tests on a complete command, in their order.
  unfoldable pub respond : Bytes → Protocol → D → Fed D
  unfolding bank_number block_number
  respond command p d =
      if bytes_eq command (codes "READINFO")
      then (command ++ codes "P2000T-FW p01.00", p, d)
      else if bytes_eq command (codes "READVERS")
      then (command ++ version, p, d)
      else if bytes_eq command (codes "DEVIDSST")
      then (let (id, d') = ops.read_id d in (command ++ id, p, d'))
      else if bytes_eq command (codes "BOOTLOAD")
      then status command (0, ops.boot d) p
      else if bytes_eq command (codes "ERASEALL")
      then status command (ops.erase d) p
      else if starts_with (codes "RDBANK") command
      then read_bank_command command (bank_number (drop 6 command)) p d
      else if starts_with (codes "ERBANK") command
      then erase_bank_response command (bank_number (drop 6 command)) p d
      else if starts_with (codes "WRBK") command
      then block_command true command (block_number (drop 4 command)) p d
      else if starts_with (codes "RDBK") command
      then block_command false command (block_number (drop 4 command)) p d
      else (command ++ codes "ERRORCMD", p, d)

  -- A byte of the payload of a write.
  unfoldable pub feed_payload : ℕ → Protocol → D → Fed D
  unfolding protocol_crc
  feed_payload byte p d =
      let payload = set p.payload p.received byte in
      let filled = record p { payload = payload; received = (p.received + 1) % 2 ^ 16 } in
      let content = take 256 payload in
      let crc = u16_of (get_or payload 256 0) (get_or payload 257 0) in
      let (value, d') = ops.program_block p.block content d in
      if ltb filled.received 258
      then ([], filled, d)
      else if crc == protocol_crc content
      then (value ∷ [], record filled { writing = false }, d')
      else (1 ∷ [], record filled { writing = false }, d)

  -- A byte of a command.
  unfoldable pub feed_command : ℕ → Protocol → D → Fed D
  unfolding respond
  feed_command byte p d =
      let command = set p.command p.used byte in
      let longer = record p { command = command; used = (p.used + 1) % 2 ^ 8 } in
      if p.used == 0 && (byte == 13 || byte == 10)
      then ([], p, d)
      else if not (longer.used == 8)
      then ([], longer, d)
      else respond command (record longer { used = 0 }) d

  unfoldable pub protocol_feed : ℕ → Protocol → D → Fed D
  unfolding feed_payload feed_command
  protocol_feed byte p d =
      let active = record p { idle_ms = 0 } in
      if p.failed
      then ([], p, d)
      else if p.writing
      then feed_payload byte active d
      else feed_command byte active d
