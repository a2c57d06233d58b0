-- ===== src/Device/Protocol/Invariant.antt =====
-- What holds of the parser of firmware/protocol.c between two calls: its writes stay in their arrays, and
-- its counters do not wrap.
use p2000t_cartridge_studio.Bytes.{Bytes, bytes_eq, starts_with, u16_of}
use p2000t_cartridge_studio.Text.{codes}
use p2000t_cartridge_studio.Device.Protocol.{
  ProtocolOps, Protocol, time_limit, protocol_reset, protocol_tick, protocol_take_bank_read,
  protocol_crc, bank_number, block_number, Fed, read_bank_command, erase_bank_response,
  read_block_response, block_command, respond, feed_payload, feed_command, protocol_feed,
}
use p2000t_cartridge_studio.Base.{
  if_both, ℕ, ◌+◌, ◌%◌, ◌^◌, ◌<◌, ◌≡◌, refl, ◌∙◌, Bool, true, false, not, ◌&&◌, ◌||◌, Option, List,
  [], ◌∷◌, arith, ltb, ◌==◌, if◌then◌else◌, ltb→lt, length, get_or, set, take, drop, replicate,
  length-replicate, length-set,
}

pub record Valid (p : Protocol) : Type 0 where
  pub command_size : length p.command ≡ 8
  pub payload_size : length p.payload ≡ 258
  pub used_inside : p.used < 8
  pub received_inside : p.writing ≡ true → p.received < 258
  pub one_at_a_time : p.writing ≡ true → p.used ≡ 0
  pub in_time : p.idle_ms < time_limit p

protocol_reset-Valid : (p : Protocol) → Valid p → Valid (protocol_reset p)
unfolding protocol_reset
protocol_reset-Valid p h = ground (arith, h)

pub protocol_tick-Valid : (ms : ℕ) (p : Protocol) → Valid p → Valid (protocol_tick ms p).1
unfolding protocol_tick
protocol_tick-Valid ms p h = ground (arith, h)

pub protocol_take_bank_read-Valid : (p : Protocol) → Valid p → Valid (protocol_take_bank_read p).1
unfolding protocol_take_bank_read
protocol_take_bank_read-Valid p h = ground (arith, h)

module _ {D : Type 0} (version : Bytes) (ops : ProtocolOps D) where
  read_bank_command-Valid :
      (command : Bytes) (bank : Option ℕ) (p : Protocol) (d : D)
      → Valid p
      → Valid (read_bank_command version ops command bank p d).1
  unfolding read_bank_command
  read_bank_command-Valid command bank p d h = ground (arith, h)

  block_command-Valid :
      (write : Bool) (command : Bytes) (block : Option ℕ) (p : Protocol) (d : D)
      → Valid p
      → p.used ≡ 0
      → p.idle_ms ≡ 0
      → Valid (block_command version ops write command block p d).1
  unfolding block_command read_block_response
  block_command-Valid write command block p d h u i = ground (arith, h)

  erase_bank_response-Valid :
      (command : Bytes) (bank : Option ℕ) (p : Protocol) (d : D)
      → Valid p
      → Valid (erase_bank_response version ops command bank p d).1
  unfolding erase_bank_response
  erase_bank_response-Valid command bank p d h = ground (arith, h)

  next_inside : (n : ℕ) → n < 8 → not ((n + 1) % 2 ^ 8 == 8) ≡ true → (n + 1) % 2 ^ 8 < 8
  next_inside n h k = ground arith

  awake : (p : Protocol) → Valid p → Valid (record p { idle_ms = 0 })
  awake p h = ground (arith, h)

  -- The parser that a test of the command leaves.
  if-Valid : (t : Bool) (r s : Fed D) → Valid (r.1) → Valid (s.1) → Valid ((if t then r else s).1)
  if-Valid true r s h k = h
  if-Valid false r s h k = k

  respond-Valid :
      (command : Bytes) (p : Protocol) (d : D)
      → Valid p
      → p.used ≡ 0
      → p.idle_ms ≡ 0
      → Valid (respond version ops command p d).1
  unfolding respond
  respond-Valid command p d h u i = if-Valid (bytes_eq command (codes "READINFO")) _ _ h (
      if-Valid (bytes_eq command (codes "READVERS")) _ _ h (
        if-Valid (bytes_eq command (codes "DEVIDSST")) _ _ h (
          if-Valid (bytes_eq command (codes "BOOTLOAD")) _ _ h (
            if-Valid (bytes_eq command (codes "ERASEALL")) _ _ h (
              if-Valid (starts_with (codes "RDBANK") command) _ _
                (read_bank_command-Valid command (bank_number (drop 6 command)) p d h)
                (if-Valid (starts_with (codes "ERBANK") command) _ _
                  (erase_bank_response-Valid command (bank_number (drop 6 command)) p d h)
                  (if-Valid (starts_with (codes "WRBK") command) _ _
                    (block_command-Valid true command (block_number (drop 4 command)) p d h u i)
                    (if-Valid (starts_with (codes "RDBK") command) _ _
                      (block_command-Valid false command (block_number (drop 4 command)) p d h u i)
                      h))))))))

  feed_payload-Valid :
      (byte : ℕ) (p : Protocol) (d : D)
      → Valid p
      → p.writing ≡ true
      → p.idle_ms ≡ 0
      → Valid (feed_payload version ops byte p d).1
  unfolding feed_payload
  feed_payload-Valid byte p d h w i =
      let P = λ (r : Fed D). Valid (r.1) in
      let filled : Protocol = record p {
        payload = set p.payload p.received byte;
        received = (p.received + 1) % 2 ^ 16;
      } in
      let sized : length filled.payload ≡ 258 =
        length-set p.payload p.received byte ∙ h.payload_size in
      let over : Valid (record filled { writing = false }) = record {
        command_size = h.command_size;
        payload_size = sized;
        used_inside = h.used_inside;
        received_inside = λ e. absurd (ground (arith, e));
        one_at_a_time = λ e. absurd (ground (arith, e));
        in_time = omega (arith, i);
      } in
      if_both P (ltb filled.received 258) _ _
        (λ more. record {
          command_size = h.command_size;
          payload_size = sized;
          used_inside = h.used_inside;
          received_inside = λ e. ltb→lt filled.received 258 more;
          one_at_a_time = h.one_at_a_time;
          in_time = h.in_time;
        })
        λ full.
          if_both P
            (u16_of (get_or filled.payload 256 0) (get_or filled.payload 257 0)
              == protocol_crc (take 256 filled.payload))
            _ _ (λ e. over) (λ e. over)

  feed_command-Valid :
      (byte : ℕ) (p : Protocol) (d : D)
      → Valid p
      → p.writing ≡ false
      → p.idle_ms ≡ 0
      → Valid (feed_command version ops byte p d).1
  unfolding feed_command
  feed_command-Valid byte p d h w i =
      let P = λ (r : Fed D). Valid (r.1) in
      let command = set p.command p.used byte in
      let sized : length command ≡ 8 = length-set p.command p.used byte ∙ h.command_size in
      let still : p.used < 8 = h.used_inside in
      if_both P (p.used == 0 && (byte == 13 || byte == 10)) _ _ (λ blank. h)
        λ kept.
          if_both P (not ((p.used + 1) % 2 ^ 8 == 8)) _ _
            (λ more. record {
              command_size = sized;
              payload_size = h.payload_size;
              used_inside = next_inside p.used still more;
              received_inside = h.received_inside;
              one_at_a_time = λ e. absurd (ground (arith, e, w));
              in_time = h.in_time;
            })
            (λ full.
              respond-Valid command (record p { command = command; used = 0 }) d
                (record {
                  command_size = sized;
                  payload_size = h.payload_size;
                  used_inside = omega arith;
                  received_inside = h.received_inside;
                  one_at_a_time = λ e. refl;
                  in_time = h.in_time;
                })
                refl i)

  pub protocol_feed-Valid :
      (byte : ℕ) (p : Protocol) (d : D) → Valid p → Valid (protocol_feed version ops byte p d).1
  unfolding protocol_feed
  protocol_feed-Valid byte p d h =
      let P = λ (r : Fed D). Valid (r.1) in
      let active : Valid (record p { idle_ms = 0 }) = awake p h in
      if_both P p.failed _ _ (λ e. h)
        λ e.
          if_both P p.writing _ _
            (λ w. feed_payload-Valid byte (record p { idle_ms = 0 }) d active w refl)
            (λ w. feed_command-Valid byte (record p { idle_ms = 0 }) d active w refl)

-- What main.c calls on the parser, in any order.
pub data Call : Type 0 where
  feed tick : ℕ → Call
  take_bank_read reset : Call

-- Static storage starts out as zeros.
abbrev pub at_power_up : Protocol
at_power_up = record {
  command = replicate 8 0;
  used = 0;
  idle_ms = 0;
  received = 0;
  block = 0;
  bank = 0;
  writing = false;
  failed = false;
  bank_read_pending = false;
  payload = replicate 258 0;
}

module _ {D : Type 0} (version : Bytes) (ops : ProtocolOps D) where
  unfoldable pub call : Call → Protocol × D → Protocol × D
  call (feed byte) (p, d) = (let (out, p', d') = protocol_feed version ops byte p d in (p', d'))
  call (tick ms) (p, d) = ((protocol_tick ms p).1, d)
  call take_bank_read (p, d) = ((protocol_take_bank_read p).1, d)
  call reset (p, d) = (protocol_reset p, d)

  unfoldable pub calls : List Call → Protocol × D → Protocol × D
  unfolding call
  calls [] s = s
  calls (c ∷ cs) s = calls cs (call c s)

  call-Valid : (c : Call) (s : Protocol × D) → Valid (s.0) → Valid ((call c s).0)
  unfolding call
  call-Valid (feed byte) (p, d) h = protocol_feed-Valid version ops byte p d h
  call-Valid (tick ms) (p, d) h = protocol_tick-Valid ms p h
  call-Valid take_bank_read (p, d) h = protocol_take_bank_read-Valid p h
  call-Valid reset (p, d) h = protocol_reset-Valid p h

  calls-Valid : (cs : List Call) (s : Protocol × D) → Valid (s.0) → Valid ((calls cs s).0)
  unfolding calls
  calls-Valid [] s h = h
  calls-Valid (c ∷ cs) s h = calls-Valid cs (call c s) (call-Valid c s h)

  -- For any operations on the flash, after any calls of the parser's functions from zeroed
  -- storage, the command and the payload have their sizes, each byte of either is stored inside
  -- its array, no command is underway during a payload, and the time of silence is below its
  -- limit, so that no counter wraps.
  pub reached-Valid : (cs : List Call) (d : D) → Valid ((calls cs (at_power_up, d)).0)
  unfolding replicate
  reached-Valid cs d =
      calls-Valid cs (at_power_up, d)
        (record {
          command_size = refl;
          payload_size = length-replicate {A = ℕ} 258 0;
          used_inside = omega arith;
          received_inside = λ e. omega arith;
          one_at_a_time = λ e. refl;
          in_time = omega arith;
        })
