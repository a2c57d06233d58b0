-- ===== src/Device/Protocol/Framing.antt =====
-- The framing of commands in firmware/protocol.c: bytes, and the silences before them.
use p2000t_cartridge_studio.Bytes.{Bytes}
use p2000t_cartridge_studio.Device.Protocol.{
  ProtocolOps, Protocol, command_timeout_ms, Fed, respond, feed_command, protocol_feed,
}
use p2000t_cartridge_studio.Device.Protocol.Silence.{
  listening, ticked, time_of, waited, rested, silent,
}
use p2000t_cartridge_studio.Base.{
  ℕ, zero, suc, ◌+◌, ◌%◌, ◌^◌, ◌≤◌, ◌<◌, ◌≡◌, refl, sym, ap, subst, ◌∙◌, ◌≢◌, true, false, not,
  ◌&&◌, ◌||◌, List, [], ◌∷◌, ◌++◌, append-nil, append_assoc, arith, ◌==◌, length, set, take,
  length-set, take-length,
}

-- The steps of a silence, then a byte.
abbrev pub Arrival : Type 0
Arrival = List ℕ × ℕ

abbrev pub bytes_of : List Arrival → Bytes
bytes_of [] = []
bytes_of ((ticks, byte) ∷ rest) = byte ∷ bytes_of rest

-- No silence reaches the timeout.
abbrev pub InTime : List Arrival → Type 0
InTime [] = Unit {0}
InTime ((ticks, byte) ∷ rest) = (time_of ticks < command_timeout_ms) × InTime rest

-- A byte that the parser does not skip between commands.
abbrev pub Significant : ℕ → Type 0
Significant byte = (byte ≢ 13) × (byte ≢ 10)

-- Bytes that it does skip there.
abbrev pub LineEnds : List Arrival → Type 0
LineEnds [] = Unit {0}
LineEnds ((ticks, byte) ∷ rest) = ((byte == 13 || byte == 10) ≡ true) × LineEnds rest

pub take-set :
    (n : ℕ) (xs : Bytes) (b : ℕ) → n < length xs → take (n + 1) (set xs n b) ≡ take n xs ++ b ∷ []
take-set n [] b h = absurd (omega arith)
take-set zero (x ∷ xs) b h = refl
take-set (suc n) (x ∷ xs) b h =
    let e : suc n + 1 ≡ suc (n + 1) = omega arith in
    ap (λ (k : ℕ). take k (x ∷ set xs n b)) e
    ∙ ap (λ (y : Bytes). x ∷ y) (take-set n xs b (omega arith))

significant :
    (n byte : ℕ) → (n ≡ 0 → Significant byte) → (n == 0 && (byte == 13 || byte == 10)) ≡ false
significant n byte h = ground (arith, h)

module _ {D : Type 0} (version : Bytes) (ops : ProtocolOps D) where
  -- What the parser does with bytes and the silences before them: all responses, the parser, the board.
  unfoldable pub feed_all : List Arrival → Protocol → D → Fed D
  feed_all [] p d = ([], p, d)
  feed_all ((ticks, byte) ∷ rest) p d =
      let p₁ = ticked ticks p in
      let (out, p₂, d₂) = protocol_feed version ops byte p₁ d in
      let (more, p₃, d₃) = feed_all rest p₂ d₂ in (out ++ more, p₃, d₃)

  -- A byte after a short silence is taken as if there had been none.
  heard_at :
      (ticks : List ℕ) (byte n : ℕ) (command : Bytes) (p : Protocol) (d : D)
      → time_of ticks < command_timeout_ms
      → protocol_feed version ops byte (ticked ticks (listening n command p)) d
        ≡ feed_command version ops byte (listening n command p) d
  unfolding protocol_feed feed_command
  heard_at ticks byte n command p d quick =
      let (idle, e) = waited ticks 0 n command p (omega (arith, quick)) in
      ap (λ (q : Protocol). protocol_feed version ops byte q d) e

  -- A byte that does not complete a command is stored, without a response.
  heard_more :
      (ticks : List ℕ) (byte n : ℕ) (command : Bytes) (p : Protocol) (d : D)
      → n < 7
      → (n ≡ 0 → Significant byte)
      → time_of ticks < command_timeout_ms
      → protocol_feed version ops byte (ticked ticks (listening n command p)) d
        ≡ ([], listening (n + 1) (set command n byte) p, d)
  unfolding feed_command
  heard_more ticks byte n command p d short first quick =
      let kept : (n == 0 && (byte == 13 || byte == 10)) ≡ false = significant n byte first in
      let more : not ((n + 1) % 2 ^ 8 == 8) ≡ true = ground arith in
      let next : (n + 1) % 2 ^ 8 ≡ n + 1 = omega arith in
      heard_at ticks byte n command p d quick
      ∙ rw (kept, more) (ap (λ (k : ℕ). ([], listening k (set command n byte) p, d)) next)

  -- The eighth byte completes it.
  heard_last :
      (ticks : List ℕ) (byte : ℕ) (command : Bytes) (p : Protocol) (d : D)
      → time_of ticks < command_timeout_ms
      → protocol_feed version ops byte (ticked ticks (listening 7 command p)) d
        ≡ respond version ops (set command 7 byte) (listening 0 (set command 7 byte) p) d
  unfolding feed_command
  heard_last ticks byte command p d quick = heard_at ticks byte 7 command p d quick

  -- What is heard after a byte was answered.
  abbrev heard_after : List Arrival → Fed D → Fed D
  heard_after rest r = let (more, p, d) = feed_all rest (r.1) (r.2) in (r.0 ++ more, p, d)

  heard_rest :
      (ticks : List ℕ) (byte : ℕ) (rest : List Arrival) (n : ℕ) (command : Bytes) (p : Protocol)
      (d : D)
      → length rest + n ≡ 7
      → length command ≡ 8
      → InTime ((ticks, byte) ∷ rest)
      → (n ≡ 0 → Significant byte)
      → feed_all ((ticks, byte) ∷ rest) (listening n command p) d ≡ (
          let whole = take n command ++ byte ∷ bytes_of rest in
          respond version ops whole (listening 0 whole p) d)
  unfolding feed_all
  heard_rest ticks byte [] n command p d count size (quick, later) first =
      let seven : n ≡ 7 = omega arith in
      let whole : set command 7 byte ≡ take 7 command ++ byte ∷ [] =
        sym (take-length (set command 7 byte))
        ∙ ap (λ (k : ℕ). take k (set command 7 byte)) (length-set command 7 byte ∙ size)
        ∙ take-set 7 command byte (omega arith) in
      let answer = λ (c : Bytes). respond version ops c (listening 0 c p) d in
      subst
        (λ (k : ℕ).
          feed_all ((ticks, byte) ∷ []) (listening k command p) d
          ≡ answer (take k command ++ byte ∷ []))
        (sym seven)
        (ap (heard_after []) (heard_last ticks byte command p d quick)
          ∙ ap (λ (c : Bytes). heard_after [] (answer c)) whole
          ∙ ap
              (λ (o : Bytes). (
                o,
                (answer (take 7 command ++ byte ∷ [])).1,
                (answer (take 7 command ++ byte ∷ [])).2,
              ))
              (append-nil _))
  heard_rest ticks byte ((ticks₂, byte₂) ∷ rest) n command p d count size (quick, later) first =
      let more = byte₂ ∷ bytes_of rest in
      let stored : take (n + 1) (set command n byte) ++ more ≡ take n command ++ byte ∷ more =
        ap (λ (c : Bytes). c ++ more) (take-set n command byte (omega arith))
        ∙ append_assoc (take n command) (byte ∷ []) more in
      ap (heard_after ((ticks₂, byte₂) ∷ rest))
        (heard_more ticks byte n command p d (omega arith) first quick)
      ∙ heard_rest ticks₂ byte₂ rest (n + 1) (set command n byte) p d (omega arith)
          (length-set command n byte ∙ size) later (λ z. absurd (omega arith))
      ∙ ap (λ (c : Bytes). respond version ops c (listening 0 c p) d) stored

  -- Eight bytes that come to a parser that waits for a command, with a silence below 1000 ms
  -- before each, in any steps, the first of them no line end, have together exactly the
  -- response, and leave exactly the parser and the board, of the command that they spell.
  pub feed_all-eight :
      (ticks : List ℕ) (byte : ℕ) (rest : List Arrival) (command : Bytes) (p : Protocol) (d : D)
      → length rest ≡ 7
      → length command ≡ 8
      → InTime ((ticks, byte) ∷ rest)
      → Significant byte
      → feed_all ((ticks, byte) ∷ rest) (listening 0 command p) d
        ≡ respond version ops (byte ∷ bytes_of rest) (listening 0 (byte ∷ bytes_of rest) p) d
  feed_all-eight ticks byte rest command p d count size quick first =
      heard_rest ticks byte rest 0 command p d (omega arith) size quick (λ z. first)

  -- CRs and LFs that come between commands, any number of them and with any silences before
  -- them, have no answer, and leave the parser and the board as they were.
  pub feed_all-LineEnds :
      (ends : List Arrival) (command : Bytes) (p : Protocol) (d : D)
      → LineEnds ends
      → feed_all ends (listening 0 command p) d ≡ ([], listening 0 command p, d)
  unfolding feed_all protocol_feed feed_command
  feed_all-LineEnds [] command p d h = refl
  feed_all-LineEnds ((ticks, byte) ∷ rest) command p d (h, later) =
      ap (λ (q : Protocol). heard_after rest (protocol_feed version ops byte q d))
        (rested ticks (listening 0 command p) refl refl)
      ∙ rw h (feed_all-LineEnds rest command p d later)

  -- Such a parser takes a byte like one that is listening for a command.
  taken :
      (byte : ℕ) (q : Protocol) (d : D)
      → q.used ≡ 0
      → q.writing ≡ false
      → q.failed ≡ false
      → protocol_feed version ops byte q d
        ≡ protocol_feed version ops byte (ticked [] (listening 0 q.command q)) d
  unfolding protocol_feed
  taken byte q d start reading well =
      let plain : Path (Fed D) (protocol_feed version ops byte q d)
          (feed_command version ops byte (record q { idle_ms = 0 }) d) =
        rw (well, reading) refl in
      let same : record q { idle_ms = 0 } ≡ listening 0 q.command q =
        λ i. record q { idle_ms = 0; used = start i; writing = reading i; failed = well i } in
      plain
      ∙ ap (λ (p : Protocol). feed_command version ops byte p d) same
      ∙ sym (heard_at [] byte 0 q.command q d (omega arith))

  -- A parser that neither receives a payload nor has failed, and whose time of silence is below
  -- the limit of 1000 ms, answers, after a silence of at least 1000 ms more, however
  -- protocol_tick is told of it in steps, the next eight bytes that come without such a silence
  -- as one command, whatever part of a command came before, if the first of them is no line
  -- end.
  pub feed_all_resynchronizes :
      (ticks : List ℕ) (byte : ℕ) (rest : List Arrival) (p : Protocol) (d : D)
      → command_timeout_ms ≤ time_of ticks
      → p.idle_ms < command_timeout_ms
      → p.writing ≡ false
      → p.failed ≡ false
      → length p.command ≡ 8
      → length rest ≡ 7
      → InTime rest
      → Significant byte
      → feed_all ((ticks, byte) ∷ rest) p d
        ≡ respond version ops
            (byte ∷ bytes_of rest)
            (listening 0 (byte ∷ bytes_of rest) (ticked ticks p))
            d
  unfolding feed_all
  feed_all_resynchronizes ticks byte rest p d long early reading well size count quick first =
      let q = (ticked ticks p) in
      let (start, reading', well', kept) = silent ticks p (omega arith) early reading well in
      ap (heard_after rest) (taken byte q d start reading' well')
      ∙ feed_all-eight [] byte rest q.command q d count (ap length kept ∙ size) (omega arith, quick)
          first
