-- ===== src/Device/Protocol/Silence.antt =====
-- The time-keeping of firmware/protocol.c: protocol_tick, told by firmware/main.c of the frames that passed.
use p2000t_cartridge_studio.Bytes.{Bytes}
use p2000t_cartridge_studio.Device.Protocol.{
  Protocol, command_timeout_ms, time_limit, protocol_reset, protocol_tick,
}
use p2000t_cartridge_studio.Base.{
  ℕ, ◌+◌, ◌%◌, ◌^◌, ◌≤◌, ◌<◌, ◌≡◌, refl, sym, ap, subst, ◌∙◌, ◌-◌, if◌then◌else◌, inl, inr, Bool,
  false, not, ◌&&◌, List, [], ◌∷◌, arith, leb, ◌==◌, if_both, Bool-cases,
}

-- Reading position `n` of the command buffer: what was fed since the last command, before the next byte.
abbrev pub listening : ℕ → Bytes → Protocol → Protocol
listening n command p = record p {
  command = command;
  used = n;
  idle_ms = 0;
  writing = false;
  failed = false;
}

-- The same, with a time of silence.
abbrev pub listening_since : ℕ → ℕ → Bytes → Protocol → Protocol
listening_since idle n command p = record (listening n command p) { idle_ms = idle }

-- The main loop tells the parser of time in many small steps.
unfoldable pub ticked : List ℕ → Protocol → Protocol
ticked [] p = p
ticked (ms ∷ rest) p = ticked rest (protocol_tick ms p).1

abbrev pub time_of : List ℕ → ℕ
time_of [] = 0
time_of (ms ∷ rest) = ms + time_of rest

-- A step of a short silence changes the time of silence only.
one_tick :
    (ms idle n : ℕ) (command : Bytes) (p : Protocol)
    → idle + ms < command_timeout_ms
    → (protocol_tick ms (listening_since idle n command p)).1
      ≡ listening_since (if n == 0 then idle else idle + ms) n command p
unfolding protocol_tick
one_tick ms idle n command p quick = elim (Bool-cases (n == 0)) [
  | inl start ↦ rw start refl
  | inr inside ↦
      let early : leb ((1000 + 2 ^ 16 - idle) % 2 ^ 16) ms ≡ false = ground arith in
      let sum : (idle + ms) % 2 ^ 16 ≡ idle + ms = omega arith in
      rw (inside, early) (ap (λ (k : ℕ). listening_since k n command p) sum)
]

-- So does a short silence.
pub waited :
    (ticks : List ℕ) (idle n : ℕ) (command : Bytes) (p : Protocol)
    → idle + time_of ticks < command_timeout_ms
    → (later : ℕ) × (ticked ticks (listening_since idle n command p)
        ≡ listening_since later n command p)
unfolding ticked
waited [] idle n command p quick = (idle, refl)
waited (ms ∷ rest) idle n command p quick =
    let next = if n == 0 then idle else idle + ms in
    let short : next + time_of rest < command_timeout_ms =
      if_both (λ (k : ℕ). k + time_of rest < command_timeout_ms) (n == 0) _ _ (λ _. omega arith)
        (λ _. omega arith) in
    let (later, e) = waited rest next n command p short in
    (later, ap (ticked rest) (one_tick ms idle n command p (omega arith)) ∙ e)

-- A parser between commands.
abbrev pub Free : Bytes → Protocol → Type 0
Free command q = (q.used ≡ 0) × (q.writing ≡ false) × (q.failed ≡ false) × (q.command ≡ command)

-- Between commands, silence changes nothing.
pub rested : (ticks : List ℕ) (q : Protocol) → q.used ≡ 0 → q.writing ≡ false → ticked ticks q ≡ q
unfolding ticked protocol_tick
rested [] q start reading = refl
rested (ms ∷ rest) q start reading =
    let same : (protocol_tick ms q).1 ≡ q =
      if_both (λ (r : Bool × Protocol). r.1 ≡ q) (q.used == 0 && not q.writing) _ _ (λ _. refl)
        (λ busy. absurd (ground (arith, busy, start, reading))) in
    ap (ticked rest) same ∙ rested rest q start reading

-- What a long silence leaves of a parser that neither receives a payload nor has failed.
pub silent :
    (ticks : List ℕ) (p : Protocol)
    → command_timeout_ms ≤ p.idle_ms + time_of ticks
    → p.idle_ms < command_timeout_ms
    → p.writing ≡ false
    → p.failed ≡ false
    → Free p.command (ticked ticks p)
unfolding ticked protocol_tick protocol_reset
silent [] p long early reading well = absurd (omega arith)
silent (ms ∷ rest) p long early reading well =
    let P = λ (r : Bool × Protocol). Free p.command (ticked rest (r.1)) in
    if_both P (p.used == 0 && not p.writing) _ _
      (λ start.
        let none_used : p.used ≡ 0 = ground (arith, start, reading) in
        subst (Free p.command) (sym (rested rest p none_used reading))
          (none_used, reading, well, refl))
      (λ inside.
        if_both P (leb ((time_limit p + 2 ^ 16 - p.idle_ms) % 2 ^ 16) ms) _ _
          (λ late.
            let fresh = record (protocol_reset p) { failed = p.writing } in
            subst (Free p.command) (sym (rested rest fresh refl refl)) (refl, refl, reading, refl))
          (λ soon.
            let limit : time_limit p ≡ 1000 = ground (arith, reading) in
            let small : p.idle_ms + ms < command_timeout_ms = ground (arith, soon, limit, early) in
            silent rest (record p { idle_ms = (p.idle_ms + ms) % 2 ^ 16 })
              (omega (arith, small, long)) (omega (arith, small)) reading well))
