-- ===== src/Worker/FlashRun.antt =====
-- src/flashthread.cpp on the emulated cartridge: what a complete run leaves and signals.
use p2000t_cartridge_studio.RomSizes.{romsize, blocksize, banksize, numbanks}
use p2000t_cartridge_studio.Bytes.{Bytes}
use p2000t_cartridge_studio.Effects.{Result, ok, err, M, pure, ◌>>◌, proceed, handled}
use p2000t_cartridge_studio.Serial.{SerialInterface, Failure}
use p2000t_cartridge_studio.Serial.Wire.{close_port}
use p2000t_cartridge_studio.Serial.Commands.{erase_chip, erase_bank}
use p2000t_cartridge_studio.Emulator.Session.{Cartridge, Port, Session}
use p2000t_cartridge_studio.Emulator.Protocol.{
  Yields, enough, get_chip_id-Session, erase_chip-Session, erase_bank-Session,
}
use p2000t_cartridge_studio.Emulator.Answers.{fill}
use p2000t_cartridge_studio.Emulator.Connect.{Attached, open_port-Session, close_port-Attached}
use p2000t_cartridge_studio.Worker.{
  Cancelled, Signal, close_serial, emit, flash_result_ready, thread_cancelled, after_erase,
  after_blocks,
}
use p2000t_cartridge_studio.Worker.Flash.{
  FlashJob, expected_chip, block_count, first_block, erase, finish_erase, program, flash_body,
  abort_run, run_flash,
}
use p2000t_cartridge_studio.Worker.Blocks.{block_signals, burnt}
use p2000t_cartridge_studio.Worker.FlashLoop.{
  Worker, Running, Closed, Finished, Stopped, flash_blocks-outcome,
}
use p2000t_cartridge_studio.Worker.Prepared.{
  erased, flashed, Fits, Programs, erased-Job, burnt-erased, burnt_nothing,
}
use p2000t_cartridge_studio.Base.{
  ℕ, ◌+◌, ◌*◌, ◌<◌, ◌≡◌, refl, sym, ap, subst, ◌∙◌, ◌⊎◌, inl, inr, Bool, true, false, ◌||◌, none,
  List, [], ◌∷◌, ◌++◌, append_assoc, arith, ◌==◌, if◌then◌else◌, Bool-cases, length,
}

-- A try block that returns is not caught.
pub handled_ok :
    {S E A : Type 0} {a : A} (r : Result E A × S) (h : E → M S E A) → r.0 ≡ ok a → handled r h ≡ r
handled_ok (ok x, s) h e = refl
handled_ok (err x, s) h e = absurd (ground arith)

module _ (version : Bytes) (time : ℕ → ℕ) (fuel : ℕ) (interrupted : ℕ → Bool) where
  -- A run that programmed its content,
  pub record Done (job : FlashJob) (content : Bytes) (c : Cartridge) (signals : List Signal)
      (r : Result Failure (Unit {0}) × Worker version time fuel interrupted) : Type 0 where
    pub returned : r.0 ≡ ok tt
    pub closed :
        Closed version time fuel interrupted
          (flashed job content c)
          (signals
            ++ (block_signals (block_count job) 0 (block_count job) ++ flash_result_ready ∷ []))
          (r.1)

  -- or that an interruption request stopped, with `written` blocks in the erased region.
  pub record Interrupted (job : FlashJob) (content : Bytes) (c : Cartridge) (signals : List Signal)
      (r : Result Failure (Unit {0}) × Worker version time fuel interrupted) : Type 0 where
    pub poll : ℕ
    pub asked : interrupted poll ≡ true
    pub written : ℕ
    pub partly : written < block_count job
    pub message : Cancelled
    pub returned : r.0 ≡ ok tt
    pub closed :
        Closed version time fuel interrupted
          (burnt (first_block job) content written (erased job c))
          (signals ++ (block_signals written 0 (block_count job) ++ thread_cancelled message ∷ []))
          (r.1)

  -- What follows the loop of a job.
  after_loop :
      Result Failure Bool × Worker version time fuel interrupted
      → Result Failure (Unit {0}) × Worker version time fuel interrupted
  after_loop r = proceed r (λ done.
      if done
      then (close_serial (Port version time) >> emit (Port version time) flash_result_ready)
      else pure tt)

  after_loop-outcome :
      {job : FlashJob} {content : Bytes} {c : Cartridge} (signals : List Signal)
      (r : Result Failure Bool × Worker version time fuel interrupted)
      → Programs job content c
      → Finished version time fuel interrupted
          (erased job c)
          content
          (first_block job)
          0
          (block_count job)
          (block_count job)
          signals
          r
        ⊎ Stopped version time fuel interrupted
            (erased job c)
            content
            (first_block job)
            0
            (block_count job)
            (block_count job)
            signals
            r
      → Done job content c signals (after_loop r) ⊎ Interrupted job content c signals (after_loop r)
  unfolding after_loop
  after_loop-outcome {job} {content} {c} signals (ok true, t) p (inl f) =
      let all : 0 + block_count job ≡ block_count job = omega arith in
      inl (record {
        returned = refl;
        closed = record {
          attached =
              subst
                (λ (x : Cartridge).
                  Attached version time x (close_port (Port version time) t.serial_interface))
                (ap (λ (n : ℕ). burnt (first_block job) content n (erased job c)) all
                  ∙ burnt-erased p)
                (close_port-Attached version time t.serial_interface f.running.session);
          signals_are =
              ap (λ (x : List Signal). x ++ flash_result_ready ∷ []) f.running.signals_are
              ∙ append_assoc signals _ _;
        };
      })
  after_loop-outcome {job} {content} {c} signals (ok false, t) p (inr s) =
      let e : 0 + s.written ≡ s.written = omega arith in
      inr (record {
        poll = s.poll;
        asked = s.asked;
        written = s.written;
        partly = s.partly;
        message = after_blocks (0 + s.written) (block_count job);
        returned = refl;
        closed = record {
          attached =
              subst
                (λ (n : ℕ).
                  Attached version time (burnt (first_block job) content n (erased job c))
                    t.serial_interface)
                e s.closed.attached;
          signals_are = s.closed.signals_are;
        };
      })
  after_loop-outcome signals (ok true, t) p (inr s) = absurd (ground (arith, s.returned))
  after_loop-outcome signals (ok false, t) p (inl f) = absurd (ground (arith, f.returned))
  after_loop-outcome signals (err x, t) p (inr s) = absurd (ground (arith, s.returned))
  after_loop-outcome signals (err x, t) p (inl f) = absurd (ground (arith, f.returned))

  -- The erase of a job.
  pub erase-Session :
      {c : Cartridge} (job : FlashJob) (s : SerialInterface (Port version time))
      → Session version time c none [] s
      → Fits job c
      → Yields version time fuel
          ((if job.complete_rom
              then erase_chip (Port version time) (enough fuel)
              else erase_bank (Port version time) (enough fuel) job.bank_index)
            s)
          (ok tt)
          (erased job c)
  erase-Session {c} job s h fits = elim (Bool-cases job.complete_rom) [
    | inl whole ↦ rw whole (erase_chip-Session version time fuel s h fits.known)
    | inr one ↦
        let bank : job.bank_index < numbanks = ground (arith, fits.inside) in
        let at : job.bank_index * banksize ≡ job.bank_index * 64 * blocksize = omega arith in
        rw one (
          subst
            (λ (n : ℕ).
              Yields version time fuel
                (erase_bank (Port version time) (enough fuel) job.bank_index s) (ok tt)
                (fill n banksize c))
            at (erase_bank-Session version time fuel job.bank_index s h bank fits.known))
  ]

  program-outcome :
      {job : FlashJob} {content : Bytes} {c : Cartridge} (signals : List Signal)
      (t : Worker version time fuel interrupted)
      → Programs job content c
      → Running version time fuel interrupted (erased job c) content signals t
      → let r = program (Port version time) (enough fuel) interrupted job t in
        Done job content c signals r ⊎ Interrupted job content c signals r
  unfolding program after_loop block_signals
  program-outcome {job} {content} {c} signals t p h = elim (Bool-cases (interrupted t.polls)) [
    | inl stop ↦ inr (
        rw stop (record {
          poll = t.polls;
          asked = stop;
          written = 0;
          partly = ground arith;
          message = after_erase;
          returned = refl;
          closed = record {
            attached =
                subst
                  (λ (x : Cartridge).
                    Attached version time x (close_port (Port version time) t.serial_interface))
                  (burnt_nothing (erased-Job p))
                  (close_port-Attached version time t.serial_interface h.session);
            signals_are =
                ap (λ (x : List Signal). x ++ thread_cancelled after_erase ∷ []) h.signals_are;
          };
        }))
    | inr go ↦
        let t' : Worker version time fuel interrupted = record t { polls = t.polls + 1 } in
        let again : Running version time fuel interrupted
            (burnt (first_block job) content 0 (erased job c)) content signals t' =
          record {
            session =
                subst (λ (x : Cartridge). Session version time x none [] t.serial_interface)
                  (burnt_nothing (erased-Job p)) h.session;
            content_is = h.content_is;
            signals_are = h.signals_are;
          } in
        rw go (
          after_loop-outcome signals _ p (
            flash_blocks-outcome version time fuel interrupted (block_count job) 0 signals t'
              (erased-Job p) (omega arith) again))
  ]

  outcome_returned :
      {job : FlashJob} {content : Bytes} {c : Cartridge} {signals : List Signal}
      (r : Result Failure (Unit {0}) × Worker version time fuel interrupted)
      → Done job content c signals r ⊎ Interrupted job content c signals r
      → r.0 ≡ ok tt
  outcome_returned r (inl d) = d.returned
  outcome_returned r (inr i) = i.returned

  -- A run of a job that programs, on a cartridge of the supported chip with 256 KiB and with
  -- interruption requests at any polls, returns in one of two states: all programmed and
  -- signalled, or stopped at a request, with the first blocks of the content in the erased
  -- region, signals for exactly those blocks and then thread_cancelled, and the port closed.
  pub run_flash-outcome :
      {job : FlashJob} {content : Bytes} {c : Cartridge} (t : Worker version time fuel interrupted)
      → Programs job content c
      → t.content ≡ content
      → Attached version time c t.serial_interface
      → let r = run_flash (Port version time) (enough fuel) interrupted job t in
        Done job content c t.signals r ⊎ Interrupted job content c t.signals r
  unfolding run_flash flash_body erase
  run_flash-outcome {job} {content} {c} t p held h =
      let (s₁, opened, h₁) = open_port-Session version time t.serial_interface h in
      let (s₂, identified, h₂) =
        get_chip_id-Session version time fuel s₁ h₁ (omega (arith, p.fits.known)) in
      let (s₃, wiped, h₃) = erase-Session job s₂ h₂ p.fits in
      let sized : (job.erase_only
            || length t.content == (if job.complete_rom then romsize else banksize))
          ≡ true =
        rw held (ground (arith, p.sized, p.writes)) in
      let t₃ : Worker version time fuel interrupted = record t { serial_interface = s₃ } in
      let run : Running version time fuel interrupted (erased job c) content t.signals t₃ = record {
        session = h₃;
        content_is = held;
        signals_are = refl;
      } in
      let r = program (Port version time) (enough fuel) interrupted job t₃ in
      let o : Done job content c t.signals r ⊎ Interrupted job content c t.signals r =
        program-outcome t.signals t₃ p run in
      let known : (c.chip == expected_chip) ≡ true = ground (arith, p.fits.known) in
      let same : run_flash (Port version time) (enough fuel) interrupted job t ≡ r =
        rw (sized, opened, identified, known, wiped)
          (ap
              (λ (b : Bool).
                handled
                  ((if b
                      then finish_erase (Port version time) (enough fuel) interrupted
                      else program (Port version time) (enough fuel) interrupted job)
                    t₃)
                  (abort_run (Port version time) (enough fuel) interrupted))
              p.writes
            ∙ handled_ok r (abort_run (Port version time) (enough fuel) interrupted)
                (outcome_returned r o)) in
      subst (λ x. Done job content c t.signals x ⊎ Interrupted job content c t.signals x) (sym same)
        o
