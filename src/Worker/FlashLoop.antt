-- ===== src/Worker/FlashLoop.antt =====
-- The loop of src/flashthread.cpp on the emulated cartridge: it programs all blocks, or stops between
-- two of them.
use p2000t_cartridge_studio.RomSizes.{blocksize}
use p2000t_cartridge_studio.Bytes.{Bytes, mid, length-mid}
use p2000t_cartridge_studio.Effects.{Result, ok}
use p2000t_cartridge_studio.Serial.{Failure}
use p2000t_cartridge_studio.Serial.Wire.{close_port}
use p2000t_cartridge_studio.Serial.Commands.{burn_block}
use p2000t_cartridge_studio.Emulator.{clears_bits}
use p2000t_cartridge_studio.Emulator.Session.{Cartridge, Port, Session}
use p2000t_cartridge_studio.Emulator.Protocol.{enough}
use p2000t_cartridge_studio.Emulator.Burn.{write_outcome, after_write, burn_block-Session}
use p2000t_cartridge_studio.Emulator.Connect.{Attached, close_port-Attached}
use p2000t_cartridge_studio.Emulator.Erased.{IsBytes-mid}
use p2000t_cartridge_studio.Worker.{
  IoWorker, Signal, flash_block_start, flash_block_done, thread_cancelled, after_blocks,
}
use p2000t_cartridge_studio.Worker.Flash.{flash_blocks}
use p2000t_cartridge_studio.Worker.Blocks.{
  block_signals, Job, burnt, length-burnt, next_possible, programmed-burnt,
}
use p2000t_cartridge_studio.Base.{
  ℕ, zero, suc, ◌+◌, ◌*◌, ◌<◌, ◌≡◌, refl, sym, ap, subst, ◌∙◌, ◌⊎◌, inl, inr, Bool, true, false,
  none, List, [], ◌∷◌, ◌++◌, append-nil, append_assoc, arith, Bool-cases,
}

module _ (version : Bytes) (time : ℕ → ℕ) (fuel : ℕ) (interrupted : ℕ → Bool) where
  abbrev pub Worker : Type 0
  Worker = IoWorker (Port version time)

  -- A worker in the middle of a run: the cartridge holds `c`, and `content` is to be written.
  pub record Running (c : Cartridge) (content : Bytes) (signals : List Signal) (t : Worker)
      : Type 0 where
    pub session : Session version time c none [] t.serial_interface
    pub content_is : t.content ≡ content
    pub signals_are : t.signals ≡ signals

  -- A worker that has closed its port.
  pub record Closed (c : Cartridge) (signals : List Signal) (t : Worker) : Type 0 where
    pub attached : Attached version time c t.serial_interface
    pub signals_are : t.signals ≡ signals

  -- The loop has written all of its blocks,
  pub record Finished (c : Cartridge) (content : Bytes) (first block left count : ℕ)
      (signals : List Signal) (r : Result Failure Bool × Worker) : Type 0 where
    pub returned : r.0 ≡ ok true
    pub running :
        Running
          (burnt first content (block + left) c)
          content
          (signals ++ block_signals left block count)
          (r.1)

  -- or an interruption was requested, and it stopped between two blocks.
  pub record Stopped (c : Cartridge) (content : Bytes) (first block left count : ℕ)
      (signals : List Signal) (r : Result Failure Bool × Worker) : Type 0 where
    pub poll : ℕ
    pub asked : interrupted poll ≡ true
    pub written : ℕ
    pub partly : written < left
    pub returned : r.0 ≡ ok false
    pub closed :
        Closed
          (burnt first content (block + written) c)
          (signals
            ++ (block_signals written block count
                ++ thread_cancelled (after_blocks (block + written) count) ∷ []))
          (r.1)

  -- A block that no interruption precedes is programmed.
  flash_blocks-step :
      {c : Cartridge} {content : Bytes} {first count : ℕ} (left block : ℕ) (signals : List Signal)
      (t : Worker)
      → Job c content first count
      → block < count
      → interrupted t.polls ≡ false
      → Running (burnt first content block c) content signals t
      → (t' : Worker) × (flash_blocks
            (Port version time)
            (enough fuel)
            interrupted
            (suc left)
            block
            count
            first
            t
          ≡ flash_blocks
              (Port version time)
              (enough fuel)
              interrupted
              left
              (block + 1)
              count
              first
              t')
        × Running
            (burnt first content (block + 1) c)
            content
            (signals ++ flash_block_start block count ∷ flash_block_done block count ∷ [])
            t'
  unfolding flash_blocks
  flash_blocks-step {c} {content} {first} {count} left block signals t job h go run =
      let chunk = mid (block * blocksize) blocksize content in
      let before = burnt first content block c in
      let possible : clears_bits (mid ((first + block) * blocksize) blocksize before.contents) chunk
          ≡ true =
        next_possible job block h in
      let (s', burned, session) =
        burn_block-Session version time fuel (first + block) chunk t.serial_interface run.session
          (omega (arith, job.inside))
          (length-mid (block * blocksize) blocksize content (omega (arith, job.sized)))
          (IsBytes-mid (block * blocksize) blocksize content job.bytes) job.known
          (length-burnt job block (omega arith)) in
      let wrote : burn_block (Port version time) (enough fuel) (first + block)
            (mid (block * blocksize) blocksize t.content) t.serial_interface
          ≡ (ok tt, s') =
        rw run.content_is (
          burned
          ∙ ap (λ (b : Bool). (write_outcome version time fuel b (first + block), s')) possible) in
      let t' : Worker = record t {
        serial_interface = s';
        signals =
            (t.signals ++ flash_block_start block count ∷ []) ++ flash_block_done block count ∷ [];
        polls = t.polls + 1;
      } in
      (
        t',
        rw (go, wrote) refl,
        record {
          session =
              subst (λ (x : Cartridge). Session version time x none [] s')
                (ap (λ (b : Bool). after_write b (first + block) chunk before) possible
                  ∙ programmed-burnt job block h)
                session;
          content_is = run.content_is;
          signals_are =
              append_assoc t.signals _ _
              ∙ ap
                  (λ (x : List Signal).
                    x ++ flash_block_start block count ∷ flash_block_done block count ∷ [])
                  run.signals_are;
        },
      )

  -- What holds of the rest of the loop holds of the loop that has one block more.
  later :
      {c : Cartridge} {content : Bytes} {first count : ℕ} (left block : ℕ) (signals : List Signal)
      (r : Result Failure Bool × Worker)
      → let after = signals ++ flash_block_start block count ∷ flash_block_done block count ∷ [] in
        Finished c content first (block + 1) left count after r
          ⊎ Stopped c content first (block + 1) left count after r
        → Finished c content first block (suc left) count signals r
          ⊎ Stopped c content first block (suc left) count signals r
  unfolding block_signals
  later {c} {content} {first} {count} left block signals r (inl f) =
      let e : block + 1 + left ≡ block + suc left = omega arith in
      inl (record {
        returned = f.returned;
        running = record {
          session =
              subst
                (λ (n : ℕ).
                  Session version time (burnt first content n c) none [] (r.1).serial_interface)
                e f.running.session;
          content_is = f.running.content_is;
          signals_are = f.running.signals_are ∙ append_assoc signals _ _;
        };
      })
  later {c} {content} {first} {count} left block signals r (inr s) =
      let e : block + 1 + s.written ≡ block + suc s.written = omega arith in
      inr (record {
        poll = s.poll;
        asked = s.asked;
        written = suc s.written;
        partly = omega (arith, s.partly);
        returned = s.returned;
        closed = record {
          attached =
              subst
                (λ (n : ℕ). Attached version time (burnt first content n c) (r.1).serial_interface)
                e s.closed.attached;
          signals_are =
              s.closed.signals_are
              ∙ append_assoc signals _ _
              ∙ ap
                  (λ (n : ℕ).
                    signals
                    ++ flash_block_start block count
                      ∷ flash_block_done block count
                      ∷ (block_signals s.written (block + 1) count
                          ++ thread_cancelled (after_blocks n count) ∷ []))
                  e;
        };
      })

  pub flash_blocks-outcome :
      {c : Cartridge} {content : Bytes} {first count : ℕ} (left block : ℕ) (signals : List Signal)
      (t : Worker)
      → Job c content first count
      → block + left ≡ count
      → Running (burnt first content block c) content signals t
      → let r =
          flash_blocks (Port version time) (enough fuel) interrupted left block count first t in
        Finished c content first block left count signals r
        ⊎ Stopped c content first block left count signals r
  unfolding flash_blocks block_signals
  flash_blocks-outcome {c} {content} {first} {count} zero block signals t job total h =
      let e : block ≡ block + 0 = omega arith in
      inl (record {
        returned = refl;
        running = record {
          session =
              subst
                (λ (n : ℕ).
                  Session version time (burnt first content n c) none [] t.serial_interface)
                e h.session;
          content_is = h.content_is;
          signals_are = h.signals_are ∙ sym (append-nil signals);
        };
      })
  flash_blocks-outcome {c} {content} {first} {count} (suc left) block signals t job total h =
      elim (Bool-cases (interrupted t.polls)) [
        | inl stop ↦
            let e : block ≡ block + 0 = omega arith in
            inr (
              rw stop (record {
                poll = t.polls;
                asked = stop;
                written = 0;
                partly = omega arith;
                returned = refl;
                closed = record {
                  attached =
                      subst
                        (λ (n : ℕ).
                          Attached version time (burnt first content n c)
                            (close_port (Port version time) t.serial_interface))
                        e (close_port-Attached version time t.serial_interface h.session);
                  signals_are =
                      ap
                        (λ (x : List Signal). x ++ thread_cancelled (after_blocks block count) ∷ [])
                        h.signals_are
                      ∙ ap (λ (n : ℕ). signals ++ thread_cancelled (after_blocks n count) ∷ []) e;
                };
              }))
        | inr go ↦
            let (t', e, run) = flash_blocks-step left block signals t job (omega arith) go h in
            subst
              (λ (r : Result Failure Bool × Worker).
                Finished c content first block (suc left) count signals r
                ⊎ Stopped c content first block (suc left) count signals r)
              (sym e)
              (later left block signals _
                (flash_blocks-outcome left (block + 1) _ t' job (omega arith) run))
      ]
