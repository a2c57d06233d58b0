-- ===== src/Worker/ReadLoop.antt =====
-- The loop of src/readthread.cpp on the emulated cartridge.
use p2000t_cartridge_studio.RomSizes.{romsize, banksize, numbanks}
use p2000t_cartridge_studio.Bytes.{Bytes, mid}
use p2000t_cartridge_studio.Bytes.Regions.{mid-append_mid}
use p2000t_cartridge_studio.Effects.{Result, ok}
use p2000t_cartridge_studio.Serial.{Failure}
use p2000t_cartridge_studio.Emulator.{sst39sf020}
use p2000t_cartridge_studio.Emulator.Session.{Cartridge, Port}
use p2000t_cartridge_studio.Emulator.Protocol.{enough}
use p2000t_cartridge_studio.Emulator.Connect.{close_port-Attached}
use p2000t_cartridge_studio.Worker.{Signal, thread_cancelled}
use p2000t_cartridge_studio.Worker.FlashLoop.{Worker, Running, Closed}
use p2000t_cartridge_studio.Worker.Read.{ReadJob, read_banks}
use p2000t_cartridge_studio.Worker.{read_bank_start, read_bank_done, after_banks}
use p2000t_cartridge_studio.Emulator.Protocol.{read_bank-Session}
use p2000t_cartridge_studio.Base.{
  ℕ, zero, suc, ◌+◌, ◌*◌, ◌≤◌, ◌<◌, ◌≡◌, refl, sym, ap, subst, ◌∙◌, ◌⊎◌, inl, inr, Bool, true,
  false, List, [], ◌∷◌, ◌++◌, append-nil, append_assoc, arith, Bool-cases, length,
}

-- The signals of `left` banks from `offset` on.
unfoldable pub bank_signals : ℕ → ℕ → ℕ → List Signal
bank_signals zero offset count = []
bank_signals (suc left) offset count =
    read_bank_start offset count
    ∷ read_bank_done offset count
    ∷ bank_signals left (offset + 1) count

module _ (version : Bytes) (time : ℕ → ℕ) (fuel : ℕ) (interrupted : ℕ → Bool) where
  abbrev loop :
      ReadJob
      → ℕ
      → ℕ
      → Worker version time fuel interrupted
      → Result Failure Bool × Worker version time fuel interrupted
  loop job left offset = read_banks (Port version time) (enough fuel) interrupted left offset job

  -- The loop has read all of its banks,
  pub record ReadAll (job : ReadJob) (c : Cartridge) (left offset : ℕ) (signals : List Signal)
      (r : Result Failure Bool × Worker version time fuel interrupted) : Type 0 where
    pub returned : r.0 ≡ ok true
    pub running :
        Running version time fuel interrupted c
          (mid (job.first_bank * banksize) ((offset + left) * banksize) c.contents)
          (signals ++ bank_signals left offset job.bank_count)
          (r.1)

  -- or an interruption was requested.
  pub record ReadPart (job : ReadJob) (c : Cartridge) (left offset : ℕ) (signals : List Signal)
      (r : Result Failure Bool × Worker version time fuel interrupted) : Type 0 where
    pub poll : ℕ
    pub asked : interrupted poll ≡ true
    pub done : ℕ
    pub partly : done < left
    pub returned : r.0 ≡ ok false
    pub closed :
        Closed version time fuel interrupted c
          (signals
            ++ (bank_signals done offset job.bank_count
                ++ thread_cancelled (after_banks (offset + done) job.bank_count) ∷ []))
          (r.1)

  read_banks-step :
      (job : ReadJob) {c : Cartridge} (left offset : ℕ) (signals : List Signal)
      (t : Worker version time fuel interrupted)
      → job.first_bank + offset < numbanks
      → c.chip ≡ sst39sf020
      → length c.contents ≡ romsize
      → interrupted t.polls ≡ false
      → Running version time fuel interrupted c
          (mid (job.first_bank * banksize) (offset * banksize) c.contents)
          signals
          t
      → (t' : Worker version time fuel interrupted) × (loop job (suc left) offset t
          ≡ loop job left (offset + 1) t')
        × Running version time fuel interrupted c
            (mid (job.first_bank * banksize) ((offset + 1) * banksize) c.contents)
            (signals
              ++ read_bank_start offset job.bank_count ∷ read_bank_done offset job.bank_count ∷ [])
            t'
  unfolding read_banks
  read_banks-step job {c} left offset signals t within known whole go h =
      let bank = mid ((job.first_bank + offset) * banksize) banksize c.contents in
      let (s', got, session) =
        read_bank-Session version time fuel (job.first_bank + offset) t.serial_interface h.session
          within known whole in
      let t' : Worker version time fuel interrupted = record t {
        serial_interface = s';
        content = t.content ++ bank;
        signals =
            (t.signals ++ read_bank_start offset job.bank_count ∷ [])
            ++ read_bank_done offset job.bank_count ∷ [];
        polls = t.polls + 1;
      } in
      let from : (job.first_bank + offset) * banksize
          ≡ job.first_bank * banksize + offset * banksize =
        omega arith in
      let total : offset * banksize + banksize ≡ (offset + 1) * banksize = omega arith in
      (
        t',
        rw (go, got) refl,
        record {
          session = session;
          content_is =
              ap (λ (x : Bytes). x ++ bank) h.content_is
              ∙ ap
                  (λ (n : ℕ).
                    mid (job.first_bank * banksize) (offset * banksize) c.contents
                    ++ mid n banksize c.contents)
                  from
              ∙ mid-append_mid (job.first_bank * banksize) (offset * banksize) banksize c.contents
                  (omega (arith, whole, within))
              ∙ ap (λ (n : ℕ). mid (job.first_bank * banksize) n c.contents) total;
          signals_are =
              append_assoc t.signals _ _
              ∙ ap
                  (λ (x : List Signal).
                    x
                    ++ read_bank_start offset job.bank_count
                      ∷ read_bank_done offset job.bank_count
                      ∷ [])
                  h.signals_are;
        },
      )

  later :
      {job : ReadJob} {c : Cartridge} (left offset : ℕ) (signals : List Signal)
      (r : Result Failure Bool × Worker version time fuel interrupted)
      → let after =
          signals
          ++ read_bank_start offset job.bank_count ∷ read_bank_done offset job.bank_count ∷ [] in
        ReadAll job c left (offset + 1) after r ⊎ ReadPart job c left (offset + 1) after r
        → ReadAll job c (suc left) offset signals r ⊎ ReadPart job c (suc left) offset signals r
  unfolding bank_signals
  later {job} {c} left offset signals r (inl f) =
      let e : offset + 1 + left ≡ offset + suc left = omega arith in
      inl (record {
        returned = f.returned;
        running = record {
          session = f.running.session;
          content_is =
              f.running.content_is
              ∙ ap (λ (n : ℕ). mid (job.first_bank * banksize) (n * banksize) c.contents) e;
          signals_are = f.running.signals_are ∙ append_assoc signals _ _;
        };
      })
  later {job} {c} left offset signals r (inr s) =
      let e : offset + 1 + s.done ≡ offset + suc s.done = omega arith in
      inr (record {
        poll = s.poll;
        asked = s.asked;
        done = suc s.done;
        partly = omega (arith, s.partly);
        returned = s.returned;
        closed = record {
          attached = s.closed.attached;
          signals_are =
              s.closed.signals_are
              ∙ append_assoc signals _ _
              ∙ ap
                  (λ (n : ℕ).
                    signals
                    ++ read_bank_start offset job.bank_count
                      ∷ read_bank_done offset job.bank_count
                      ∷ (bank_signals s.done (offset + 1) job.bank_count
                          ++ thread_cancelled (after_banks n job.bank_count) ∷ []))
                  e;
        };
      })

  pub read_banks-outcome :
      (job : ReadJob) {c : Cartridge} (left offset : ℕ) (signals : List Signal)
      (t : Worker version time fuel interrupted)
      → job.first_bank + offset + left ≤ numbanks
      → c.chip ≡ sst39sf020
      → length c.contents ≡ romsize
      → Running version time fuel interrupted c
          (mid (job.first_bank * banksize) (offset * banksize) c.contents)
          signals
          t
      → ReadAll job c left offset signals (loop job left offset t)
        ⊎ ReadPart job c left offset signals (loop job left offset t)
  unfolding read_banks bank_signals
  read_banks-outcome job {c} zero offset signals t within known whole h =
      let e : offset ≡ offset + 0 = omega arith in
      inl (record {
        returned = refl;
        running = record {
          session = h.session;
          content_is =
              h.content_is
              ∙ ap (λ (n : ℕ). mid (job.first_bank * banksize) (n * banksize) c.contents) e;
          signals_are = h.signals_are ∙ sym (append-nil signals);
        };
      })
  read_banks-outcome job {c} (suc left) offset signals t within known whole h =
      elim (Bool-cases (interrupted t.polls)) [
        | inl stop ↦
            let e : offset ≡ offset + 0 = omega arith in
            inr (
              rw stop (record {
                poll = t.polls;
                asked = stop;
                done = 0;
                partly = omega arith;
                returned = refl;
                closed = record {
                  attached = close_port-Attached version time t.serial_interface h.session;
                  signals_are =
                      ap
                        (λ (x : List Signal).
                          x ++ thread_cancelled (after_banks offset job.bank_count) ∷ [])
                        h.signals_are
                      ∙ ap
                          (λ (n : ℕ).
                            signals ++ thread_cancelled (after_banks n job.bank_count) ∷ [])
                          e;
                };
              }))
        | inr go ↦
            let (t', e, h') =
              read_banks-step job left offset signals t (omega arith) known whole go h in
            subst
              (λ (r : Result Failure Bool × Worker version time fuel interrupted).
                ReadAll job c (suc left) offset signals r
                ⊎ ReadPart job c (suc left) offset signals r)
              (sym e)
              (later left offset signals _
                (read_banks-outcome job left (offset + 1) _ t' (omega arith) known whole h'))
      ]
