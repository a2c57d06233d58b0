-- ===== src/Worker/ReadRun.antt =====
-- src/readthread.cpp on the emulated cartridge: what a complete run returns and signals, and that it
-- reads back what src/flashthread.cpp wrote.
use p2000t_cartridge_studio.RomSizes.{romsize, banksize, numbanks}
use p2000t_cartridge_studio.Bytes.{Bytes, IsBytes, mid, overwrite, length-overwrite}
use p2000t_cartridge_studio.Effects.{Result, ok, err, pure, proceed}
use p2000t_cartridge_studio.Serial.{Failure}
use p2000t_cartridge_studio.Emulator.{sst39sf020}
use p2000t_cartridge_studio.Emulator.Session.{Cartridge, Port}
use p2000t_cartridge_studio.Emulator.Protocol.{enough, get_chip_id-Session}
use p2000t_cartridge_studio.Emulator.Connect.{Attached, open_port-Session, close_port-Attached}
use p2000t_cartridge_studio.Worker.{Signal}
use p2000t_cartridge_studio.Worker.Flash.{FlashJob, expected_chip, abort_run, run_flash}
use p2000t_cartridge_studio.Worker.FlashLoop.{Worker, Running}
use p2000t_cartridge_studio.Worker.FlashRun.{handled_ok}
use p2000t_cartridge_studio.Worker.Flash.{set_bank}
use p2000t_cartridge_studio.Worker.Read.{
  ReadJob, set_bank_range, read_banks, finish_read, read_body, run_read,
}
use p2000t_cartridge_studio.Worker.{read_result_ready}
use p2000t_cartridge_studio.Worker.ReadLoop.{bank_signals, ReadAll, read_banks-outcome}
use p2000t_cartridge_studio.Worker.Flashing.{bank_flashed}
use p2000t_cartridge_studio.Bytes.Regions.{mid-overwrite_self}
use p2000t_cartridge_studio.Base.{
  ℕ, ◌+◌, ◌*◌, ◌%◌, ◌^◌, ◌≤◌, ◌<◌, ◌≡◌, refl, ap, ◌∙◌, inl, inr, Bool, true, false, List, [], ◌∷◌,
  ◌++◌, append_assoc, arith, ltb, leb, ◌==◌, if◌then◌else◌, length, set,
}

module _ (version : Bytes) (time : ℕ → ℕ) (fuel : ℕ) (interrupted : ℕ → Bool) where
  -- What follows the loop of a read.
  after_loop :
      Result Failure Bool × Worker version time fuel interrupted
      → Result Failure (Unit {0}) × Worker version time fuel interrupted
  after_loop r =
      proceed r (λ done.
        if done then finish_read (Port version time) (enough fuel) interrupted else pure tt)

  after_loop-finished :
      {job : ReadJob} {c : Cartridge} {left : ℕ} {signals : List Signal}
      (r : Result Failure Bool × Worker version time fuel interrupted)
      → ((n : ℕ) → interrupted n ≡ false)
      → ReadAll version time fuel interrupted job c left 0 signals r
      → let f = after_loop r in
        (f.0 ≡ ok tt)
        × Attached version time c (f.1).serial_interface
        × ((f.1).content ≡ mid (job.first_bank * banksize) (left * banksize) c.contents)
        × ((f.1).signals
            ≡ signals ++ (bank_signals left 0 job.bank_count ++ read_result_ready ∷ []))
  unfolding after_loop finish_read
  after_loop-finished {job} {c} {left} {signals} (ok true, t) never a =
      let all : 0 + left ≡ left = omega arith in
      rw (never t.polls) (
        refl,
        close_port-Attached version time t.serial_interface a.running.session,
        a.running.content_is
            ∙ ap (λ (n : ℕ). mid (job.first_bank * banksize) (n * banksize) c.contents) all,
        ap (λ (x : List Signal). x ++ read_result_ready ∷ []) a.running.signals_are
            ∙ append_assoc signals _ _,
      )
  after_loop-finished (ok false, t) never a = absurd (ground (arith, a.returned))
  after_loop-finished (err x, t) never a = absurd (ground (arith, a.returned))

  -- An uninterrupted read of a range of banks of a cartridge of the supported chip with 256 KiB
  -- returns what is stored there, changes nothing on the cartridge, closes the port, and
  -- signals each bank in order and then read_result_ready.
  pub banks_read :
      {c : Cartridge} (job : ReadJob) (t : Worker version time fuel interrupted)
      → job.first_bank + job.bank_count ≤ numbanks
      → c.chip ≡ sst39sf020
      → length c.contents ≡ romsize
      → Attached version time c t.serial_interface
      → ((n : ℕ) → interrupted n ≡ false)
      → let r = run_read (Port version time) (enough fuel) interrupted job t in
        (r.0 ≡ ok tt)
        × Attached version time c (r.1).serial_interface
        × ((r.1).content ≡ mid (job.first_bank * banksize) (job.bank_count * banksize) c.contents)
        × ((r.1).signals
            ≡ t.signals ++ (bank_signals job.bank_count 0 job.bank_count ++ read_result_ready ∷ []))
  unfolding run_read read_body after_loop mid
  banks_read {c} job t inside known whole h never =
      let (s₁, opened, h₁) = open_port-Session version time t.serial_interface h in
      let (s₂, identified, h₂) =
        get_chip_id-Session version time fuel s₁ h₁ (omega (arith, known)) in
      let supported : (c.chip == expected_chip) ≡ true = ground (arith, known) in
      let t₂ : Worker version time fuel interrupted = record t {
        content = [];
        serial_interface = s₂;
      } in
      let run : Running version time fuel interrupted c
          (mid (job.first_bank * banksize) (0 * banksize) c.contents) t.signals t₂ =
        record { session = h₂; content_is = refl; signals_are = refl } in
      let looped =
        read_banks (Port version time) (enough fuel) interrupted job.bank_count 0 job t₂ in
      let all : ReadAll version time fuel interrupted job c job.bank_count 0 t.signals looped =
        elim (read_banks-outcome version time fuel interrupted job job.bank_count 0 t.signals t₂
          (omega arith) known whole run) [
            | inl a ↦ a
            | inr s ↦ absurd (ground (arith, s.asked, never s.poll))
          ] in
      let (returned, attached, content, signals) = after_loop-finished looped never all in
      let same : run_read (Port version time) (enough fuel) interrupted job t ≡ after_loop looped =
        rw (opened, identified, supported)
          (handled_ok (after_loop looped) (abort_run (Port version time) (enough fuel) interrupted)
            returned) in
      rw same (returned, attached, content, signals)

  -- Flashing a bank and then reading it back, both uninterrupted, on a cartridge of the
  -- supported chip with 256 KiB returns the bytes that were flashed; both jobs are accepted by
  -- their setters.
  pub flash_then_read :
      {c : Cartridge} (bank : ℕ) (content : Bytes) (old : FlashJob × Bytes)
      (t u : Worker version time fuel interrupted)
      → bank < numbanks
      → length content ≡ banksize
      → IsBytes content
      → c.chip ≡ sst39sf020
      → length c.contents ≡ romsize
      → Attached version time c t.serial_interface
      → ((n : ℕ) → interrupted n ≡ false)
      → (job : FlashJob) × (range : ReadJob) × (set_bank bank content old ≡ ok (job, content))
        × (set_bank_range bank 1 ≡ ok range)
        × (let flashed =
              run_flash
                (Port version time)
                (enough fuel)
                interrupted
                job
                (record t { content = content }) in
            let r =
              run_read
                (Port version time)
                (enough fuel)
                interrupted
                range
                (record u { serial_interface = (flashed.1).serial_interface }) in
            (r.0 ≡ ok tt) × ((r.1).content ≡ content))
  unfolding set_bank_range
  flash_then_read {c} bank content old t u within sized bytes known whole h never =
      let (job, set, (returned, attached, signals)) =
        bank_flashed version time fuel interrupted bank content old t within sized bytes known whole
          h never in
      let range : ReadJob = record { first_bank = bank; bank_count = 1 } in
      let low : leb numbanks bank ≡ false = ground arith in
      let sum : ltb numbanks ((bank + 1) % 2 ^ 32) ≡ false = ground arith in
      let room : bank * banksize + length content ≤ length c.contents = omega arith in
      let (read, still, got, told) =
        banks_read range
          (record u {
            serial_interface =
                (run_flash (Port version time) (enough fuel) interrupted job
                  (record t { content = content })).1.serial_interface;
          })
          (omega arith) known (length-overwrite (bank * banksize) content c.contents room ∙ whole)
          attached never in
      let size : 1 * banksize ≡ length content = omega arith in
      (
        job,
        range,
        set,
        rw (low, sum) refl,
        (
          read,
          got
              ∙ ap
                  (λ (n : ℕ).
                    mid (bank * banksize) n (overwrite (bank * banksize) content c.contents))
                  size
              ∙ mid-overwrite_self (bank * banksize) content c.contents room,
        ),
      )
