-- ===== src/Worker/Endings.antt =====
-- src/flashthread.cpp on the emulated cartridge: runs that only erase, and runs that find another chip.
use p2000t_cartridge_studio.RomSizes.{romsize, banksize}
use p2000t_cartridge_studio.Bytes.{Bytes}
use p2000t_cartridge_studio.Effects.{ok, handled}
use p2000t_cartridge_studio.Emulator.{sst39sf020}
use p2000t_cartridge_studio.Emulator.Session.{Cartridge, Port}
use p2000t_cartridge_studio.Emulator.Protocol.{enough, get_chip_id-Session}
use p2000t_cartridge_studio.Emulator.Connect.{Attached, open_port-Session, close_port-Attached}
use p2000t_cartridge_studio.Worker.{
  erase_result_ready, thread_cancelled, thread_abort, after_verified_erase,
}
use p2000t_cartridge_studio.Worker.Flash.{
  FlashJob, expected_chip, erase, finish_erase, program, flash_body, abort_run, run_flash,
}
use p2000t_cartridge_studio.Worker.FlashLoop.{Worker}
use p2000t_cartridge_studio.Worker.Prepared.{erased, Fits}
use p2000t_cartridge_studio.Worker.FlashRun.{handled_ok, erase-Session}
use p2000t_cartridge_studio.Worker.Flash.{finish_erase}
use p2000t_cartridge_studio.Serial.{unsupported_chip}
use p2000t_cartridge_studio.Base.{
  ℕ, ◌^◌, ◌<◌, ◌≡◌, refl, ap, ◌∙◌, ◌≢◌, Bool, true, false, ◌||◌, [], ◌∷◌, ◌++◌, arith, ◌==◌,
  if◌then◌else◌, length,
}

module _ (version : Bytes) (time : ℕ → ℕ) (fuel : ℕ) (interrupted : ℕ → Bool) where
  -- A flash run with content of the right size (or one that only erases) on a cartridge of
  -- another chip returns, leaves the cartridge as it was, closes the port, and signals
  -- thread_abort with the identifier of that chip and nothing else.
  pub unsupported_chip_kept :
      {c : Cartridge} (job : FlashJob) (t : Worker version time fuel interrupted)
      → (job.erase_only || length t.content == (if job.complete_rom then romsize else banksize))
        ≡ true
      → c.chip < 2 ^ 16
      → c.chip ≢ sst39sf020
      → Attached version time c t.serial_interface
      → let r = run_flash (Port version time) (enough fuel) interrupted job t in
        (r.0 ≡ ok tt)
        × Attached version time c (r.1).serial_interface
        × ((r.1).signals ≡ t.signals ++ thread_abort (unsupported_chip c.chip) ∷ [])
  unfolding run_flash flash_body abort_run
  unsupported_chip_kept {c} job t sized fits other h =
      let (s₁, opened, h₁) = open_port-Session version time t.serial_interface h in
      let (s₂, identified, h₂) = get_chip_id-Session version time fuel s₁ h₁ fits in
      let unknown : (c.chip == expected_chip) ≡ false = ground (arith, other) in
      rw (sized, opened, identified, unknown) (refl, close_port-Attached version time s₂ h₂, refl)

  -- A run of a job that only erases, on a cartridge of the supported chip with 256 KiB, fills
  -- the region of the job with FF, closes the port, and signals erase_result_ready, or
  -- thread_cancelled if an interruption was requested by then.
  pub erase_run :
      {c : Cartridge} (job : FlashJob) (t : Worker version time fuel interrupted)
      → Fits job c
      → job.erase_only ≡ true
      → Attached version time c t.serial_interface
      → let r = run_flash (Port version time) (enough fuel) interrupted job t in
        (r.0 ≡ ok tt)
        × Attached version time (erased job c) (r.1).serial_interface
        × ((r.1).signals
            ≡ t.signals
              ++ (if interrupted t.polls
                  then thread_cancelled after_verified_erase
                  else erase_result_ready)
                ∷ [])
  unfolding run_flash flash_body erase finish_erase
  erase_run {c} job t fits only h =
      let (s₁, opened, h₁) = open_port-Session version time t.serial_interface h in
      let (s₂, identified, h₂) =
        get_chip_id-Session version time fuel s₁ h₁ (omega (arith, fits.known)) in
      let (s₃, wiped, h₃) = erase-Session version time fuel interrupted job s₂ h₂ fits in
      let t₃ : Worker version time fuel interrupted = record t { serial_interface = s₃ } in
      let sized : (job.erase_only
            || length t.content == (if job.complete_rom then romsize else banksize))
          ≡ true =
        ground (arith, only) in
      let known : (c.chip == expected_chip) ≡ true = ground (arith, fits.known) in
      let r = finish_erase (Port version time) (enough fuel) interrupted t₃ in
      let same : run_flash (Port version time) (enough fuel) interrupted job t ≡ r =
        rw (sized, opened, identified, known, wiped)
          (ap
              (λ (b : Bool).
                handled
                  ((if b
                      then finish_erase (Port version time) (enough fuel) interrupted
                      else program (Port version time) (enough fuel) interrupted job)
                    t₃)
                  (abort_run (Port version time) (enough fuel) interrupted))
              only
            ∙ handled_ok r (abort_run (Port version time) (enough fuel) interrupted) refl) in
      rw same (refl, close_port-Attached version time s₃ h₃, refl)
