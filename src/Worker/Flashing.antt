-- ===== src/Worker/Flashing.antt =====
-- src/flashthread.cpp on the emulated cartridge: flashing a bank and the complete chip.
use p2000t_cartridge_studio.RomSizes.{romsize, blocksize, banksize, numbanks}
use p2000t_cartridge_studio.Bytes.{Bytes, IsBytes, mid, overwrite, length-mid}
use p2000t_cartridge_studio.Bytes.Regions.{overwrite_whole, mid-overwrite_disjoint}
use p2000t_cartridge_studio.Effects.{ok}
use p2000t_cartridge_studio.Emulator.{sst39sf020}
use p2000t_cartridge_studio.Emulator.Session.{Cartridge, Port}
use p2000t_cartridge_studio.Emulator.Protocol.{enough}
use p2000t_cartridge_studio.Emulator.Connect.{Attached}
use p2000t_cartridge_studio.Worker.{flash_result_ready}
use p2000t_cartridge_studio.Worker.Flash.{FlashJob, block_count, first_block, run_flash}
use p2000t_cartridge_studio.Worker.Blocks.{block_signals, burnt}
use p2000t_cartridge_studio.Worker.FlashLoop.{Worker}
use p2000t_cartridge_studio.Worker.Prepared.{erased, Programs, erased-contents, erased-Job}
use p2000t_cartridge_studio.Worker.FlashRun.{Done, run_flash-outcome}
use p2000t_cartridge_studio.Worker.Flash.{set_bank, set_complete_rom}
use p2000t_cartridge_studio.Base.{
  ℕ, ◌+◌, ◌*◌, ◌≤◌, ◌<◌, ◌≡◌, refl, sym, ap, subst, ◌∙◌, ◌⊎◌, inl, inr, Bool, true, false, [], ◌∷◌,
  ◌++◌, arith, leb, ◌==◌, length, replicate, length-replicate,
}

-- A range that lies outside a region lies outside a shorter one with the same start.
apart_shorter :
    (at count offset size small : ℕ)
    → small ≤ size
    → (at + count ≤ offset) ⊎ (offset + size ≤ at)
    → (at + count ≤ offset) ⊎ (offset + small ≤ at)
apart_shorter at count offset size small h (inl below) = inl below
apart_shorter at count offset size small h (inr above) = inr (omega arith)

-- What a job leaves outside its region, at any point after its erase.
outside_burnt :
    {job : FlashJob} {content : Bytes} {c : Cartridge} (at count written : ℕ)
    → Programs job content c
    → written ≤ block_count job
    → (at + count ≤ first_block job * blocksize)
      ⊎ (first_block job * blocksize + block_count job * blocksize ≤ at)
    → mid at count (burnt (first_block job) content written (erased job c)).contents
      ≡ mid at count c.contents
outside_burnt {job} {content} {c} at count written p within apart =
    let offset = first_block job * blocksize in
    let size = block_count job * blocksize in
    let part = mid 0 (written * blocksize) content in
    let j = erased-Job p in
    let small : length part ≡ written * blocksize =
      length-mid 0 (written * blocksize) content (omega (arith, p.sized)) in
    let blank : length {A = ℕ} (replicate {A = ℕ} size 0xFF) ≡ size =
      length-replicate {A = ℕ} size 0xFF in
    mid-overwrite_disjoint at count offset part (erased job c).contents
      (omega (arith, j.inside, j.whole))
      (apart_shorter at count offset size (length part) (omega arith) apart)
    ∙ ap (mid at count) (erased-contents p.fits)
    ∙ mid-overwrite_disjoint at count offset (replicate size 0xFF) c.contents
        (omega (arith, p.fits.inside, p.fits.whole))
        (apart_shorter at count offset size (length {A = ℕ} (replicate {A = ℕ} size 0xFF))
          (omega arith) apart)

module _ (version : Bytes) (time : ℕ → ℕ) (fuel : ℕ) (interrupted : ℕ → Bool) where
  -- A run that is never interrupted is done.
  uninterrupted :
      {job : FlashJob} {content : Bytes} {c : Cartridge} (t : Worker version time fuel interrupted)
      → Programs job content c
      → t.content ≡ content
      → Attached version time c t.serial_interface
      → ((n : ℕ) → interrupted n ≡ false)
      → Done version time fuel interrupted job content c t.signals
          (run_flash (Port version time) (enough fuel) interrupted job t)
  uninterrupted t p held h never =
      elim (run_flash-outcome version time fuel interrupted t p held h) [
        | inl d ↦ d
        | inr i ↦ absurd (ground (arith, i.asked, never i.poll))
      ]

  -- An uninterrupted flash of a bank of bytes on a cartridge of the supported chip with 256 KiB
  -- puts exactly those bytes in that bank, leaves all other bytes, closes the port, and signals
  -- each of the 64 blocks in order and then flash_result_ready.
  pub bank_flashed :
      {c : Cartridge} (bank : ℕ) (content : Bytes) (old : FlashJob × Bytes)
      (t : Worker version time fuel interrupted)
      → bank < numbanks
      → length content ≡ banksize
      → IsBytes content
      → c.chip ≡ sst39sf020
      → length c.contents ≡ romsize
      → Attached version time c t.serial_interface
      → ((n : ℕ) → interrupted n ≡ false)
      → (job : FlashJob) × (set_bank bank content old ≡ ok (job, content))
        × (let r =
              run_flash
                (Port version time)
                (enough fuel)
                interrupted
                job
                (record t { content = content }) in
            (r.0 ≡ ok tt)
            × Attached version time
                (record c { contents = overwrite (bank * banksize) content c.contents })
                (r.1).serial_interface
            × ((r.1).signals ≡ t.signals ++ (block_signals 64 0 64 ++ flash_result_ready ∷ [])))
  unfolding set_bank
  bank_flashed {c} bank content old t within sized bytes known whole h never =
      let job : FlashJob = record { complete_rom = false; erase_only = false; bank_index = bank } in
      let p : Programs job content c = record {
        fits = record { inside = omega arith; known = known; whole = whole };
        writes = refl;
        sized = sized;
        bytes = bytes;
      } in
      let fresh : Worker version time fuel interrupted = record t { content = content } in
      let d = uninterrupted fresh p refl h never in
      let low : leb numbanks bank ≡ false = ground arith in
      let fit : (length content == banksize) ≡ true = ground arith in
      let at : bank * 64 * blocksize ≡ bank * banksize = omega arith in
      (
        job,
        rw (low, fit) refl,
        (
          d.returned,
          subst
              (λ (n : ℕ).
                Attached version time (record c { contents = overwrite n content c.contents })
                  ((run_flash (Port version time) (enough fuel) interrupted job fresh).1
                    ).serial_interface)
              at d.closed.attached,
          d.closed.signals_are,
        ),
      )

  -- An uninterrupted flash of a complete image of bytes on a cartridge of the supported chip
  -- with 256 KiB leaves exactly that image, closes the port, and signals each of the 1024
  -- blocks in order and then flash_result_ready.
  pub rom_flashed :
      {c : Cartridge} (content : Bytes) (old : FlashJob × Bytes)
      (t : Worker version time fuel interrupted)
      → length content ≡ romsize
      → IsBytes content
      → c.chip ≡ sst39sf020
      → length c.contents ≡ romsize
      → Attached version time c t.serial_interface
      → ((n : ℕ) → interrupted n ≡ false)
      → (job : FlashJob) × (set_complete_rom content old ≡ ok (job, content))
        × (let r =
              run_flash
                (Port version time)
                (enough fuel)
                interrupted
                job
                (record t { content = content }) in
            (r.0 ≡ ok tt)
            × Attached version time (record c { contents = content }) (r.1).serial_interface
            × ((r.1).signals ≡ t.signals ++ (block_signals 1024 0 1024 ++ flash_result_ready ∷ [])))
  unfolding set_complete_rom
  rom_flashed {c} content (before, previous) t sized bytes known whole h never =
      let job : FlashJob = record before { complete_rom = true; erase_only = false } in
      let p : Programs job content c = record {
        fits = record { inside = omega arith; known = known; whole = whole };
        writes = refl;
        sized = sized;
        bytes = bytes;
      } in
      let fresh : Worker version time fuel interrupted = record t { content = content } in
      let d = uninterrupted fresh p refl h never in
      let fit : (length content == romsize) ≡ true = ground arith in
      (
        job,
        rw fit refl,
        (
          d.returned,
          subst
              (λ (x : Bytes).
                Attached version time (record c { contents = x })
                  ((run_flash (Port version time) (enough fuel) interrupted job fresh).1
                    ).serial_interface)
              (overwrite_whole content c.contents (sized ∙ sym whole)) d.closed.attached,
          d.closed.signals_are,
        ),
      )

  -- Whenever a run of a job that programs, on a cartridge of the supported chip with 256 KiB,
  -- is interrupted, what the cartridge stored below or above the region of the job is
  -- unchanged.
  pub outside_kept :
      {job : FlashJob} {content : Bytes} {c : Cartridge} (at count : ℕ)
      (t : Worker version time fuel interrupted)
      → Programs job content c
      → t.content ≡ content
      → Attached version time c t.serial_interface
      → (at + count ≤ first_block job * blocksize)
        ⊎ (first_block job * blocksize + block_count job * blocksize ≤ at)
      → let r = run_flash (Port version time) (enough fuel) interrupted job t in
        mid at count (r.1).serial_interface.link.backend.flash ≡ mid at count c.contents
  outside_kept {job} {content} {c} at count t p held h apart =
      let first = first_block job in
      elim (run_flash-outcome version time fuel interrupted t p held h) [
        | inl d ↦
            ap (mid at count) d.closed.attached.contents_are
            ∙ mid-overwrite_disjoint at count (first * blocksize) content c.contents
                (omega (arith, p.sized, p.fits.inside, p.fits.whole))
                (apart_shorter at count (first * blocksize) (block_count job * blocksize)
                  (length content) (omega (arith, p.sized)) apart)
        | inr i ↦
            ap (mid at count) i.closed.attached.contents_are
            ∙ outside_burnt at count i.written p (omega (arith, i.partly)) apart
      ]
