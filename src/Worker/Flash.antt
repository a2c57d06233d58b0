-- ===== src/Worker/Flash.antt =====
-- src/flashthread.h and src/flashthread.cpp: erase and program a bank or the complete chip.
use p2000t_cartridge_studio.RomSizes.{romsize, blocksize, numblocks, banksize, numbanks}
use p2000t_cartridge_studio.Bytes.{Bytes, mid}
use p2000t_cartridge_studio.Effects.{Result, ok, err, pure, ◌>>=◌, ◌>>◌, gets, guard, try_catch}
use p2000t_cartridge_studio.Transport.{SerialTransport}
use p2000t_cartridge_studio.Serial.{Failure, bad_image_size, bank_range_outside, unsupported_chip}
use p2000t_cartridge_studio.Serial.Wire.{open_port}
use p2000t_cartridge_studio.Serial.Commands.{get_chip_id, erase_chip, erase_bank, burn_block}
use p2000t_cartridge_studio.Worker.{
  Run, on_serial, close_serial, emit, is_interruption_requested, flash_result_ready,
  erase_result_ready, flash_block_start, flash_block_done, thread_cancelled, thread_abort,
  after_verified_erase, after_erase, after_blocks,
}
use p2000t_cartridge_studio.Base.{
  ℕ, zero, suc, ◌+◌, ◌*◌, ◌/◌, Bool, true, false, not, ◌||◌, [], leb, ◌==◌, if◌then◌else◌, length,
}

-- What the thread is to do: the members that FlashThread adds.
pub record FlashJob : Type 0 where
  pub complete_rom : Bool
  pub erase_only : Bool
  pub bank_index : ℕ

abbrev pub expected_chip : ℕ
expected_chip = 0xBFB6

-- The setters work on the job and on the data of the worker.
unfoldable pub set_complete_rom : Bytes → FlashJob × Bytes → Result Failure (FlashJob × Bytes)
set_complete_rom content (job, _) =
    if not (length content == romsize)
    then err bad_image_size
    else ok (record job { complete_rom = true; erase_only = false }, content)

unfoldable pub set_bank : ℕ → Bytes → FlashJob × Bytes → Result Failure (FlashJob × Bytes)
set_bank bank content (job, _) =
    if leb numbanks bank
    then err bank_range_outside
    else if not (length content == banksize)
    then err bad_image_size
    else ok (record { complete_rom = false; erase_only = false; bank_index = bank }, content)

unfoldable pub set_erase_complete : FlashJob × Bytes → FlashJob × Bytes
set_erase_complete (job, _) = (record job { complete_rom = true; erase_only = true }, [])

unfoldable pub set_erase_bank : ℕ → FlashJob × Bytes → Result Failure (FlashJob × Bytes)
set_erase_bank bank (job, _) =
    if leb numbanks bank
    then err bank_range_outside
    else ok (record { complete_rom = false; erase_only = true; bank_index = bank }, [])

abbrev pub block_count : FlashJob → ℕ
block_count job = if job.complete_rom then numblocks else banksize / blocksize

abbrev pub first_block : FlashJob → ℕ
first_block job = if job.complete_rom then 0 else job.bank_index * (banksize / blocksize)

module _ (T : SerialTransport) (fuel : ℕ) (interrupted : ℕ → Bool) where
  -- The loop over the blocks; false if the thread was cancelled.
  unfoldable pub flash_blocks : ℕ → ℕ → ℕ → ℕ → Run T Bool
  flash_blocks zero block count first = pure true
  flash_blocks (suc left) block count first = do
    stop ← is_interruption_requested T interrupted
    if stop
        then (do close_serial T; emit T (thread_cancelled (after_blocks block count)); pure false)
        else (do
          emit T (flash_block_start block count)
          content ← gets (λ t. t.content)
          on_serial T
              (burn_block T fuel (first + block) (mid (block * blocksize) blocksize content))
          emit T (flash_block_done block count)
          flash_blocks left (block + 1) count first)

  unfoldable pub erase : FlashJob → Run T (Unit {0})
  erase job =
      on_serial T (if job.complete_rom then erase_chip T fuel else erase_bank T fuel job.bank_index)

  -- After the erase of a job that only erases.
  unfoldable pub finish_erase : Run T (Unit {0})
  finish_erase = do
    close_serial T
    stop ← is_interruption_requested T interrupted
    emit T (if stop then thread_cancelled after_verified_erase else erase_result_ready)

  -- After the erase of a job that programs.
  unfoldable pub program : FlashJob → Run T (Unit {0})
  program job = do
    stop ← is_interruption_requested T interrupted
    if stop then (do close_serial T; emit T (thread_cancelled after_erase)) else (do
      done ← flash_blocks (block_count job) 0 (block_count job) (first_block job)
      if done then (do close_serial T; emit T flash_result_ready) else pure tt)

  unfoldable pub flash_body : FlashJob → Run T (Unit {0})
  flash_body job = do
    size ← gets (λ t. length t.content)
    guard (job.erase_only || size == (if job.complete_rom then romsize else banksize))
        bad_image_size
    on_serial T (open_port T)
    chip_id ← on_serial T (get_chip_id T fuel)
    guard (chip_id == expected_chip) (unsupported_chip chip_id)
    erase job
    if job.erase_only then finish_erase else program job

  -- `catch(const std::exception&)`.
  unfoldable pub abort_run : Failure → Run T (Unit {0})
  abort_run failure = do emit T (thread_abort failure); close_serial T

  unfoldable pub run_flash : FlashJob → Run T (Unit {0})
  run_flash job = try_catch (flash_body job) abort_run
