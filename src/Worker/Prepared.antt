-- ===== src/Worker/Prepared.antt =====
-- What a job of src/flashthread.cpp is to do on a cartridge: its region erased, and its content in place.
use p2000t_cartridge_studio.RomSizes.{romsize, blocksize, numblocks}
use p2000t_cartridge_studio.Bytes.{Bytes, IsBytes, mid, overwrite, length-overwrite}
use p2000t_cartridge_studio.Bytes.Regions.{overwrite_nothing}
use p2000t_cartridge_studio.Emulator.{sst39sf020}
use p2000t_cartridge_studio.Emulator.Session.{Cartridge}
use p2000t_cartridge_studio.Emulator.Answers.{fill}
use p2000t_cartridge_studio.Emulator.Erased.{mid-overwrite-replicate}
use p2000t_cartridge_studio.Worker.Flash.{FlashJob, block_count, first_block}
use p2000t_cartridge_studio.Worker.Blocks.{Job, burnt}
use p2000t_cartridge_studio.Bytes.Regions.{overwrite-overwrite_same, mid_whole}
use p2000t_cartridge_studio.Base.{
  ℕ, ◌+◌, ◌-◌, ◌*◌, ◌≤◌, min, ◌≡◌, sym, ap, ◌∙◌, false, arith, length, replicate, length-replicate,
}

-- What the erase of a job leaves.
abbrev pub erased : FlashJob → Cartridge → Cartridge
erased job c = fill (first_block job * blocksize) (block_count job * blocksize) c

-- The cartridge with the content of a job in place.
abbrev pub flashed : FlashJob → Bytes → Cartridge → Cartridge
flashed job content c = record c {
  contents = overwrite (first_block job * blocksize) content c.contents;
}

-- A job that fits a cartridge of the supported chip.
pub record Fits (job : FlashJob) (c : Cartridge) : Type 0 where
  pub inside : first_block job + block_count job ≤ numblocks
  pub known : c.chip ≡ sst39sf020
  pub whole : length c.contents ≡ romsize

-- A job that is to program `content`.
pub record Programs (job : FlashJob) (content : Bytes) (c : Cartridge) : Type 0 where
  pub fits : Fits job c
  pub writes : job.erase_only ≡ false
  pub sized : length content ≡ block_count job * blocksize
  pub bytes : IsBytes content

-- The erased region, with the minimum of the source written as what it is.
pub erased-contents :
    {job : FlashJob} {c : Cartridge}
    → Fits job c
    → (erased job c).contents
      ≡ overwrite
          (first_block job * blocksize)
          (replicate (block_count job * blocksize) 0xFF)
          c.contents
erased-contents {job} {c} h =
    let all : min (block_count job * blocksize) (length c.contents - first_block job * blocksize)
        ≡ block_count job * blocksize =
      omega (arith, h.inside, h.whole) in
    ap (λ (n : ℕ). overwrite (first_block job * blocksize) (replicate n 0xFF) c.contents) all

-- After its erase, the loop of a job can program.
pub erased-Job :
    {job : FlashJob} {content : Bytes} {c : Cartridge}
    → Programs job content c
    → Job (erased job c) content (first_block job) (block_count job)
erased-Job {job} {content} {c} p =
    let first = first_block job in
    let count = block_count job in
    let room : first * blocksize + length {A = ℕ} (replicate (count * blocksize) 0xFF)
        ≤ length c.contents =
      omega
        (arith, p.fits.inside, p.fits.whole, length-replicate {A = ℕ} (count * blocksize) 0xFF) in
    record {
      sized = p.sized;
      bytes = p.bytes;
      known = p.fits.known;
      whole =
          ap (λ (x : Bytes). length x) (erased-contents p.fits)
          ∙ length-overwrite (first * blocksize) (replicate (count * blocksize) 0xFF) c.contents
              room
          ∙ p.fits.whole;
      inside = p.fits.inside;
      erased = λ at low high.
          ap (λ (x : Bytes). mid at blocksize x) (erased-contents p.fits)
          ∙ mid-overwrite-replicate at blocksize (first * blocksize) (count * blocksize) 0xFF
              c.contents low (omega arith) (omega (arith, p.fits.inside, p.fits.whole));
    }

-- All blocks of a job written into the erased region.
pub burnt-erased :
    {job : FlashJob} {content : Bytes} {c : Cartridge}
    → Programs job content c
    → burnt (first_block job) content (block_count job) (erased job c) ≡ flashed job content c
burnt-erased {job} {content} {c} p =
    let at = first_block job * blocksize in
    let size = block_count job * blocksize in
    let all : mid 0 size content ≡ content = mid_whole content size p.sized in
    ap (λ (x : Bytes). record c { contents = x })
      (ap (λ (x : Bytes). overwrite at x (erased job c).contents) all
        ∙ ap (λ (x : Bytes). overwrite at content x) (erased-contents p.fits)
        ∙ overwrite-overwrite_same at (replicate size 0xFF) content c.contents
            (length-replicate {A = ℕ} size 0xFF ∙ sym p.sized)
            (omega (arith, p.fits.inside, p.fits.whole, p.sized)))

-- Before the loop, nothing is written.
pub burnt_nothing :
    {c : Cartridge} {content : Bytes} {first count : ℕ}
    → Job c content first count
    → c ≡ burnt first content 0 c
unfolding mid
burnt_nothing {c} {content} {first} {count} job =
    ap (λ (x : Bytes). record c { contents = x })
      (sym
        (overwrite_nothing (first * blocksize) c.contents (omega (arith, job.inside, job.whole))))
