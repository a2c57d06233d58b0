-- ===== src/Worker/Blocks.antt =====
-- The blocks that src/flashthread.cpp programs one after the other: what the cartridge holds in
-- between, and why the next block can be programmed.
use p2000t_cartridge_studio.RomSizes.{romsize, blocksize, numblocks}
use p2000t_cartridge_studio.Bytes.{Bytes, IsBytes, mid, overwrite, length-mid, length-overwrite}
use p2000t_cartridge_studio.Bytes.Regions.{
  mid-overwrite_disjoint, overwrite-overwrite_next, mid-append_mid,
}
use p2000t_cartridge_studio.Emulator.{sst39sf020, clears_bits}
use p2000t_cartridge_studio.Emulator.Session.{Cartridge}
use p2000t_cartridge_studio.Emulator.Burn.{programmed}
use p2000t_cartridge_studio.Emulator.Erased.{clears_bits_erased, IsBytes-mid}
use p2000t_cartridge_studio.Worker.{Signal, flash_block_start, flash_block_done}
use p2000t_cartridge_studio.Base.{
  ℕ, zero, suc, ◌+◌, ◌*◌, ◌≤◌, ◌<◌, ◌≡◌, ap, ◌∙◌, inr, true, List, [], ◌∷◌, ◌++◌, arith, length,
  replicate,
}

-- The signals of `left` blocks from `block` on.
unfoldable pub block_signals : ℕ → ℕ → ℕ → List Signal
block_signals zero block count = []
block_signals (suc left) block count =
    flash_block_start block count
    ∷ flash_block_done block count
    ∷ block_signals left (block + 1) count

-- What a job writes where: `content` from block `first` on, into an erased region of the same size.
pub record Job (c : Cartridge) (content : Bytes) (first count : ℕ) : Type 0 where
  pub sized : length content ≡ count * blocksize
  pub bytes : IsBytes content
  pub known : c.chip ≡ sst39sf020
  pub whole : length c.contents ≡ romsize
  pub inside : first + count ≤ numblocks
  pub erased :
      (at : ℕ)
      → first * blocksize ≤ at
      → at + blocksize ≤ (first + count) * blocksize
      → mid at blocksize c.contents ≡ replicate blocksize 0xFF

-- The cartridge `c` with the first `blocks` blocks of `content` written.
abbrev pub burnt : ℕ → Bytes → ℕ → Cartridge → Cartridge
burnt first content blocks c = record c {
  contents = overwrite (first * blocksize) (mid 0 (blocks * blocksize) content) c.contents;
}

module _ {c : Cartridge} {content : Bytes} {first count : ℕ} (job : Job c content first count) where
  pub length-burnt :
      (blocks : ℕ) → blocks ≤ count → length (burnt first content blocks c).contents ≡ romsize
  length-burnt blocks h =
      let part = mid 0 (blocks * blocksize) content in
      let l : length part ≡ blocks * blocksize =
        length-mid 0 (blocks * blocksize) content (omega (arith, job.sized)) in
      omega (
        arith,
        job.whole,
        job.inside,
        length-overwrite (first * blocksize) part c.contents (omega (arith, job.whole, job.inside)),
      )

  -- The next block can be programmed,
  pub next_possible :
      (block : ℕ)
      → block < count
      → clears_bits
          (mid ((first + block) * blocksize) blocksize (burnt first content block c).contents)
          (mid (block * blocksize) blocksize content)
        ≡ true
  next_possible block h =
      let part = mid 0 (block * blocksize) content in
      let l : length part ≡ block * blocksize =
        length-mid 0 (block * blocksize) content (omega (arith, job.sized)) in
      let still =
        mid-overwrite_disjoint ((first + block) * blocksize) blocksize (first * blocksize) part
          c.contents (omega (arith, job.whole, job.inside)) (inr (omega arith)) in
      rw (still, job.erased ((first + block) * blocksize) (omega arith) (omega arith))
        (clears_bits_erased (mid (block * blocksize) blocksize content) blocksize
          (IsBytes-mid (block * blocksize) blocksize content job.bytes)
          (length-mid (block * blocksize) blocksize content (omega (arith, job.sized))))

  -- and with it one more block is written.
  pub programmed-burnt :
      (block : ℕ)
      → block < count
      → programmed
          (first + block)
          (mid (block * blocksize) blocksize content)
          (burnt first content block c)
        ≡ burnt first content (block + 1) c
  programmed-burnt block h =
      let part = mid 0 (block * blocksize) content in
      let chunk = mid (block * blocksize) blocksize content in
      let l : length part ≡ block * blocksize =
        length-mid 0 (block * blocksize) content (omega (arith, job.sized)) in
      let m : length chunk ≡ blocksize =
        length-mid (block * blocksize) blocksize content (omega (arith, job.sized)) in
      let at : (first + block) * blocksize ≡ first * blocksize + length part = omega arith in
      let from : block * blocksize ≡ 0 + block * blocksize = omega arith in
      let total : block * blocksize + blocksize ≡ (block + 1) * blocksize = omega arith in
      let joined : part ++ chunk ≡ mid 0 ((block + 1) * blocksize) content =
        ap (λ (n : ℕ). part ++ mid n blocksize content) from
        ∙ mid-append_mid 0 (block * blocksize) blocksize content (omega (arith, job.sized))
        ∙ ap (λ (n : ℕ). mid 0 n content) total in
      ap (λ (x : Bytes). record c { contents = x })
        (ap (λ (n : ℕ). overwrite n chunk (overwrite (first * blocksize) part c.contents)) at
          ∙ overwrite-overwrite_next (first * blocksize) part chunk c.contents
              (omega (arith, job.whole, job.inside))
          ∙ ap (λ (x : Bytes). overwrite (first * blocksize) x c.contents) joined)
