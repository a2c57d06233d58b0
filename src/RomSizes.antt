-- ===== src/RomSizes.antt =====
-- src/romsizes.h: the geometry of the SST39SF020.
use p2000t_cartridge_studio.Base.{ℕ, ◌/◌}

-- 256 KiB.
abbrev pub romsize : ℕ
romsize = 0x40000

-- A protocol block: 256 bytes.
abbrev pub blocksize : ℕ
blocksize = 0x100

abbrev pub numblocks : ℕ
numblocks = romsize / blocksize

-- A bank of the DIP switches: 16 KiB.
abbrev pub banksize : ℕ
banksize = 0x4000

abbrev pub numbanks : ℕ
numbanks = romsize / banksize
