-- ===== src/Emulator/Answers.antt =====
-- What the emulated cartridge answers to each command of the protocol.
use p2000t_cartridge_studio.RomSizes.{romsize, blocksize, numblocks, banksize, numbanks}
use p2000t_cartridge_studio.Bytes.{Bytes, mid, overwrite, bytes_eq, starts_with}
use p2000t_cartridge_studio.Crc.{crc16_xmodem}
use p2000t_cartridge_studio.Text.{
  codes, hex_field, hex_number-hex_field, all_upper_hex-hex_field, length-hex_field,
}
use p2000t_cartridge_studio.Emulator.{
  Emulated, sst39sf020, parse_bank, parse_block, erase_range, queue_response, respond_range,
  read_range, erase_bank_command, write_block_command, erase_all, dispatch,
}
use p2000t_cartridge_studio.Emulator.Session.{Cartridge, Wired}
use p2000t_cartridge_studio.Emulator.Exchange.{Answers}
use p2000t_cartridge_studio.Base.{
  ℕ, ◌-◌, ◌*◌, ◌/◌, ◌%◌, ◌^◌, ◌<◌, min, ◌≡◌, refl, ap, true, Option, none, some, [], ◌∷◌, ◌++◌,
  arith, ◌==◌, length, replicate,
}

-- A field of the command names the number that was put there.
parse_bank-hex_field : (bank : ℕ) → bank < numbanks → parse_bank (hex_field 2 bank) ≡ some bank
unfolding parse_bank
parse_bank-hex_field bank h = ground (
  arith,
  length-hex_field 2 bank,
  all_upper_hex-hex_field 2 bank,
  hex_number-hex_field 2 bank (omega arith),
)

parse_block-hex_field :
    (block : ℕ) → block < numblocks → parse_block (hex_field 4 block) ≡ some block
unfolding parse_block
parse_block-hex_field block h = ground (
  arith,
  length-hex_field 4 block,
  all_upper_hex-hex_field 4 block,
  hex_number-hex_field 4 block (omega arith),
)

module _ {c : Cartridge} {w : Option ℕ} where
  pub queue_response-Wired :
      (response : Bytes) (e : Emulated) → Wired c w e → Wired c w (queue_response response e)
  unfolding queue_response
  queue_response-Wired response e h = record {
    contents_are = h.contents_are;
    chip_is = h.chip_is;
    identity_is = h.identity_is;
    echo_intact = h.echo_intact;
    crc_intact = h.crc_intact;
    is_opened = h.is_opened;
    nothing_unread = h.nothing_unread;
    unchunked = h.unchunked;
    payload_awaited = h.payload_awaited;
  }

-- The bytes that answer a read of `size` bytes: a status, the bytes, and their CRC.
abbrev pub range_answer : ℕ → ℕ → Cartridge → Bytes
range_answer offset size c =
    let content = mid offset size c.contents in
    0 ∷ (content ++ (crc16_xmodem content / 2 ^ 8 ∷ crc16_xmodem content % 256 ∷ []))

abbrev pub fill : ℕ → ℕ → Cartridge → Cartridge
fill offset size c = record c {
  contents = overwrite offset (replicate (min size (length c.contents - offset)) 0xFF) c.contents;
}

respond_range-Wired :
    {c : Cartridge} (offset size : ℕ) (e : Emulated)
    → Wired c none e
    → Wired c none (respond_range offset size e)
      × ((respond_range offset size e).read_buffer ≡ e.read_buffer ++ range_answer offset size c)
unfolding respond_range
respond_range-Wired offset size e h = (
  record {
    contents_are = h.contents_are;
    chip_is = h.chip_is;
    identity_is = h.identity_is;
    echo_intact = h.echo_intact;
    crc_intact = refl;
    is_opened = h.is_opened;
    nothing_unread = h.nothing_unread;
    unchunked = h.unchunked;
    payload_awaited = h.payload_awaited;
  },
  rw (h.crc_intact, h.contents_are) refl,
)

erase_range-Wired :
    {c : Cartridge} (offset size : ℕ) (e : Emulated)
    → Wired c none e
    → Wired (fill offset size c) none (record e { backend = erase_range offset size e.backend })
unfolding erase_range
erase_range-Wired offset size e h = record {
  contents_are =
      ap (λ (x : Bytes). overwrite offset (replicate (min size (length x - offset)) 0xFF) x)
        h.contents_are;
  chip_is = h.chip_is;
  identity_is = h.identity_is;
  echo_intact = h.echo_intact;
  crc_intact = h.crc_intact;
  is_opened = h.is_opened;
  nothing_unread = h.nothing_unread;
  unchunked = h.unchunked;
  payload_awaited = h.payload_awaited;
}

module _ (version : Bytes) (time : ℕ → ℕ) {c : Cartridge} where
  pub Answers-identity :
      Answers version time c c none (codes "DEVIDSST") (c.chip / 2 ^ 8 ∷ c.chip % 256 ∷ [])
  unfolding dispatch bytes_eq queue_response
  Answers-identity e h = (queue_response-Wired _ e h, rw h.chip_is refl)

  pub Answers-bootloader : Answers version time c c none (codes "BOOTLOAD") (0 ∷ [])
  unfolding dispatch bytes_eq queue_response
  Answers-bootloader e h = (queue_response-Wired _ e h, refl)

  module _ (known : c.chip ≡ sst39sf020) where
    chip_known : (e : Emulated) → Wired c none e → (e.backend.chip_id == sst39sf020) ≡ true
    chip_known e h = rw (h.chip_is, known) refl

    pub Answers-read_bank :
        (bank : ℕ)
        → bank < numbanks
        → Answers version time c c none
            (codes "RDBANK" ++ hex_field 2 bank)
            (range_answer (bank * banksize) banksize c)
    unfolding dispatch bytes_eq starts_with
    Answers-read_bank bank h e wired =
        rw (parse_bank-hex_field bank h, read_range, chip_known e wired)
          (respond_range-Wired (bank * banksize) banksize e wired)

    pub Answers-read_block :
        (block : ℕ)
        → block < numblocks
        → Answers version time c c none
            (codes "RDBK" ++ hex_field 4 block)
            (range_answer (block * blocksize) blocksize c)
    unfolding dispatch bytes_eq starts_with
    Answers-read_block block h e wired =
        rw (parse_block-hex_field block h, read_range, chip_known e wired)
          (respond_range-Wired (block * blocksize) blocksize e wired)

    pub Answers-erase_bank :
        (bank : ℕ)
        → bank < numbanks
        → Answers version time c
            (fill (bank * banksize) banksize c)
            none
            (codes "ERBANK" ++ hex_field 2 bank)
            (0 ∷ [])
    unfolding dispatch bytes_eq starts_with queue_response
    Answers-erase_bank bank h e wired =
        rw (parse_bank-hex_field bank h, erase_bank_command, chip_known e wired)
          (queue_response-Wired _ _ (erase_range-Wired (bank * banksize) banksize e wired), refl)

    pub Answers-erase_chip :
        Answers version time c (fill 0 romsize c) none (codes "ERASEALL") (0 ∷ [])
    unfolding dispatch bytes_eq queue_response
    Answers-erase_chip e wired =
        rw (erase_all, chip_known e wired)
          (queue_response-Wired _ _ (erase_range-Wired 0 romsize e wired), refl)

  pub Answers-write_block :
      (block : ℕ)
      → block < numblocks
      → Answers version time c c (some block) (codes "WRBK" ++ hex_field 4 block) (0 ∷ [])
  unfolding dispatch bytes_eq starts_with queue_response
  Answers-write_block block h e wired =
      rw (parse_block-hex_field block h, write_block_command)
        (
          record {
            contents_are = wired.contents_are;
            chip_is = wired.chip_is;
            identity_is = wired.identity_is;
            echo_intact = wired.echo_intact;
            crc_intact = wired.crc_intact;
            is_opened = wired.is_opened;
            nothing_unread = wired.nothing_unread;
            unchunked = wired.unchunked;
            payload_awaited = refl;
          },
          refl,
        )
