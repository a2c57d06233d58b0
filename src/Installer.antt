-- ===== src/Installer.antt =====
-- tools/bootloader-installer/src/main.cpp: the checks before and after a cartridge is prepared. What
-- AVRDUDE reads in the i-th connection probe, or the exception that probe_once throws, is a parameter.
pub mod Connection
pub mod System
pub mod Operation
pub mod Success
pub mod Safety
use p2000t_cartridge_studio.Bytes.{Bytes, bytes_eq, is_empty}
use p2000t_cartridge_studio.Effects.{Result, ok, err}
use p2000t_cartridge_studio.Firmware.Hex.{split_lines}
use p2000t_cartridge_studio.Base.{
  ℕ, zero, suc, ◌+◌, ◌-◌, ◌*◌, ◌/◌, ◌%◌, ◌^◌, ◌≤◌, ◌<◌, min, max, bit_and, bit_or, bit_xor, ◌≡◌,
  refl, sym, ap, subst, ◌∙◌, ◌≢◌, ◌↔◌, ◌⊎◌, inl, inr, Bool, true, false, not, ◌&&◌, ◌||◌, Option,
  none, some, List, [], ◌∷◌, ◌++◌, map, append-nil, append_assoc, arith, ltb, leb, ◌==◌,
  if◌then◌else◌, Bool-cases, Option-cases, ==_iff, ltb→lt, lt→ltb, leb→le, length, get_elem?,
  get_or, set, take, drop, replicate, length-append, length-take, length-drop, length-replicate,
  length-map, length-set, get_elem?-set_self, get_elem?-set_ne, get_elem?-ge, get_elem?-take,
  get_elem?-drop, get_elem?-append, get_elem?-replicate, list_ext, take-append-drop,
  get_or_append_exact, take-length, drop-length, take_append_exact, drop_append_exact,
  take-append_le, drop-append_le, bit_and_step, bit_or_step, bit_xor_step, bit_xor-bit_xor_right,
  bit_xor-parity, bit_xor-lt, bit_xor_left_cancel, bit_xor_right_cancel, bit_xor_comm,
  bit_or-shifted, bit_or-zero, bit_and-zero, bit_and-pow, bit_xor-div, bit_and-one,
}

pub data InstallError : Type 0 where
  probe_failed wrong_target readings_changed no_probes postinstall_failed : InstallError
  unexpected_signature unexpected_low unexpected_high unexpected_extended : InstallError
  invalid_character truncated_record beyond_flash incomplete_image : InstallError
  no_executable no_avrdude cannot_read unexpected_length no_work_directory flash_failed :
      InstallError
  needs_value not_a_number out_of_range unexpected_argument : InstallError
  no_action no_image bad_bitclock invalid_selection : InstallError
  missing_file : Bytes → InstallError
  malformed_record wrong_length wrong_checksum : ℕ → InstallError

abbrev pub and_then :
    {A B : Type 0} → Result InstallError A → (A → Result InstallError B) → Result InstallError B
and_then (ok a) f = f a
and_then (err e) f = err e

abbrev pub expected_signature : Bytes
expected_signature = 0x1E ∷ 0x95 ∷ 0x87 ∷ []

abbrev pub expected_low_fuse : ℕ
expected_low_fuse = 0x5E

abbrev pub installed_high_fuse : ℕ
installed_high_fuse = 0x98

pub record Probe : Type 0 where
  pub signature : Bytes
  pub low : ℕ
  pub high : ℕ
  pub extended : ℕ
  pub lock : ℕ

-- `operator==`.
unfoldable pub same_probe : Probe → Probe → Bool
same_probe p q =
    bytes_eq p.signature q.signature
    && p.low == q.low
    && p.high == q.high
    && p.extended == q.extended
    && p.lock == q.lock

unfoldable pub validate_preinstall : Probe → Result InstallError (Unit {0})
validate_preinstall p =
    if not (bytes_eq p.signature expected_signature)
    then err unexpected_signature
    else if not (p.low == expected_low_fuse)
    then err unexpected_low
    else if not (p.high == 0x99) && not (p.high == installed_high_fuse)
    then err unexpected_high
    else if not (bit_and p.extended 0x0F == 0x03) && not (bit_and p.extended 0x0F == 0x0B)
    then err unexpected_extended
    else ok tt

unfoldable pub validate_postinstall : Probe → Result InstallError (Unit {0})
validate_postinstall p =
    if not (p.low == expected_low_fuse)
      || not (p.high == installed_high_fuse)
      || not (bit_and p.extended 0x0F == 0x0B)
      || not (bit_and p.lock 0x3F == 0x3F)
    then err postinstall_failed
    else ok tt

-- `reference && !(current == *reference)`.
unfoldable pub changed : Option Probe → Probe → Bool
unfolding same_probe
changed none current = false
changed (some reference) current = not (same_probe current reference)

-- The loop over the probes, `left` of them from number `i` on.
unfoldable pub probe_loop :
    (ℕ → Result InstallError Probe) → ℕ → ℕ → Option Probe → Result InstallError (Option Probe)
unfolding changed
probe_loop probe_once zero i reference = ok reference
probe_loop probe_once (suc left) i reference = and_then (probe_once i) λ current.
    let later = probe_loop probe_once left (i + 1) (some current) in
    if not (bytes_eq current.signature expected_signature)
    then err wrong_target
    else if changed reference current
    then err readings_changed
    else later

unfoldable pub conclude : Bool → Option Probe → Result InstallError Probe
unfolding validate_preinstall validate_postinstall
conclude postinstall none = err no_probes
conclude postinstall (some reference) =
    and_then (if postinstall then validate_postinstall reference else validate_preinstall reference)
      λ _. ok reference

unfoldable pub check_connection :
    (ℕ → Result InstallError Probe) → ℕ → Bool → Result InstallError Probe
unfolding probe_loop conclude
check_connection probe_once count postinstall =
    and_then (probe_loop probe_once count 1 none) (conclude postinstall)

-- std::toupper in the C locale, on a byte.
unfoldable pub upper : ℕ → ℕ
upper c = if leb b'a' c && leb c b'z' then c - 32 else c

unfoldable pub hex_nibble : ℕ → Result InstallError ℕ
unfolding upper
hex_nibble value =
    if leb b'0' value && leb value b'9'
    then ok (value - b'0')
    else if leb b'A' (upper value) && leb (upper value) b'F'
    then ok (upper value - b'A' + 10)
    else err invalid_character

-- hex_value at each second offset of what follows the colon.
unfoldable pub hex_values : Bytes → Result InstallError Bytes
unfolding hex_nibble
hex_values [] = ok []
hex_values (h ∷ []) = err truncated_record
hex_values (h ∷ l ∷ rest) =
    let later = hex_values rest in
    and_then (hex_nibble h) λ high.
      and_then (hex_nibble l)
        λ low. and_then later λ values. ok (((high * 2 ^ 4 + low) % 2 ^ 8) ∷ values)

-- The variables of the loop of validate_combined_image.
pub record Scan : Type 0 where
  pub base : ℕ
  pub eof : Bool
  pub application : Bool
  pub bootloader : Bool

unfoldable pub total : Bytes → ℕ
total [] = 0
total (x ∷ xs) = x + total xs

-- The sums are those of std::uint32_t.
unfoldable pub scan_record : Bytes → Scan → Result InstallError Scan
scan_record content scan =
    let size = get_or content 0 0 in
    let address = get_or content 1 0 * 2 ^ 8 + get_or content 2 0 in
    let type = get_or content 3 0 in
    let value = get_or content 4 0 * 2 ^ 8 + get_or content 5 0 in
    let start = (scan.base + address) % 2 ^ 32 in
    let end = (start + size) % 2 ^ 32 in
    if type == 0
    then (if ltb 0x8000 end
        then err beyond_flash
        else ok (record scan {
          application = scan.application || start == 0 && not (size == 0);
          bootloader = scan.bootloader || ltb start 0x8000 && ltb 0x7000 end;
        }))
    else if type == 1
    then ok (record scan { eof = true })
    else if type == 2 && size == 2
    then ok (record scan { base = value * 2 ^ 4 })
    else if type == 4 && size == 2
    then ok (record scan { base = value * 2 ^ 16 })
    else ok scan

-- A carriage return at the end of a line.
unfoldable pub pop_return : Bytes → Bytes
pop_return [] = []
pop_return (c ∷ cs) = let rest = pop_return cs in if c == 13 && is_empty cs then [] else c ∷ rest

unfoldable pub scan_line : ℕ → Bytes → Scan → Result InstallError Scan
unfolding pop_return hex_values total scan_record
scan_line number raw scan =
    let line = pop_return raw in
    if is_empty line
    then ok scan
    else if not (get_or line 0 0 == b':')
        || ltb (length line) 11
        || bit_and (length line - 1) 1 == 1
    then err (malformed_record number)
    else and_then (hex_values (drop 1 line)) λ content.
      if not (length content == get_or content 0 0 + 5)
      then err (wrong_length number)
      else if not (total content % 2 ^ 32 % 2 ^ 8 == 0)
      then err (wrong_checksum number)
      else scan_record content scan

unfoldable pub scan_lines : ℕ → List Bytes → Scan → Result InstallError Scan
unfolding scan_line
scan_lines number [] scan = ok scan
scan_lines number (line ∷ lines) scan =
    and_then (scan_line (number + 1) line scan) (scan_lines (number + 1) lines)

-- The contents of the image file; an empty line changes nothing, so neither does the one that
-- std::getline leaves out at the end.
unfoldable pub validate_combined_image : Bytes → Result InstallError (Unit {0})
unfolding scan_lines
validate_combined_image contents =
    and_then
      (scan_lines 0 (split_lines contents)
        (record { base = 0; eof = false; application = false; bootloader = false }))
      λ scan.
        if not scan.eof || not scan.application || not scan.bootloader
        then err incomplete_image
        else ok tt
