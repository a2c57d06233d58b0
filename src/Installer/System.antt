-- ===== src/Installer/System.antt =====
-- tools/bootloader-installer/src/main.cpp: the options, the search for AVRDUDE and its configuration, and
-- the calls of AVRDUDE. The operating system, the paths and the texts of numbers are parameters. What is
-- printed is left out.
use p2000t_cartridge_studio.Bytes.{Bytes, bytes_eq, is_empty}
use p2000t_cartridge_studio.Text.{codes}
use p2000t_cartridge_studio.Effects.{Result, ok, err, proceed, guard}
use p2000t_cartridge_studio.Installer.{
  InstallError, no_executable, no_avrdude, missing_file, probe_failed, cannot_read,
  unexpected_length, no_work_directory, flash_failed, Probe, and_then, wrong_target,
  readings_changed, changed, conclude, expected_signature, validate_combined_image,
}
use p2000t_cartridge_studio.Base.{
  ℕ, zero, suc, ◌+◌, Bool, not, Option, none, some, List, [], ◌∷◌, ◌++◌, ◌==◌, if◌then◌else◌,
  length, get_or,
}

-- `D` is double. `spawn` tells whether the process ended with 0; `clock` is the count of the clock.
pub record System (S D : Type 0) : Type 0 where
  pub module_file_name : S → Option Bytes
  pub search_path_a : Bytes → S → Option Bytes
  pub getenv : Bytes → S → Option Bytes
  pub is_directory : Bytes → S → Bool
  pub is_regular_file : Bytes → S → Bool
  pub entries : Bytes → S → List Bytes
  pub sorted : List Bytes → List Bytes
  pub parent_path : Bytes → Bytes
  pub join : Bytes → Bytes → Bytes
  pub absolute : Bytes → S → Bytes
  pub spawn : Bytes → List Bytes → S → Bool × S
  pub read_file : Bytes → S → Option Bytes
  pub temp_directory_path : S → Bytes
  pub process_id : S → ℕ
  pub clock : S → ℕ
  pub create_directory : Bytes → S → Bool × S
  pub remove_all : Bytes → S → S
  pub read_line : S → Option Bytes × S
  pub number_text : ℕ → Bytes
  pub double_text : D → Bytes
  pub stoul : Bytes → Option (ℕ × ℕ)
  pub stod : Bytes → Option D
  pub twenty : D
  pub is_bitclock : D → Bool

pub record Options (D : Type 0) : Type 0 where
  pub avrdude : Bytes
  pub config : Bytes
  pub image : Bytes
  pub action : Bytes
  pub probes : ℕ
  pub bitclock_us : D

-- The outcome of a step and the system after it; an exception ends what follows.
abbrev pub Outcome : Type 0 → Type 0 → Type 0
Outcome S A = Result InstallError A × S

module _ {S D : Type 0} (os : System S D) where
  unfoldable pub executable_directory : S → Result InstallError Bytes
  executable_directory s = elim (os.module_file_name s) [
    | none ↦ err no_executable
    | some name ↦ ok (os.parent_path name)
  ]

  -- The candidates in the order of the directory.
  unfoldable pub candidates : List Bytes → S → List Bytes
  candidates [] s = []
  candidates (entry ∷ rest) s =
      let candidate = os.join (os.join entry (codes "bin")) (codes "avrdude.exe") in
      let more = candidates rest s in
      if os.is_regular_file candidate s then candidate ∷ more else more

  abbrev pub last : List Bytes → Option Bytes
  last [] = none
  last (x ∷ xs) = elim (last xs) [ none ↦ some x | some y ↦ some y ]

  unfoldable pub avrdude_root : Bytes → Bytes
  avrdude_root local =
      os.join
        (os.join
          (os.join (os.join (os.join local (codes "Arduino15")) (codes "packages"))
            (codes "arduino"))
          (codes "tools"))
        (codes "avrdude")

  unfoldable pub newest_arduino_avrdude : S → Option Bytes
  unfolding candidates avrdude_root
  newest_arduino_avrdude s = elim (os.getenv (codes "LOCALAPPDATA") s) [
    | none ↦ none
    | some local ↦
        let root = avrdude_root local in
        if os.is_directory root s then last (os.sorted (candidates (os.entries root s) s)) else none
  ]

  abbrev pub found_or : {A : Type 0} → Option A → Result InstallError A → Result InstallError A
  found_or (some a) later = ok a
  found_or none later = later

  unfoldable pub find_avrdude : Bytes → S → Result InstallError Bytes
  unfolding executable_directory newest_arduino_avrdude
  find_avrdude requested s =
      let searched =
        found_or (os.search_path_a (codes "avrdude.exe") s)
          (found_or (newest_arduino_avrdude s) (err no_avrdude)) in
      if not (is_empty requested)
      then ok requested
      else found_or (os.getenv (codes "AVRDUDE") s) (
          and_then (executable_directory s) λ directory.
            let local = os.join directory (codes "avrdude.exe") in
            if os.is_regular_file local s then ok local else searched)

  unfoldable pub find_config : Bytes → Bytes → S → Bytes
  find_config avrdude requested s =
      let installed =
        os.join (os.join (os.parent_path (os.parent_path avrdude)) (codes "etc"))
          (codes "avrdude.conf") in
      let beside = os.join (os.parent_path avrdude) (codes "avrdude.conf") in
      if not (is_empty requested)
      then requested
      else if os.is_regular_file installed s
      then installed
      else if os.is_regular_file beside s
      then beside
      else []

  unfoldable pub require_file : Bytes → S → Result InstallError (Unit {0})
  require_file path s = if os.is_regular_file path s then ok tt else err (missing_file path)

  unfoldable pub read_binary : Bytes → ℕ → S → Result InstallError Bytes
  read_binary path expected s = elim (os.read_file path s) [
    | none ↦ err cannot_read
    | some content ↦ (if length content == expected then ok content else err unexpected_length)
  ]

  unfoldable pub make_work_directory : S → Outcome S Bytes
  make_work_directory s =
      let name =
        codes "p2000t-isp-"
        ++ os.number_text (os.process_id s)
        ++ codes "-"
        ++ os.number_text (os.clock s) in
      let result = os.join (os.temp_directory_path s) name in
      let (created, s') = os.create_directory result s in
      (if created then ok result else err no_work_directory, s')

  unfoldable pub common_arguments : Options D → List Bytes
  common_arguments options =
      (if is_empty options.config then [] else codes "-C" ∷ options.config ∷ [])
      ++ (codes "-c"
          ∷ codes "usbasp"
          ∷ codes "-p"
          ∷ codes "atmega32u4"
          ∷ codes "-B"
          ∷ os.double_text options.bitclock_us
          ∷ [])

  -- `"-U", "<memory>:r:<file>:r"`.
  abbrev pub reading : Bytes → Bytes → List Bytes
  reading memory file = codes "-U" ∷ (memory ++ codes ":r:" ++ file ++ codes ":r") ∷ []

  unfoldable pub probe_reads : Bytes → List Bytes
  probe_reads prefix =
      reading (codes "signature") (prefix ++ codes "-signature.bin")
      ++ reading (codes "lfuse") (prefix ++ codes "-lfuse.bin")
      ++ reading (codes "hfuse") (prefix ++ codes "-hfuse.bin")
      ++ reading (codes "efuse") (prefix ++ codes "-efuse.bin")
      ++ reading (codes "lock") (prefix ++ codes "-lock.bin")

  unfoldable pub probe_arguments : Options D → Bytes → List Bytes
  unfolding common_arguments probe_reads
  probe_arguments options prefix = common_arguments options ++ (codes "-n" ∷ probe_reads prefix)

  -- The files that AVRDUDE wrote.
  unfoldable pub read_probe : Bytes → S → Result InstallError Probe
  unfolding read_binary
  read_probe prefix s = and_then (read_binary (prefix ++ codes "-signature.bin") 3 s) λ signature.
      and_then (read_binary (prefix ++ codes "-lfuse.bin") 1 s) λ low.
        and_then (read_binary (prefix ++ codes "-hfuse.bin") 1 s) λ high.
          and_then (read_binary (prefix ++ codes "-efuse.bin") 1 s) λ extended.
            and_then (read_binary (prefix ++ codes "-lock.bin") 1 s) λ lock. ok (record {
              signature = signature;
              low = get_or low 0 0;
              high = get_or high 0 0;
              extended = get_or extended 0 0;
              lock = get_or lock 0 0;
            })

  unfoldable pub probe_once : Options D → Bytes → ℕ → S → Outcome S Probe
  unfolding probe_arguments read_probe
  probe_once options directory index s =
      let prefix = os.join directory (codes "probe-" ++ os.number_text index) in
      let (ended, s') = os.spawn options.avrdude (probe_arguments options prefix) s in
      (if ended then read_probe prefix s' else err probe_failed, s')

  -- A reading in the loop of check_connection, before the later ones.
  unfoldable pub compare_probe :
      Option Probe → Probe → S → Outcome S (Option Probe) → Outcome S (Option Probe)
  unfolding changed
  compare_probe reference current s later =
      if not (bytes_eq current.signature expected_signature)
      then (err wrong_target, s)
      else if changed reference current
      then (err readings_changed, s)
      else later

  -- That loop, with the system threaded through it.
  unfoldable pub probes_on : Options D → Bytes → ℕ → ℕ → Option Probe → S → Outcome S (Option Probe)
  unfolding probe_once compare_probe
  probes_on options directory zero i reference s = (ok reference, s)
  probes_on options directory (suc left) i reference s =
      proceed (probe_once options directory i s) λ current s'.
        compare_probe reference current s'
          (probes_on options directory left (i + 1) (some current) s')

  -- The end of check_connection.
  unfoldable pub conclude_on : Bool → Option Probe → S → Outcome S Probe
  unfolding conclude
  conclude_on postinstall reference s = (conclude postinstall reference, s)

  unfoldable pub check_connection_on : Options D → Bytes → ℕ → Bool → S → Outcome S Probe
  unfolding probes_on conclude_on
  check_connection_on options directory count postinstall s =
      proceed (probes_on options directory count 1 none s) (conclude_on postinstall)

  unfoldable pub install_arguments : Options D → List Bytes
  unfolding common_arguments
  install_arguments options =
      common_arguments options
      ++ (codes "-e"
          ∷ codes "-U"
          ∷ (codes "flash:w:" ++ options.image ++ codes ":i")
          ∷ codes "-U"
          ∷ (codes "flash:v:" ++ options.image ++ codes ":i")
          ∷ codes "-U"
          ∷ codes "efuse:w:0xfb:m"
          ∷ codes "-U"
          ∷ codes "hfuse:w:0x98:m"
          ∷ [])

  -- `validate_combined_image` with the file it reads.
  unfoldable pub validate_image_file : Bytes → S → Result InstallError (Unit {0})
  unfolding validate_combined_image
  validate_image_file image s = elim (os.read_file image s) [
    | none ↦ err cannot_read
    | some contents ↦ validate_combined_image contents
  ]

  unfoldable pub write_flash : Options D → Unit {0} → S → Outcome S (Unit {0})
  unfolding install_arguments
  write_flash options _ s =
      let (ended, s') = os.spawn options.avrdude (install_arguments options) s in
      guard ended flash_failed s'

  unfoldable pub install : Options D → S → Outcome S (Unit {0})
  unfolding validate_image_file write_flash
  install options s = proceed (validate_image_file options.image s, s) (write_flash options)
