-- ===== src/Installer/Operation.antt =====
-- tools/bootloader-installer/src/main.cpp: the command line, the menu and a whole operation, on the
-- operating system of Installer.System. The name of the factory image is set by the build.
use p2000t_cartridge_studio.Bytes.{Bytes, bytes_eq, is_empty}
use p2000t_cartridge_studio.Text.{codes}
use p2000t_cartridge_studio.Effects.{Result, ok, err, proceed}
use p2000t_cartridge_studio.Installer.{
  InstallError, Probe, needs_value, not_a_number, out_of_range, unexpected_argument, no_action,
  no_image, bad_bitclock, invalid_selection, and_then,
}
use p2000t_cartridge_studio.Installer.System.{
  System, Options, Outcome, executable_directory, find_avrdude, find_config, require_file,
  make_work_directory, check_connection_on, install,
}
use p2000t_cartridge_studio.Base.{
  ℕ, ◌%◌, ◌^◌, Bool, true, false, not, ◌&&◌, ◌||◌, Option, none, some, List, [], ◌∷◌, ltb, ◌==◌,
  if◌then◌else◌, length,
}

abbrev pub either_word : Bytes → Bytes → Bytes → Bool
either_word short long arg = bytes_eq arg short || bytes_eq arg long

-- An option that ends the program with 0.
abbrev pub informs : Bytes → Bool
informs arg =
    either_word (codes "-h") (codes "--help") arg
    || either_word (codes "-V") (codes "--version") arg

abbrev pub takes_value : Bytes → Bool
takes_value arg =
    bytes_eq arg (codes "--avrdude")
    || bytes_eq arg (codes "--config")
    || bytes_eq arg (codes "--probes")
    || bytes_eq arg (codes "--bitclock-us")

module _ {S D : Type 0} (os : System S D) (factory_image : Bytes) where
  abbrev pub default_options : Options D
  default_options = record {
    avrdude = [];
    config = [];
    image = [];
    action = [];
    probes = 5;
    bitclock_us = os.twenty;
  }

  unfoldable pub parse_unsigned : Bytes → Result InstallError ℕ
  parse_unsigned value = elim (os.stoul value) [
    | none ↦ err not_a_number
    | some (parsed, used) ↦
        (if not (used == length value) || ltb parsed 2 || ltb 20 parsed
          then err out_of_range
          else ok (parsed % 2 ^ 32))
  ]

  unfoldable pub set_option : Bytes → Bytes → Options D → Result InstallError (Options D)
  unfolding parse_unsigned
  set_option arg value options =
      if bytes_eq arg (codes "--avrdude")
      then ok (record options { avrdude = value })
      else if bytes_eq arg (codes "--config")
      then ok (record options { config = value })
      else if bytes_eq arg (codes "--probes")
      then and_then (parse_unsigned value) (λ n. ok (record options { probes = n }))
      else elim (os.stod value) [
        | none ↦ err not_a_number
        | some d ↦ ok (record options { bitclock_us = d })
      ]

  unfoldable pub positional : Bytes → Options D → Result InstallError (Options D)
  positional arg options =
      if is_empty options.action
      then ok (record options { action = arg })
      else if bytes_eq options.action (codes "flash") && is_empty options.image
      then ok (record options { image = arg })
      else err unexpected_argument

  -- The loop over the arguments; `none` where the program ends with 0.
  unfoldable pub parse_arguments : List Bytes → Options D → Result InstallError (Option (Options D))
  unfolding set_option positional
  parse_arguments [] options = ok (some options)
  parse_arguments (arg ∷ []) options =
      if informs arg
      then ok none
      else if takes_value arg
      then err needs_value
      else and_then (positional arg options) λ o. ok (some o)
  parse_arguments (arg ∷ next ∷ rest) options =
      if informs arg
      then ok none
      else if takes_value arg
      then and_then (set_option arg next options) (λ o. parse_arguments rest o)
      else and_then (positional arg options) λ o. parse_arguments (next ∷ rest) o

  -- The image of a flash without one, from the directory of the program.
  unfoldable pub default_image : Options D → S → Result InstallError (Options D)
  unfolding executable_directory
  default_image options s =
      if bytes_eq options.action (codes "flash") && is_empty options.image
      then and_then (executable_directory os s) (λ directory.
        let bundled = os.join directory factory_image in
        if os.is_regular_file bundled s
        then ok (record options { image = bundled })
        else err no_image)
      else ok options

  unfoldable pub finish_options : Options D → S → Result InstallError (Options D)
  unfolding default_image
  finish_options options s =
      if not (bytes_eq options.action (codes "check"))
        && not (bytes_eq options.action (codes "flash"))
      then err no_action
      else and_then (default_image options s)
          λ o. if os.is_bitclock o.bitclock_us then ok o else err bad_bitclock

  unfoldable pub parse_options : List Bytes → S → Result InstallError (Option (Options D))
  unfolding parse_arguments finish_options
  parse_options arguments s = and_then (parse_arguments arguments default_options) λ parsed.
      elim parsed [
        | none ↦ ok none
        | some options ↦ and_then (finish_options options s) λ o. ok (some o)
      ]

  -- The paths of an operation, made absolute and looked for.
  unfoldable pub locate_avrdude : Options D → S → Result InstallError (Options D)
  unfolding find_avrdude require_file
  locate_avrdude options s = and_then (find_avrdude os options.avrdude s) λ path.
      let avrdude = os.absolute path s in
      and_then (require_file os avrdude s) λ _. ok (record options { avrdude = avrdude })

  unfoldable pub locate_config : Options D → S → Result InstallError (Options D)
  unfolding find_config require_file
  locate_config options s =
      let config = find_config os options.avrdude options.config s in
      let path = os.absolute config s in
      if is_empty config
      then ok (record options { config = config })
      else and_then (require_file os path s) λ _. ok (record options { config = path })

  unfoldable pub locate_image : Options D → S → Result InstallError (Options D)
  unfolding require_file
  locate_image options s =
      let path = os.absolute options.image s in
      if is_empty options.image
      then ok options
      else and_then (require_file os path s) λ _. ok (record options { image = path })

  unfoldable pub locate : Options D → S → Result InstallError (Options D)
  unfolding locate_avrdude locate_config locate_image
  locate options s =
      and_then (locate_avrdude options s) λ o. and_then (locate_config o s) λ o'. locate_image o' s

  -- After the installation.
  unfoldable pub confirm : Options D → Bytes → Unit {0} → S → Outcome S (Unit {0})
  unfolding check_connection_on
  confirm options work _ s =
      proceed (check_connection_on os options work 3 true s) λ _ s'. (ok tt, s')

  unfoldable pub act : Options D → Bytes → S → Outcome S (Unit {0})
  unfolding install confirm
  act options work s =
      if bytes_eq options.action (codes "flash")
      then proceed (install os options s) (confirm options work)
      else (ok tt, s)

  unfoldable pub clean_up : Bytes → Unit {0} → S → Outcome S (Unit {0})
  clean_up work _ s = (ok tt, os.remove_all work s)

  -- After the connection was checked.
  unfoldable pub operate_checked : Options D → Bytes → Probe → S → Outcome S (Unit {0})
  unfolding act clean_up
  operate_checked options work probe s = proceed (act options work s) (clean_up work)

  -- In the directory for the readings.
  unfoldable pub operate_in : Options D → Bytes → S → Outcome S (Unit {0})
  unfolding check_connection_on operate_checked
  operate_in options work s =
      proceed (check_connection_on os options work options.probes false s)
        (operate_checked options work)

  -- With the located files.
  unfoldable pub operate_on : Options D → S → Outcome S (Unit {0})
  unfolding make_work_directory operate_in
  operate_on options s = proceed (make_work_directory os s) (operate_in options)

  unfoldable pub execute_operation : Options D → S → Outcome S (Unit {0})
  unfolding locate operate_on
  execute_operation options s = proceed (locate options s, s) operate_on

  -- A line of input, empty where there is none.
  abbrev pub line_or_empty : Option Bytes → Bytes
  line_or_empty none = []
  line_or_empty (some line) = line

  -- The image of the first entry of the menu.
  unfoldable pub menu_image : S → Outcome S Bytes
  unfolding executable_directory
  menu_image s =
      proceed (executable_directory os s, s)
        λ directory s₁.
          let bundled = os.join directory factory_image in
          let (line, s₂) = os.read_line s₁ in
          if os.is_regular_file bundled s₁ then (ok bundled, s₁) else (ok (line_or_empty line), s₂)

  abbrev pub acting : Bytes → Options D
  acting action = record default_options { action = action }

  unfoldable pub choose : Bytes → S → Outcome S (Options D)
  unfolding menu_image
  choose choice s =
      if bytes_eq choice (codes "1")
      then proceed (menu_image s) (λ image s₁.
        let (enter, s₂) = os.read_line s₁ in
        (ok (record (acting (codes "flash")) { image = image }), s₂))
      else if bytes_eq choice (codes "2")
      then (ok (acting (codes "check")), s)
      else if bytes_eq choice (codes "3")
      then (ok (acting (codes "exit")), s)
      else (err invalid_selection, s)

  unfoldable pub interactive_options : S → Outcome S (Options D)
  unfolding choose
  interactive_options s =
      let (line, s₁) = os.read_line s in
      elim line [ none ↦ (ok (acting (codes "exit")), s₁) | some choice ↦ choose choice s₁ ]

  -- A turn of the menu: true when the program ends. An exception is reported and ends the turn only.
  unfoldable pub serve_menu : Outcome S (Options D) → Bool × S
  unfolding execute_operation
  serve_menu (err e, s) = (false, (os.read_line s).1)
  serve_menu (ok options, s) =
      if bytes_eq options.action (codes "exit")
      then (true, s)
      else (false, (os.read_line (execute_operation options s).1).1)

  unfoldable pub menu_turn : S → Bool × S
  unfolding interactive_options serve_menu
  menu_turn s = serve_menu (interactive_options s)

  -- The result of the program for a command line with arguments.
  unfoldable pub exit_code : Outcome S (Unit {0}) → ℕ × S
  exit_code (ok a, s) = (0, s)
  exit_code (err e, s) = (1, s)

  unfoldable pub run_command : List Bytes → S → ℕ × S
  unfolding parse_options execute_operation exit_code
  run_command arguments s = exit_code (
      proceed (parse_options arguments s, s)
        λ parsed s₁. elim parsed [
          | none ↦ (ok tt, s₁)
          | some options ↦ execute_operation options s₁
        ])
