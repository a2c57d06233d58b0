-- ===== src/Examples/Tools.antt =====
-- Concrete runs of the preparation tool, on a system that counts the writing runs of AVRDUDE, and of a
-- download.
use p2000t_cartridge_studio.Bytes.{Bytes, bytes_eq, is_empty}
use p2000t_cartridge_studio.Text.{codes}
use p2000t_cartridge_studio.Effects.{ok}
use p2000t_cartridge_studio.Firmware.Hex.{split_lines}
use p2000t_cartridge_studio.Installer.System.{System, Options}
use p2000t_cartridge_studio.Installer.Operation.{locate, execute_operation}
use p2000t_cartridge_studio.Installer.Safety.{among, Kept, Written, execute_operation_safe}
use p2000t_cartridge_studio.Installer.Success.{Prepared, execute_operation_confirmed}
use p2000t_cartridge_studio.Downloader.{
  cancelled, Reply, Happening, first_turn, ready_read, reply_finished, timeout, cancel, Downloader,
  constructed, handle, handle_all,
}
use p2000t_cartridge_studio.Downloader.Invariant.{
  Sound, constructed-handle_all, finished_for_good, give_up_ends,
}
use p2000t_cartridge_studio.Base.{
  ℕ, ◌+◌, ◌≡◌, refl, ap, ◌∙◌, ◌⊎◌, Bool, true, false, not, ◌&&◌, Option, none, some, List, [], ◌∷◌,
  leb, ◌==◌, if◌then◌else◌,
}

abbrev factory : Bytes
factory = codes ":0100000000FF\n:01700000008F\n:00000001FF\n"

-- The files by their names; the fuses change with the first writing run.
abbrev file_of : Bytes → ℕ → Option Bytes
file_of path writes =
    if bytes_eq path (codes "image")
    then some factory
    else if bytes_eq path (codes "probe--signature.bin")
    then some (0x1E ∷ 0x95 ∷ 0x87 ∷ [])
    else if bytes_eq path (codes "probe--lfuse.bin")
    then some (0x5E ∷ [])
    else if bytes_eq path (codes "probe--hfuse.bin")
    then some ((if writes == 0 then 0x99 else 0x98) ∷ [])
    else if bytes_eq path (codes "probe--efuse.bin")
    then some (0xFB ∷ [])
    else if bytes_eq path (codes "probe--lock.bin")
    then some (0xFF ∷ [])
    else none

abbrev counting : System ℕ ℕ
counting = record {
  module_file_name = λ s. some (codes "tool");
  search_path_a = λ name s. none;
  getenv = λ name s. none;
  is_directory = λ path s. true;
  is_regular_file = λ path s. true;
  entries = λ path s. [];
  sorted = λ paths. paths;
  parent_path = λ path. path;
  join = λ path name. name;
  absolute = λ path s. path;
  spawn = λ path arguments s. (true, if among (codes "-n") arguments then s else s + 1);
  read_file = file_of;
  temp_directory_path = λ s. codes "tmp";
  process_id = λ s. 1;
  clock = λ s. s;
  create_directory = λ path s. (true, s);
  remove_all = λ path s. s;
  read_line = λ s. (none, s);
  number_text = λ n. [];
  double_text = λ d. codes "20.000000";
  stoul = λ value. none;
  stod = λ value. none;
  twenty = 20;
  is_bitclock = λ d. leb 1 d && leb d 1000;
}

abbrev flashing : Options ℕ
flashing = record {
  avrdude = codes "avrdude";
  config = codes "conf";
  image = codes "image";
  action = codes "flash";
  probes = 2;
  bitclock_us = 20;
}

abbrev Unwritten : ℕ → Type 0
Unwritten s = s ≡ 0

counting-Kept : Kept counting (codes "factory") Unwritten
counting-Kept = record {
  spawn_kept = λ path arguments s only h. ap (λ (b : Bool). if b then s else s + 1) only ∙ h;
  create_kept = λ path s h. h;
  remove_kept = λ path s h. h;
}

execute_operation_safe_example :
    Unwritten (execute_operation counting (codes "factory") flashing 0).1
    ⊎ ((located : Options ℕ) × (locate counting (codes "factory") flashing 0 ≡ ok located)
        × Written counting (codes "factory") Unwritten counting-Kept located 0)
execute_operation_safe_example =
    execute_operation_safe counting (codes "factory") Unwritten counting-Kept flashing 0 refl

located_files : locate counting (codes "factory") flashing 0 ≡ ok flashing
unfolding locate is_empty
located_files = refl

prepared : execute_operation counting (codes "factory") flashing 0 ≡ (ok tt, 1)
unfolding execute_operation bytes_eq is_empty split_lines
prepared = refl

execute_operation_confirmed_example : Prepared counting (codes "factory") flashing 0 1
unfolding bytes_eq
execute_operation_confirmed_example =
    execute_operation_confirmed counting (codes "factory") flashing flashing 0 1 located_files refl
      prepared

-- Addresses are numbers, and all but 0 are valid; their scheme is https.
abbrev valid_number : ℕ → Bool
valid_number n = not (n == 0)

abbrev https_of : ℕ → Bytes
https_of n = codes "https"

abbrev next_address : ℕ → ℕ → ℕ
next_address from to = to

abbrev failing : Reply ℕ
failing = record {
  error = some (codes "cancelled");
  status_code = 0;
  redirect_target = none;
  url = 3;
  remaining = [];
}

abbrev a_redirect : Reply ℕ
a_redirect = record failing { error = none; status_code = 302; redirect_target = some 4 }

abbrev story : List (Happening ℕ)
story =
    first_turn
    ∷ ready_read (1 ∷ [])
    ∷ reply_finished 0 a_redirect
    ∷ cancel
    ∷ reply_finished 1 failing
    ∷ timeout
    ∷ []

constructed-handle_all_example :
    Sound valid_number https_of bytes_eq next_address
      (handle_all valid_number https_of bytes_eq next_address story (constructed 3 100))
constructed-handle_all_example =
    constructed-handle_all valid_number https_of bytes_eq next_address story 3 100

-- A download that was cancelled before its first request.
abbrev cancelled_download : Downloader ℕ
cancelled_download = record (constructed 3 100) {
  finished = true;
  emitted = 1;
  error_message = some cancelled;
}

finished_for_good_example :
    handle valid_number https_of bytes_eq next_address first_turn cancelled_download
    ≡ record cancelled_download { pending = none }
finished_for_good_example =
    finished_for_good valid_number https_of bytes_eq next_address first_turn cancelled_download refl

abbrev running_download : Downloader ℕ
running_download = record (constructed 3 100) {
  pending = none;
  reply = some 0;
  requests = 3 ∷ [];
  timer_active = true;
}

give_up_ends_example :
    let m₁ = handle valid_number https_of bytes_eq next_address cancel running_download in
    let m₂ = handle valid_number https_of bytes_eq next_address (reply_finished 0 failing) m₁ in
    (m₁.aborted ≡ 0 ∷ [])
    × (m₁.finished ≡ false)
    × (m₁.emitted ≡ 0)
    × (m₂.finished ≡ true)
    × (m₂.success ≡ false)
    × (m₂.reply ≡ none)
    × (m₂.emitted ≡ 1)
    × (m₂.error_message ≡ some cancelled)
unfolding constructed
give_up_ends_example =
    give_up_ends valid_number https_of bytes_eq next_address true 0 failing (codes "cancelled")
      running_download refl refl refl
