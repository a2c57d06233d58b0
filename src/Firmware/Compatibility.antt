-- ===== src/Firmware/Compatibility.antt =====
-- src/firmwarecompatibility.cpp: which firmware releases a release of the program supports.
use p2000t_cartridge_studio.Bytes.{Bytes, bytes_eq, starts_with}
use p2000t_cartridge_studio.Text.{codes}
use p2000t_cartridge_studio.Base.{
  leb, true, false, not, Bool, true, false, not, ◌&&◌, ◌||◌, Option, none, some, List, [], ◌∷◌, leb,
  ◌==◌, if◌then◌else◌, drop,
}

abbrev pub CompatibilityPair : Type 0
CompatibilityPair = Bytes × Bytes

abbrev pub compatibility_matrix : List CompatibilityPair
compatibility_matrix =
    (codes "0.1.0", codes "0.1.0")
    ∷ (codes "0.1.1", codes "0.1.0")
    ∷ (codes "0.1.1", codes "0.1.1")
    ∷ (codes "0.1.2", codes "0.1.0")
    ∷ (codes "0.1.2", codes "0.1.1")
    ∷ (codes "0.1.2", codes "0.1.2")
    ∷ (codes "0.2.0", codes "0.1.0")
    ∷ (codes "0.2.0", codes "0.1.1")
    ∷ (codes "0.2.0", codes "0.1.2")
    ∷ (codes "0.2.0", codes "0.2.0")
    ∷ (codes "0.2.1", codes "0.1.0")
    ∷ (codes "0.2.1", codes "0.1.1")
    ∷ (codes "0.2.1", codes "0.1.2")
    ∷ (codes "0.2.1", codes "0.2.0")
    ∷ (codes "0.2.1", codes "0.2.1")
    ∷ (codes "0.2.2", codes "0.1.0")
    ∷ (codes "0.2.2", codes "0.1.1")
    ∷ (codes "0.2.2", codes "0.1.2")
    ∷ (codes "0.2.2", codes "0.2.0")
    ∷ (codes "0.2.2", codes "0.2.1")
    ∷ (codes "0.2.2", codes "0.2.2")
    ∷ (codes "0.2.3", codes "0.1.0")
    ∷ (codes "0.2.3", codes "0.1.1")
    ∷ (codes "0.2.3", codes "0.1.2")
    ∷ (codes "0.2.3", codes "0.2.0")
    ∷ (codes "0.2.3", codes "0.2.1")
    ∷ (codes "0.2.3", codes "0.2.2")
    ∷ (codes "0.2.3", codes "0.2.3")
    ∷ (codes "0.2.4", codes "0.1.0")
    ∷ (codes "0.2.4", codes "0.1.1")
    ∷ (codes "0.2.4", codes "0.1.2")
    ∷ (codes "0.2.4", codes "0.2.0")
    ∷ (codes "0.2.4", codes "0.2.1")
    ∷ (codes "0.2.4", codes "0.2.2")
    ∷ (codes "0.2.4", codes "0.2.3")
    ∷ (codes "0.2.4", codes "0.2.4")
    ∷ (codes "0.2.5", codes "0.1.0")
    ∷ (codes "0.2.5", codes "0.1.1")
    ∷ (codes "0.2.5", codes "0.1.2")
    ∷ (codes "0.2.5", codes "0.2.0")
    ∷ (codes "0.2.5", codes "0.2.1")
    ∷ (codes "0.2.5", codes "0.2.2")
    ∷ (codes "0.2.5", codes "0.2.3")
    ∷ (codes "0.2.5", codes "0.2.4")
    ∷ (codes "0.2.5", codes "0.2.5")
    ∷ []

-- The digits `0|[1-9][0-9]*` at the start of a text, and the text behind them.
unfoldable pub digits : Bytes → Bytes
digits [] = []
digits (c ∷ cs) = let rest = digits cs in if leb b'0' c && leb c b'9' then rest else c ∷ cs

unfoldable pub number : Bytes → Option Bytes
unfolding digits
number [] = none
number (c ∷ cs) =
    if c == b'0' then some cs else if leb b'1' c && leb c b'9' then some (digits cs) else none

unfoldable pub dot : Option Bytes → Option Bytes
dot none = none
dot (some []) = none
dot (some (c ∷ cs)) = if c == b'.' then some cs else none

unfoldable pub number_after : Option Bytes → Option Bytes
unfolding number
number_after none = none
number_after (some xs) = number xs

-- `$` also matches before a newline at the very end.
unfoldable pub at_end : Option Bytes → Bool
at_end none = false
at_end (some []) = true
at_end (some (c ∷ [])) = c == 10
at_end (some (c ∷ d ∷ cs)) = false

unfoldable pub is_version : Bytes → Bool
unfolding number_after dot at_end number
is_version xs = at_end (number_after (dot (number_after (dot (number xs)))))

unfoldable pub version_from_board_info : Bytes → Bytes
unfolding is_version
version_from_board_info board_info =
    let version = drop 11 board_info in
    if not (starts_with (codes "P2000T-FW v") board_info)
    then []
    else if is_version version
    then version
    else []

unfoldable pub supported_in : List CompatibilityPair → Bytes → List Bytes
supported_in [] studio = []
supported_in ((s, f) ∷ pairs) studio =
    let rest = supported_in pairs studio in if bytes_eq studio s then f ∷ rest else rest

unfoldable pub supported_firmware_versions : Bytes → List Bytes
unfolding supported_in
supported_firmware_versions studio = supported_in compatibility_matrix studio

-- `QStringList::contains`.
unfoldable pub contains : List Bytes → Bytes → Bool
contains [] version = false
contains (v ∷ vs) version = bytes_eq v version || contains vs version

unfoldable pub is_supported : Bytes → Bytes → Bool
unfolding supported_firmware_versions contains
is_supported studio firmware = contains (supported_firmware_versions studio) firmware
