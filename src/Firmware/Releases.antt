-- ===== src/Firmware/Releases.antt =====
-- src/firmwarecompatibility.cpp: the explicit matrix against the order of the releases, and the version
-- in what a cartridge reports.
use p2000t_cartridge_studio.Bytes.{Bytes, bytes_eq, bytes_eq_iff}
use p2000t_cartridge_studio.Text.{codes}
use p2000t_cartridge_studio.Firmware.Compatibility.{
  CompatibilityPair, compatibility_matrix, supported_in, supported_firmware_versions, contains,
  is_supported,
}
use p2000t_cartridge_studio.Base.{
  ℕ, zero, suc, ◌+◌, ◌≤◌, ◌<◌, ◌≡◌, refl, sym, ap, ◌∙◌, inl, inr, Bool, true, false, ◌&&◌, List, [],
  ◌∷◌, arith, ltb, leb, if◌then◌else◌, Bool-cases, ltb→lt, length, get_or, take,
}

-- The releases that the matrix names, oldest first.
abbrev pub releases : List Bytes
releases =
    codes "0.1.0"
    ∷ codes "0.1.1"
    ∷ codes "0.1.2"
    ∷ codes "0.2.0"
    ∷ codes "0.2.1"
    ∷ codes "0.2.2"
    ∷ codes "0.2.3"
    ∷ codes "0.2.4"
    ∷ codes "0.2.5"
    ∷ []

-- Where a release stands among others; their number if it does not.
unfoldable pub position : List Bytes → Bytes → ℕ
position [] version = 0
position (v ∷ vs) version =
    let rest = position vs version in if bytes_eq v version then 0 else suc rest

position-le : (vs : List Bytes) (version : Bytes) → position vs version ≤ length vs
unfolding position
position-le [] version = omega arith
position-le (v ∷ vs) version = ground (arith, position-le vs version)

get_or-position :
    (vs : List Bytes) (version : Bytes)
    → position vs version < length vs
    → get_or vs (position vs version) [] ≡ version
unfolding position
get_or-position [] version h = absurd (omega arith)
get_or-position (v ∷ vs) version h = elim (Bool-cases (bytes_eq v version)) [
  | inl same ↦ rw same ((bytes_eq_iff v version).0 same)
  | inr other ↦ rw other (get_or-position vs version (ground (arith, h, other)))
]

contains-take :
    (vs : List Bytes) (n : ℕ) (version : Bytes)
    → n ≤ length vs
    → contains (take n vs) version ≡ ltb (position vs version) n
unfolding position contains
contains-take [] zero version h = refl
contains-take [] (suc n) version h = absurd (omega arith)
contains-take (v ∷ vs) zero version h = ground arith
contains-take (v ∷ vs) (suc n) version h = ground (arith, contains-take vs n version)

-- Each row of the matrix, for a release of the program.
supported-release :
    (i : ℕ) → i < 9 → supported_firmware_versions (get_or releases i []) ≡ take (i + 1) releases
unfolding supported_firmware_versions bytes_eq
supported-release zero h = refl
supported-release (suc zero) h = refl
supported-release (suc (suc zero)) h = refl
supported-release (suc (suc (suc zero))) h = refl
supported-release (suc (suc (suc (suc zero)))) h = refl
supported-release (suc (suc (suc (suc (suc zero))))) h = refl
supported-release (suc (suc (suc (suc (suc (suc zero)))))) h = refl
supported-release (suc (suc (suc (suc (suc (suc (suc zero))))))) h = refl
supported-release (suc (suc (suc (suc (suc (suc (suc (suc zero)))))))) h = refl
supported-release (suc (suc (suc (suc (suc (suc (suc (suc (suc i))))))))) h = absurd (omega arith)

-- A version that no row names has none.
known_studios : List CompatibilityPair → Bool
known_studios [] = true
known_studios ((s, f) ∷ pairs) = ltb (position releases s) 9 && known_studios pairs

supported-unknown :
    (pairs : List CompatibilityPair) (studio : Bytes)
    → known_studios pairs ≡ true
    → 9 ≤ position releases studio
    → supported_in pairs studio ≡ []
unfolding supported_in known_studios
supported-unknown [] studio known h = refl
supported-unknown ((s, f) ∷ pairs) studio known h = elim (Bool-cases (bytes_eq studio s)) [
  | inl same ↦
      absurd (ground (arith, known, h, ap (position releases) ((bytes_eq_iff studio s).0 same)))
  | inr other ↦ rw other (supported-unknown pairs studio (ground (arith, known)) h)
]

matrix_known : known_studios compatibility_matrix ≡ true
unfolding known_studios position bytes_eq
matrix_known = refl

same_test : (a b : ℕ) → ltb a (b + 1) ≡ leb a b
same_test a b = ground arith

not_below : (a : ℕ) → ltb a 9 ≡ false → 9 ≤ a
not_below a h = ground arith

-- For any two version texts, the compatibility matrix supports the pair exactly if both are among
-- the nine releases that it names and the firmware is not newer than the program.
pub is_supported-position :
    (studio firmware : Bytes)
    → is_supported studio firmware ≡ (
        ltb (position releases studio) 9
        && leb (position releases firmware) (position releases studio))
unfolding is_supported supported_firmware_versions contains
is_supported-position studio firmware = elim (Bool-cases (ltb (position releases studio) 9)) [
  | inl known ↦
      let at = position releases studio in
      let below : at < 9 = ltb→lt at 9 known in
      let row : supported_firmware_versions studio ≡ take (at + 1) releases =
        ap supported_firmware_versions (sym (get_or-position releases studio below))
        ∙ supported-release at below in
      let found : contains (take (at + 1) releases) firmware
          ≡ ltb (position releases firmware) (at + 1) =
        contains-take releases (at + 1) firmware (omega arith) in
      rw (row, found, known) (same_test (position releases firmware) at)
  | inr unknown ↦
      rw
        (
          unknown,
          supported-unknown compatibility_matrix studio matrix_known
              (not_below (position releases studio) unknown),
        )
        refl
]
