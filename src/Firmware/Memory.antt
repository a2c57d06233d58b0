-- ===== src/Firmware/Memory.antt =====
-- What the loops of validate_application_hex keep, and so what an accepted image is.
use p2000t_cartridge_studio.Bytes.{Bytes, is_empty, mid, length-mid}
use p2000t_cartridge_studio.Effects.{Result, ok, err}
use p2000t_cartridge_studio.Firmware.Hex.{
  HexFailure, byte_at, trimmed, all_hex, from_hex, checksum, malformed, unsupported_type,
}
use p2000t_cartridge_studio.Firmware.Image.{
  bootloader_start, Image, initial, and_then, place, data_record, apply_record, read_line,
  read_lines,
}
use p2000t_cartridge_studio.Base.{
  ℕ, zero, suc, ◌+◌, ◌-◌, ◌*◌, ◌%◌, ◌^◌, ◌≤◌, ◌<◌, max, ◌≡◌, refl, sym, ap, ◌∙◌, ◌≢◌, inl, inr,
  Bool, true, false, not, ◌||◌, List, [], ◌∷◌, arith, ltb, ◌==◌, if◌then◌else◌, Bool-cases, length,
  get_or, set, drop, replicate, length-replicate, length-set,
}

-- A property of the value, if there is one.
unfoldable pub Holds : {A : Type 0} → (A → Type 0) → Result HexFailure A → Type 0
Holds P (ok a) = P a
Holds P (err e) = Unit

-- How many addresses are occupied.
unfoldable pub marked : List Bool → ℕ
marked [] = 0
marked (true ∷ bs) = suc (marked bs)
marked (false ∷ bs) = marked bs

pub marked-le : (bs : List Bool) → marked bs ≤ length bs
unfolding marked
marked-le [] = omega arith
marked-le (true ∷ bs) = omega (arith, marked-le bs)
marked-le (false ∷ bs) = omega (arith, marked-le bs)

marked-set :
    (bs : List Bool) (i : ℕ)
    → get_or bs i false ≡ false
    → i < length bs
    → marked (set bs i true) ≡ marked bs + 1
unfolding marked
marked-set [] i h l = absurd (omega arith)
marked-set (true ∷ bs) zero h l = absurd (ground arith)
marked-set (false ∷ bs) zero h l = omega arith
marked-set (true ∷ bs) (suc i) h l = omega (arith, marked-set bs i h (omega arith))
marked-set (false ∷ bs) (suc i) h l = omega (arith, marked-set bs i h (omega arith))

marked-replicate : (n : ℕ) → marked (replicate n false) ≡ 0
unfolding marked replicate
marked-replicate zero = refl
marked-replicate (suc n) = marked-replicate n

get_or-replicate : {A : Type 0} (n i : ℕ) (v : A) → get_or (replicate n v) i v ≡ v
unfolding replicate
get_or-replicate zero i v = refl
get_or-replicate (suc n) zero v = refl
get_or-replicate (suc n) (suc i) v = get_or-replicate n i v

get_or-set_self :
    {A : Type 0} (xs : List A) (i : ℕ) (v d : A) → i < length xs → get_or (set xs i v) i d ≡ v
get_or-set_self [] i v d h = absurd (omega arith)
get_or-set_self (x ∷ xs) zero v d h = refl
get_or-set_self (x ∷ xs) (suc i) v d h = get_or-set_self xs i v d (omega arith)

get_or-set_ne :
    {A : Type 0} (xs : List A) (i j : ℕ) (v d : A) → i ≢ j → get_or (set xs i v) j d ≡ get_or xs j d
get_or-set_ne [] i j v d h = refl
get_or-set_ne (x ∷ xs) zero zero v d h = absurd (h refl)
get_or-set_ne (x ∷ xs) zero (suc j) v d h = refl
get_or-set_ne (x ∷ xs) (suc i) zero v d h = refl
get_or-set_ne (x ∷ xs) (suc i) (suc j) v d h = get_or-set_ne xs i j v d λ e. h (omega arith)

-- `pending` bytes of the current record are counted and not yet stored.
pub record Consistent (pending : ℕ) (image : Image) : Type 0 where
  pub memory_size : length image.memory ≡ bootloader_start
  pub occupied_size : length image.occupied ≡ bootloader_start
  pub bounded : image.highest_address ≤ bootloader_start
  pub counted : image.data_bytes ≡ marked image.occupied + pending
  pub blank : (i : ℕ) → get_or image.occupied i false ≡ false → get_or image.memory i 0xFF ≡ 0xFF
  pub below : (i : ℕ) → get_or image.occupied i false ≡ true → i < image.highest_address

pub initial-Consistent : Consistent 0 initial
initial-Consistent = record {
  memory_size = length-replicate {A = ℕ} bootloader_start 0xFF;
  occupied_size = length-replicate {A = Bool} bootloader_start false;
  bounded = omega arith;
  counted = omega (arith, marked-replicate bootloader_start);
  blank = λ i h. get_or-replicate {A = ℕ} bootloader_start i 0xFF;
  below = λ i h. absurd (ground (arith, get_or-replicate {A = Bool} bootloader_start i false));
}

-- One byte of a record.
stored-Consistent :
    (pending absolute value : ℕ) (image : Image)
    → Consistent (suc pending) image
    → get_or image.occupied absolute false ≡ false
    → absolute < image.highest_address
    → Consistent pending (record image {
      occupied = set image.occupied absolute true;
      memory = set image.memory absolute value;
    })
stored-Consistent pending absolute value image h free within = record {
  memory_size = length-set image.memory absolute value ∙ h.memory_size;
  occupied_size = length-set image.occupied absolute true ∙ h.occupied_size;
  bounded = h.bounded;
  counted = omega (
    arith,
    h.counted,
    marked-set image.occupied absolute free (omega (arith, h.bounded, h.occupied_size)),
  );
  blank = λ i e. elim (Bool-cases (absolute == i)) [
    | inl same ↦
        let at : absolute ≡ i = ground arith in
        absurd (
          ground (
            arith,
            get_or-set_self image.occupied absolute true false
                (omega (arith, h.bounded, h.occupied_size)),
            ap (λ (n : ℕ). get_or (set image.occupied absolute true) n false) at,
            e,
          ))
    | inr other ↦
        let apart : absolute ≢ i = ground arith in
        get_or-set_ne image.memory absolute i value 0xFF apart
        ∙ h.blank i (sym (get_or-set_ne image.occupied absolute i true false apart) ∙ e)
  ];
  below = λ i e. elim (Bool-cases (absolute == i)) [
    | inl same ↦ ground arith
    | inr other ↦
        let apart : absolute ≢ i = ground arith in
        h.below i (sym (get_or-set_ne image.occupied absolute i true false apart) ∙ e)
  ];
}

place-Consistent :
    (line absolute : ℕ) (content : Bytes) (image : Image)
    → Consistent (length content) image
    → absolute + length content ≤ image.highest_address
    → Holds (Consistent 0) (place line absolute content image)
unfolding place Holds
place-Consistent line absolute [] image h within = h
place-Consistent line absolute (value ∷ rest) image h within =
    elim (Bool-cases (get_or image.occupied absolute false)) [
      | inl taken ↦ rw taken tt
      | inr free ↦ rw free (
          place-Consistent line (absolute + 1) rest _
            (stored-Consistent (length rest) absolute value image h free (omega arith))
            (omega arith))
    ]

pub Holds-ok : {A : Type 0} (P : A → Type 0) (a : A) → P a → Holds P (ok a)
unfolding Holds
Holds-ok P a h = h

Holds-err : {A : Type 0} (P : A → Type 0) (e : HexFailure) → Holds P (err e)
unfolding Holds
Holds-err P e = tt

-- A test that throws.
pub Holds-guard :
    {A : Type 0} (P : A → Type 0) (t : Bool) (e : HexFailure) (r : Result HexFailure A)
    → (t ≡ false → Holds P r)
    → Holds P (if t then err e else r)
unfolding Holds
Holds-guard P true e r h = tt
Holds-guard P false e r h = h refl

-- A split of the cases that go on.
Holds-split :
    {A : Type 0} (P : A → Type 0) (t : Bool) (r s : Result HexFailure A)
    → Holds P r
    → Holds P s
    → Holds P (if t then r else s)
Holds-split P true r s h k = h
Holds-split P false r s h k = k

Holds-and_then :
    {A B : Type 0} (P : A → Type 0) (Q : B → Type 0) (r : Result HexFailure A)
    (f : A → Result HexFailure B)
    → Holds P r
    → ((a : A) → P a → Holds Q (f a))
    → Holds Q (and_then r f)
unfolding Holds
Holds-and_then P Q (ok a) f h k = k a h
Holds-and_then P Q (err e) f h k = tt

pub Holds-map :
    {A : Type 0} (P Q : A → Type 0) (r : Result HexFailure A)
    → ((a : A) → P a → Q a)
    → Holds P r
    → Holds Q r
unfolding Holds
Holds-map P Q (ok a) f h = f a h
Holds-map P Q (err e) f h = tt

data_record-Consistent :
    (line address count : ℕ) (content : Bytes) (image : Image)
    → length content ≡ count
    → Consistent 0 image
    → Holds (Consistent 0) (data_record line address count content image)
unfolding data_record
data_record-Consistent line address count content image sized h =
    let start = image.base_address + address in
    let counted : Image = record image {
      data_bytes = image.data_bytes + count;
      highest_address = max image.highest_address (start + count);
    } in
    Holds-guard (Consistent 0) _ _ _ λ (inside : ltb bootloader_start (start + count) ≡ false).
      Holds-guard (Consistent 0) _ _ _ λ small.
        place-Consistent line start content counted
          (record {
            memory_size = h.memory_size;
            occupied_size = h.occupied_size;
            bounded = ground (arith, h.bounded);
            counted = omega (arith, h.counted, sized);
            blank = h.blank;
            below = λ i e. omega (arith, h.below i e);
          })
          (omega (arith, sized))

-- A record that leaves memory and counts alone.
unchanged-Consistent :
    (image : Image) (base : ℕ) (eof : Bool)
    → Consistent 0 image
    → Consistent 0 (record image { base_address = base; eof_seen = eof })
unchanged-Consistent image base eof h = record {
  memory_size = h.memory_size;
  occupied_size = h.occupied_size;
  bounded = h.bounded;
  counted = h.counted;
  blank = h.blank;
  below = h.below;
}

apply_record-Consistent :
    (line : ℕ) (content : Bytes) (image : Image)
    → length content ≡ byte_at content 0 + 5
    → Consistent 0 image
    → Holds (Consistent 0) (apply_record line content image)
unfolding apply_record
apply_record-Consistent line content image sized h =
    let P = Consistent 0 in
    let count = byte_at content 0 in
    let value = byte_at content 4 * 2 ^ 8 + byte_at content 5 in
    let address = byte_at content 1 * 2 ^ 8 + byte_at content 2 in
    let type = byte_at content 3 in
    Holds-split P (type == 0) _ _
      (data_record-Consistent line address count (mid 4 count content) image
        (length-mid 4 count content (omega (arith, sized))) h)
      (Holds-split P (type == 1) _ _
        (Holds-guard P (not (count == 0) || not (address == 0)) _ _
          λ t. Holds-ok P _ (unchanged-Consistent image image.base_address true h))
        (Holds-split P (type == 2) _ _
          (Holds-guard P (not (count == 2) || not (address == 0)) _ _
            λ t. Holds-ok P _ (unchanged-Consistent image (value * 2 ^ 4) image.eof_seen h))
          (Holds-split P (type == 4) _ _
            (Holds-guard P (not (count == 2) || not (address == 0)) _ _
              λ t. Holds-ok P _ (unchanged-Consistent image (value * 2 ^ 16) image.eof_seen h))
            (Holds-split P (type == 3 || type == 5) _ _
              (Holds-guard P (not (count == 4) || not (address == 0)) _ _ λ t. Holds-ok P image h)
              (Holds-err P (malformed line unsupported_type))))))

read_line-Consistent :
    (number : ℕ) (raw : Bytes) (image : Image)
    → Consistent 0 image
    → Holds (Consistent 0) (read_line number raw image)
unfolding read_line
read_line-Consistent number raw image h =
    let P = Consistent 0 in
    let content = from_hex (drop 1 (trimmed raw)) in
    Holds-split P (is_empty (trimmed raw)) _ _ (Holds-ok P image h) (
      Holds-guard P image.eof_seen _ _ λ a.
        Holds-guard P
          (not (get_or (trimmed raw) 0 0 == b':') || not ((length (trimmed raw) - 1) % 2 == 0)) _ _
          λ b. Holds-guard P (not (all_hex (drop 1 (trimmed raw)))) _ _ λ d.
            Holds-guard P (ltb (length content) 5 || not (length content == byte_at content 0 + 5))
              _ _
              λ e.
                Holds-guard P (not (checksum content == 0)) _ _
                  λ f. apply_record-Consistent number content image (ground (arith, e)) h)

pub read_lines-Consistent :
    (number : ℕ) (lines : List Bytes) (image : Image)
    → Consistent 0 image
    → Holds (Consistent 0) (read_lines number lines image)
unfolding read_lines Holds
read_lines-Consistent number [] image h = h
read_lines-Consistent number (line ∷ lines) image h =
    Holds-and_then (Consistent 0) (Consistent 0) (read_line (number + 1) line image) _
      (read_line-Consistent (number + 1) line image h) (read_lines-Consistent (number + 1) lines)
