-- ===== src/Installer/Connection.antt =====
-- What check_connection of the installer guarantees of the readings.
use p2000t_cartridge_studio.Bytes.{bytes_eq, bytes_eq_iff, bytes_eq_refl}
use p2000t_cartridge_studio.Effects.{Result, ok, err}
use p2000t_cartridge_studio.Installer.{
  InstallError, wrong_target, readings_changed, and_then, expected_signature, Probe, same_probe,
  validate_preinstall, validate_postinstall, changed, probe_loop, conclude, check_connection,
}
use p2000t_cartridge_studio.Base.{
  ℕ, zero, suc, ◌+◌, ◌≤◌, ◌<◌, ◌≡◌, refl, sym, ap, subst, ◌∙◌, ◌⊎◌, inl, inr, Bool, true, false,
  not, Option, none, some, arith, ◌==◌, if◌then◌else◌, Bool-cases, ==_iff,
}

same_probe_sound : (p q : Probe) → same_probe p q ≡ true → p ≡ q
unfolding same_probe
same_probe_sound p q h =
    let s : p.signature ≡ q.signature =
      (bytes_eq_iff p.signature q.signature).0 (ground (arith, h)) in
    let l : p.low ≡ q.low = ground (arith, h) in
    let u : p.high ≡ q.high = ground (arith, h) in
    let e : p.extended ≡ q.extended = ground (arith, h) in
    let k : p.lock ≡ q.lock = ground (arith, h) in
    λ i. record { signature = s i; low = l i; high = u i; extended = e i; lock = k i }

same_probe_refl : (p : Probe) → same_probe p p ≡ true
unfolding same_probe
same_probe_refl p = ground (arith, bytes_eq_refl p.signature)

-- All probes of a range read `p`.
pub Stable : (ℕ → Result InstallError Probe) → ℕ → ℕ → Probe → Type 0
Stable probe_once first count p = (i : ℕ) → first ≤ i → i < first + count → probe_once i ≡ ok p

pub result_cases :
    {A : Type 0} (r : Result InstallError A)
    → ((a : A) × (r ≡ ok a)) ⊎ ((e : InstallError) × (r ≡ err e))
result_cases (ok a) = inl (a, refl)
result_cases (err e) = inr (e, refl)

passed_both :
    {A : Type 0} {o : A} (x y : InstallError) (s t : Bool) (r : Result InstallError A)
    → (if not s then err x else if t then err y else r) ≡ ok o
    → (s ≡ true) × (t ≡ false) × (r ≡ ok o)
passed_both x y true false r h = (refl, refl, h)
passed_both x y true true r h = absurd (ground (arith, h))
passed_both x y false t r h = absurd (ground (arith, h))

-- One round of a loop that goes through.
probe_loop-next :
    (probe_once : ℕ → Result InstallError Probe) (left i : ℕ) (reference o : Option Probe)
    → probe_loop probe_once (suc left) i reference ≡ ok o
    → (q : Probe) × (probe_once i ≡ ok q)
      × (bytes_eq q.signature expected_signature ≡ true)
      × (changed reference q ≡ false)
      × (probe_loop probe_once left (i + 1) (some q) ≡ ok o)
unfolding probe_loop
probe_loop-next probe_once left i reference o h = elim (result_cases (probe_once i)) [
  | inl (q, e) ↦
      let (right, same, later) =
        passed_both wrong_target readings_changed (bytes_eq q.signature expected_signature)
          (changed reference q) (probe_loop probe_once left (i + 1) (some q))
          (sym (rw e refl) ∙ h) in
      (q, e, right, same, later)
  | inr (x, e) ↦
      let failed : probe_loop probe_once (suc left) i reference ≡ err x = rw e refl in
      absurd (ground (arith, failed, h))
]

number_equal : (i j : ℕ) → (i == j) ≡ true → i ≡ j
number_equal i j h = (==_iff i j).0 h

probe_loop-some :
    (probe_once : ℕ → Result InstallError Probe) (left i : ℕ) (p : Probe) (o : Option Probe)
    → probe_loop probe_once left i (some p) ≡ ok o
    → (o ≡ some p) × Stable probe_once i left p
unfolding probe_loop Stable changed
probe_loop-some probe_once zero i p o h = (ground (arith, h), λ j a b. absurd (omega arith))
probe_loop-some probe_once (suc left) i p o h =
    let (q, e, right, same, later) = probe_loop-next probe_once left i (some p) o h in
    let equal : p ≡ q = sym (same_probe_sound q p (ground (arith, same))) in
    let (last, rest) = probe_loop-some probe_once left (i + 1) q o later in
    (
      last ∙ ap some (sym equal),
      λ j a b. elim (Bool-cases (i == j)) [
        | inl here ↦ ap probe_once (sym (number_equal i j here)) ∙ e ∙ ap ok (sym equal)
        | inr after ↦ rest j (ground (arith, after)) (omega arith) ∙ ap ok (sym equal)
      ],
    )

-- An accepted reading passes the test for its phase.
abbrev pub Accepts : Bool → Probe → Type 0
Accepts postinstall p =
    (if postinstall then validate_postinstall p else validate_preinstall p) ≡ ok tt

-- Accepting readings: the last step of check_connection.
pub conclude-ok :
    (postinstall : Bool) (q p : Probe)
    → conclude postinstall (some q) ≡ ok p
    → (q ≡ p) × Accepts postinstall q
unfolding conclude
conclude-ok postinstall q p h =
    tested (if postinstall then validate_postinstall q else validate_preinstall q) h
  where
    tested :
        (r : Result InstallError (Unit {0})) → and_then r (λ _. ok q) ≡ ok p → (q ≡ p) × (r ≡ ok tt)
    tested (ok tt) e = (ground (arith, e), refl)
    tested (err x) e = absurd (ground (arith, e))

-- The loop from the start and what is concluded from it.
started :
    (probe_once : ℕ → Result InstallError Probe) (count : ℕ) (postinstall : Bool) (p : Probe)
    (o : Option Probe)
    → probe_loop probe_once count 1 none ≡ ok o
    → conclude postinstall o ≡ ok p
    → (1 ≤ count)
      × Stable probe_once 1 count p
      × (bytes_eq p.signature expected_signature ≡ true)
      × Accepts postinstall p
unfolding probe_loop conclude Stable
started probe_once count postinstall p none e h = absurd (ground (arith, h))
started probe_once zero postinstall p (some r) e h = absurd (ground (arith, e))
started probe_once (suc left) postinstall p (some r) e h =
    let (q, read, right, same, later) = probe_loop-next probe_once left 1 none (some r) e in
    let (last, rest) = probe_loop-some probe_once left 2 q (some r) later in
    let (end, accepted) = conclude-ok postinstall r p h in
    let all : q ≡ p = ground (arith, last, end) in
    (
      omega arith,
      λ j a b. elim (Bool-cases (1 == j)) [
        | inl here ↦ ap probe_once (sym (number_equal 1 j here)) ∙ read ∙ ap ok all
        | inr after ↦ rest j (ground (arith, after)) (omega arith) ∙ ap ok all
      ],
      ap (λ (x : Probe). bytes_eq x.signature expected_signature) (sym all) ∙ right,
      subst (Accepts postinstall) end accepted,
    )

-- If check_connection returns a reading, then at least one probe was made, each of the probes 1
-- to count read exactly that, it has the signature of the ATmega32U4, and its fuses (and after
-- the installation its lock bits) are accepted for the phase.
pub check_connection-Stable :
    (probe_once : ℕ → Result InstallError Probe) (count : ℕ) (postinstall : Bool) (p : Probe)
    → check_connection probe_once count postinstall ≡ ok p
    → (1 ≤ count)
      × Stable probe_once 1 count p
      × (bytes_eq p.signature expected_signature ≡ true)
      × Accepts postinstall p
unfolding check_connection Stable
check_connection-Stable probe_once count postinstall p h =
    elim (result_cases (probe_loop probe_once count 1 none)) [
      | inl (o, e) ↦ started probe_once count postinstall p o e (sym (rw e refl) ∙ h)
      | inr (x, e) ↦
          let failed : check_connection probe_once count postinstall ≡ err x = rw e refl in
          absurd (ground (arith, failed, h))
    ]
