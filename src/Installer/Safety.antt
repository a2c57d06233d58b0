-- ===== src/Installer/Safety.antt =====
-- tools/bootloader-installer/src/main.cpp: when the microcontroller is written, and what a success means.
use p2000t_cartridge_studio.Bytes.{Bytes, bytes_eq}
use p2000t_cartridge_studio.Text.{codes}
use p2000t_cartridge_studio.Effects.{Result, ok, err, proceed, proceed_both, proceed_kept}
use p2000t_cartridge_studio.Installer.Connection.{result_cases}
use p2000t_cartridge_studio.Installer.{
  InstallError, wrong_target, readings_changed, Probe, validate_preinstall, changed,
  expected_signature,
}
use p2000t_cartridge_studio.Installer.Success.{check_connection_on-Accepts}
use p2000t_cartridge_studio.Installer.System.{
  System, Options, Outcome, make_work_directory, common_arguments, probe_arguments, probe_reads,
  probe_once, compare_probe, probes_on, conclude_on, check_connection_on, validate_image_file,
  write_flash, install,
}
use p2000t_cartridge_studio.Installer.Operation.{
  locate, confirm, act, clean_up, operate_checked, operate_in, operate_on, execute_operation,
}
use p2000t_cartridge_studio.Base.{
  ℕ, zero, suc, ◌+◌, ◌≡◌, refl, sym, subst, ◌⊎◌, inl, inr, Bool, true, false, not, ◌||◌, Option,
  none, some, List, [], ◌∷◌, ◌++◌, if_both,
}

-- Whether a word is among the arguments.
abbrev pub among : Bytes → List Bytes → Bool
among word [] = false
among word (x ∷ xs) = bytes_eq word x || among word xs

or_right : (b c : Bool) → c ≡ true → b || c ≡ true
or_right true c h = refl
or_right false c h = h

among_right :
    (word : Bytes) (xs ys : List Bytes) → among word ys ≡ true → among word (xs ++ ys) ≡ true
among_right word [] ys h = h
among_right word (x ∷ xs) ys h = or_right (bytes_eq word x) _ (among_right word xs ys h)

module _ {S D : Type 0} (os : System S D) (factory_image : Bytes) where
  probe_arguments_read_only :
      (options : Options D) (prefix : Bytes)
      → among (codes "-n") (probe_arguments os options prefix) ≡ true
  unfolding probe_arguments bytes_eq
  probe_arguments_read_only options prefix =
      among_right (codes "-n") (common_arguments os options) (codes "-n" ∷ probe_reads os prefix)
        refl

  -- A property of systems that nothing but a writing run of AVRDUDE ends.
  pub record Kept (Inv : S → Type 0) : Type 0 where
    pub spawn_kept :
        (path : Bytes) (arguments : List Bytes) (s : S)
        → among (codes "-n") arguments ≡ true
        → Inv s
        → Inv (os.spawn path arguments s).1
    pub create_kept : (path : Bytes) (s : S) → Inv s → Inv (os.create_directory path s).1
    pub remove_kept : (path : Bytes) (s : S) → Inv s → Inv (os.remove_all path s)

  module _ (Inv : S → Type 0) (kept : Kept Inv) where
    probe_once_kept :
        (options : Options D) (directory : Bytes) (index : ℕ) (s : S)
        → Inv s
        → Inv (probe_once os options directory index s).1
    unfolding probe_once
    probe_once_kept options directory index s h =
        let prefix = os.join directory (codes "probe-" ++ os.number_text index) in
        kept.spawn_kept options.avrdude (probe_arguments os options prefix) s
          (probe_arguments_read_only options prefix) h

    compare_probe_kept :
        (reference : Option Probe) (current : Probe) (s : S) (later : Outcome S (Option Probe))
        → Inv s
        → Inv (later.1)
        → Inv (compare_probe os reference current s later).1
    unfolding compare_probe
    compare_probe_kept reference current s later h k =
        let result = λ (r : Outcome S (Option Probe)). Inv (r.1) in
        if_both result (not (bytes_eq current.signature expected_signature)) (err wrong_target, s) _
          (λ e. h)
          (λ e.
            if_both result (changed reference current) (err readings_changed, s) later (λ e. h)
              (λ e. k))

    probes_on_kept :
        (options : Options D) (directory : Bytes) (left i : ℕ) (reference : Option Probe) (s : S)
        → Inv s
        → Inv (probes_on os options directory left i reference s).1
    unfolding probes_on
    probes_on_kept options directory zero i reference s h = h
    probes_on_kept options directory (suc left) i reference s h =
        let later = probes_on os options directory left (i + 1) in
        proceed_kept Inv (probe_once os options directory i s)
          (λ (current : Probe) (s' : S).
            compare_probe os reference current s' (later (some current) s'))
          (probe_once_kept options directory i s h)
          (λ current s' h'.
            compare_probe_kept reference current s' (later (some current) s') h'
              (probes_on_kept options directory left (i + 1) (some current) s' h'))

    check_connection_on_kept :
        (options : Options D) (directory : Bytes) (count : ℕ) (postinstall : Bool) (s : S)
        → Inv s
        → Inv (check_connection_on os options directory count postinstall s).1
    unfolding check_connection_on conclude_on
    check_connection_on_kept options directory count postinstall s h =
        proceed_kept Inv (probes_on os options directory count 1 none s)
          (conclude_on os postinstall) (probes_on_kept options directory count 1 none s h)
          (λ reference s' h'. h')

    -- What has happened when the invariant does not hold: in the directory made, the probes before the
    -- installation ended without an exception, and on the system that they left, where the invariant still
    -- held, the image was accepted.
    pub record Written (options : Options D) (s : S) : Type 0 where
      pub asked : bytes_eq options.action (codes "flash") ≡ true
      pub work : Bytes
      pub ready : S
      pub made : make_work_directory os s ≡ (ok work, ready)
      pub fuses : Probe
      pub before : S
      pub checked :
          check_connection_on os options work options.probes false ready ≡ (ok fuses, before)
      pub fuses_fit : validate_preinstall fuses ≡ ok tt
      pub before_kept : Inv before
      pub image : validate_image_file os options.image before ≡ ok tt

    abbrev pub KeptOrWritten : Options D → S → Outcome S (Unit {0}) → Type 0
    KeptOrWritten options s r = Inv (r.1) ⊎ Written options s

    act_safe :
        (options : Options D) (work : Bytes) (fuses : Probe) (start ready s : S)
        → make_work_directory os start ≡ (ok work, ready)
        → check_connection_on os options work options.probes false ready ≡ (ok fuses, s)
        → Inv s
        → KeptOrWritten options start (act os factory_image options work s)
    unfolding act install
    act_safe options work fuses start ready s made checked h =
        if_both (KeptOrWritten options start) (bytes_eq options.action (codes "flash")) _ (ok tt, s)
          (λ flash. elim (result_cases (validate_image_file os options.image s)) [
            | inl (_, e) ↦ inr (record {
              asked = flash;
              work = work;
              ready = ready;
              made = made;
              fuses = fuses;
              before = s;
              checked = checked;
              fuses_fit =
                  check_connection_on-Accepts os factory_image options work options.probes false
                    ready s fuses checked;
              before_kept = h;
              image = e;
            })
            | inr (x, e) ↦ inl (
                subst
                  (λ (v : Result InstallError (Unit {0})).
                    Inv
                      (proceed (proceed (v, s) (write_flash os options))
                        (confirm os factory_image options work)).1)
                  (sym e) h)
          ])
          (λ check. inl h)

    safe_then :
        {A : Type 0} (options : Options D) (start : S) (r : Outcome S A)
        (f : A → S → Outcome S (Unit {0}))
        → Inv (r.1) ⊎ Written options start
        → ((a : A) (s : S) → Inv s → Inv (f a s).1)
        → KeptOrWritten options start (proceed r f)
    safe_then options start r f (inl h) k = inl (proceed_kept Inv r f h k)
    safe_then options start r f (inr w) k = inr w

    operate_in_safe :
        (options : Options D) (work : Bytes) (start s : S)
        → make_work_directory os start ≡ (ok work, s)
        → Inv s
        → KeptOrWritten options start (operate_in os factory_image options work s)
    unfolding operate_in operate_checked clean_up
    operate_in_safe options work start s made h =
        let r = check_connection_on os options work options.probes false s in
        let kept_after = check_connection_on_kept options work options.probes false s h in
        proceed_both (KeptOrWritten options start) r (operate_checked os factory_image options work)
          (λ fuses s₁ e.
            safe_then options start (act os factory_image options work s₁)
              (clean_up os factory_image work)
              (act_safe options work fuses start s s₁ made e
                (subst (λ (x : Outcome S Probe). Inv (x.1)) e kept_after))
              (λ _ s₂ h₂. kept.remove_kept work s₂ h₂))
          (λ x s₁ e. inl (subst (λ (x : Outcome S Probe). Inv (x.1)) e kept_after))

    operate_on_safe :
        (options : Options D) (s : S)
        → Inv s
        → KeptOrWritten options s (operate_on os factory_image options s)
    unfolding operate_on make_work_directory
    operate_on_safe options s h =
        let made = kept.create_kept _ s h in
        proceed_both (KeptOrWritten options s) (make_work_directory os s)
          (operate_in os factory_image options)
          (λ work s₁ e.
            operate_in_safe options work s s₁ e (subst (λ (x : Outcome S Bytes). Inv (x.1)) e made))
          (λ x s₁ e. inl (subst (λ (x : Outcome S Bytes). Inv (x.1)) e made))

    -- A property of the system that directories and runs of AVRDUDE with -n keep still holds
    -- after execute_operation, unless a flash was asked for, the check of the connection
    -- before it, in the directory just made, ended with the fuses of a cartridge that may be
    -- prepared, and the image file was accepted on the system that this check left, where the
    -- property still held.
    pub execute_operation_safe :
        (options : Options D) (s : S)
        → Inv s
        → Inv (execute_operation os factory_image options s).1
          ⊎ ((located : Options D) × (locate os factory_image options s ≡ ok located)
              × Written located s)
    unfolding execute_operation
    execute_operation_safe options s h = elim (result_cases (locate os factory_image options s)) [
      | inl (located, e) ↦ elim (operate_on_safe located s h) [
        | inl k ↦ inl (
            subst
              (λ (r : Result InstallError (Options D)).
                Inv (proceed (r, s) (operate_on os factory_image)).1)
              (sym e) k)
        | inr w ↦ inr (located, e, w)
      ]
      | inr (x, e) ↦ inl (
          subst
            (λ (r : Result InstallError (Options D)).
              Inv (proceed (r, s) (operate_on os factory_image)).1)
            (sym e) h)
    ]
