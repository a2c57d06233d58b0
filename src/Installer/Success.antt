-- ===== src/Installer/Success.antt =====
-- tools/bootloader-installer/src/main.cpp: what the success of an operation means.
use p2000t_cartridge_studio.Bytes.{Bytes, bytes_eq}
use p2000t_cartridge_studio.Text.{codes}
use p2000t_cartridge_studio.Effects.{Result, ok, proceed, proceed_ok, thrown_is_not_ok}
use p2000t_cartridge_studio.Installer.Connection.{Accepts, conclude-ok}
use p2000t_cartridge_studio.Installer.{
  validate_preinstall, InstallError, Probe, validate_postinstall, conclude,
}
use p2000t_cartridge_studio.Installer.System.{
  make_work_directory, System, Options, Outcome, conclude_on, check_connection_on, install,
}
use p2000t_cartridge_studio.Installer.Operation.{
  locate, confirm, act, clean_up, operate_checked, operate_in, operate_on, execute_operation,
}
use p2000t_cartridge_studio.Base.{
  ◌∙◌, false, ℕ, ◌≡◌, ap, subst, Bool, true, Option, none, some, if◌then◌else◌,
}

module _ {S D : Type 0} (os : System S D) (factory_image : Bytes) where
  -- What a check of the connection accepts.
  pub check_connection_on-Accepts :
      (options : Options D) (work : Bytes) (count : ℕ) (postinstall : Bool) (s s' : S) (p : Probe)
      → check_connection_on os options work count postinstall s ≡ (ok p, s')
      → Accepts postinstall p
  unfolding check_connection_on conclude_on conclude
  check_connection_on-Accepts options work count postinstall s s' p h =
      let (reference, s₁, e, k) = proceed_ok _ (conclude_on os postinstall) p s' h in
      concluded reference (ap (λ (r : Outcome S Probe). r.0) k)
    where
      concluded :
          (reference : Option Probe) → conclude postinstall reference ≡ ok p → Accepts postinstall p
      concluded none e = absurd (thrown_is_not_ok e)
      concluded (some q) e =
          let (same, accepted) = conclude-ok postinstall q p e in
          subst (Accepts postinstall) same accepted

  -- The steps of a flash that ended well, each on the system that the one before it left: the directory, the
  -- probes before, the installation, the probes after, the removal.
  pub record Prepared (options : Options D) (s s' : S) : Type 0 where
    pub work : Bytes
    pub ready : S
    pub made : make_work_directory os s ≡ (ok work, ready)
    pub fuses : Probe
    pub before : S
    pub checked :
        check_connection_on os options work options.probes false ready ≡ (ok fuses, before)
    pub fuses_fit : validate_preinstall fuses ≡ ok tt
    pub after : S
    pub installed : install os options before ≡ (ok tt, after)
    pub new_fuses : Probe
    pub last : S
    pub confirmed : check_connection_on os options work 3 true after ≡ (ok new_fuses, last)
    pub new_fuses_fit : validate_postinstall new_fuses ≡ ok tt
    pub removed : os.remove_all work last ≡ s'

  -- If execute_operation for a flash ends without an exception, then it made its directory,
  -- checked the connection, installed on the system which that check left, and checked the
  -- connection with three probes on the system which the installation left; that last check
  -- ended without an exception, the fuses and lock bits that it read are those of a prepared
  -- cartridge, and the directory was then removed.
  pub execute_operation_confirmed :
      (options located : Options D) (s s' : S)
      → locate os factory_image options s ≡ ok located
      → bytes_eq located.action (codes "flash") ≡ true
      → execute_operation os factory_image options s ≡ (ok tt, s')
      → Prepared located s s'
  unfolding execute_operation operate_on operate_in operate_checked act confirm clean_up
  execute_operation_confirmed options located s s' found flash h =
      let run =
        subst
          (λ (r : Result InstallError (Options D)).
            proceed (r, s) (operate_on os factory_image) ≡ (ok tt, s'))
          found h in
      let (work, s₁, made, run₁) = proceed_ok _ (operate_in os factory_image located) tt s' run in
      let (fuses, s₂, checked, run₂) =
        proceed_ok _ (operate_checked os factory_image located work) tt s' run₁ in
      let (_, s₅, run₃, cleaned) = proceed_ok _ (clean_up os factory_image work) tt s' run₂ in
      let flashed =
        subst
          (λ (b : Bool).
            (if b
              then proceed (install os located s₂) (confirm os factory_image located work)
              else (ok tt, s₂))
            ≡ (ok tt, s₅))
          flash run₃ in
      let (_, s₃, installed, run₄) =
        proceed_ok _ (confirm os factory_image located work) tt s₅ flashed in
      let (p, s₄, confirmed, ended) =
        proceed_ok (check_connection_on os located work 3 true s₃) _ tt s₅ run₄ in
      record {
        work = work;
        ready = s₁;
        made = made;
        fuses = fuses;
        before = s₂;
        checked = checked;
        fuses_fit =
            check_connection_on-Accepts located work located.probes false s₁ s₂ fuses checked;
        after = s₃;
        installed = installed;
        new_fuses = p;
        last = s₄;
        confirmed = confirmed;
        new_fuses_fit = check_connection_on-Accepts located work 3 true s₃ s₄ p confirmed;
        removed =
            ap (λ (r : Outcome S (Unit {0})). os.remove_all work (r.1)) ended
            ∙ ap (λ (r : Outcome S (Unit {0})). r.1) cleaned;
      }
