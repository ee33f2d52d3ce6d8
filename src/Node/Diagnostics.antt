-- ===== src/Node/Diagnostics.antt =====
-- `classify_post_upgrade` of proxmox_fleet/flows/node.py. A ValueError is the text of its message. Of
-- `checks` only the two kernels are kept which the flow reads.
use proxmox_management.Node.Lines.{packages_from}
use proxmox_management.Node.Dkms.{nvidia_dkms_ready}
use proxmox_management.Prelude.{
  Text, Bool, true, false, not, ◌&&◌, ◌||◌, List, [], ◌∷◌, ◌++◌, Option, none, some, if◌then◌else◌,
  codes, is_empty, text_eq, ◌==◌,
}
use proxmox_management.Sources.Provenance.{Json, get, text_of}
use proxmox_management.Node.Facts.{
  Fact, known, refused, Integer, whole, below_zero, fact_int, fact_bool, fact_text,
}

pub record Kernels : Type 0 where
  pub running_kernel : Text
  pub target_kernel : Text

-- PostUpgradeAssessment
pub record Assessment : Type 0 where
  pub reboot_reasons : List Text
  pub errors : List Text
  pub warnings : List Text
  pub checks : Option Kernels

abbrev pub no_assessment : Assessment
no_assessment = record { reboot_reasons = []; errors = []; warnings = []; checks = none }

abbrev pub is_zero : Integer → Bool
is_zero (whole n) = n == 0
is_zero below_zero = false

abbrev pub is_two : Integer → Bool
is_two (whole n) = n == 2
is_two below_zero = false

unfoldable pub join_with : Text → List Text → Text
join_with sep [] = []
join_with sep (a ∷ []) = a
join_with sep (a ∷ (b ∷ rest)) = a ++ (sep ++ join_with sep (b ∷ rest))

abbrev pub in_brackets : List Text → Text
in_brackets [] = []
in_brackets (p ∷ packages) = codes " (" ++ (join_with (codes ", ") (p ∷ packages) ++ codes ")")

-- a computation on the assessment that a ValueError ends
abbrev pub Check : Type 0 → Type 0
Check A = Assessment → Fact A × Assessment

module _ {A : Type 0} where
  unfoldable pub give : Fact A → Check A
  give f a = (f, a)

module _ {A B : Type 0} where
  abbrev pub go_on : Fact A → (A → Check B) → Check B
  go_on (known x) f a = f x a
  go_on (refused why) f a = (refused why, a)

  infixl 10 ◌>>=◌
  unfoldable pub ◌>>=◌ : Check A → (A → Check B) → Check B
  ◌>>=◌ m f a = let (r, a') = m a in go_on r f a'

abbrev pub add_error : Text → Check (Unit {0})
add_error why a = (known tt, record a { errors = a.errors ++ (why ∷ []) })

abbrev pub add_reason : Text → Check (Unit {0})
add_reason why a = (known tt, record a { reboot_reasons = a.reboot_reasons ++ (why ∷ []) })

abbrev pub add_warning : Text → Check (Unit {0})
add_warning why a = (known tt, record a { warnings = a.warnings ++ (why ∷ []) })

abbrev pub set_checks : Kernels → Check (Unit {0})
set_checks kernels a = (known tt, record a { checks = some kernels })

infix 1 provided◌then◌
abbrev pub provided◌then◌ : Bool → Check (Unit {0}) → Check (Unit {0})
provided true then m = m
provided false then m = give (known tt)

abbrev pub or_unknown : Text → Text
or_unknown s = if is_empty s then codes "?" else s

-- the handler
abbrev pub assessed : Fact (Unit {0}) × Assessment → Assessment
assessed (known _, a) = a
assessed (refused why, a) = record a { errors = a.errors ++ (why ∷ []) }

module _ (facts : Json) (nvidia_host after_reboot : Bool) where
  -- the part about the kernels
  unfoldable pub check_kernels : Text → Text → Check (Unit {0})
  check_kernels running target =
      give (fact_bool facts (codes "reboot_required_exists")) >>= λ marked.
      (provided marked
        then add_reason (
            codes "reboot-required marker present"
            ++ in_brackets
                (packages_from [] (text_of (get facts (codes "reboot_required_packages"))))))
      >>= λ _.
          (provided not (is_empty running)
              && (not (is_empty target) && not (text_eq running target))
            then add_reason (codes "kernel update: " ++ (running ++ (codes " → " ++ target))))

  -- the verdicts on the NVIDIA driver
  unfoldable pub judge_driver : Text → Bool → Bool → Bool → Bool → Text → Text → Check (Unit {0})
  judge_driver nvidia_kernel installed_ok loaded_ok ready smi_ok installed loaded =
      let mismatch = installed_ok && (loaded_ok && not (text_eq installed loaded)) in
      (provided not installed_ok
        then add_error (
            codes "NVIDIA driver modules not found for kernel "
            ++ (or_unknown nvidia_kernel ++ codes " (modinfo failed)")))
      >>= λ _.
          (provided not loaded_ok then add_error (codes "NVIDIA module is not loaded")) >>= λ _.
          (provided not ready
            then add_error (
                codes "NVIDIA DKMS module is not installed for kernel "
                ++ or_unknown nvidia_kernel))
          >>= λ _.
              (provided mismatch
                then (if after_reboot
                    then add_error
                        (codes "NVIDIA module mismatch after reboot: loaded "
                          ++ (loaded ++ (codes ", installed " ++ installed)))
                        else add_reason
                        (codes "NVIDIA module mismatch: loaded "
                          ++ (loaded ++ (codes ", target " ++ installed)))))
              >>= λ _.
                  (provided not smi_ok
                    then (if after_reboot
                        then add_error (codes "nvidia-smi failed after reboot") else (
                            provided not mismatch && (installed_ok && (loaded_ok && ready))
                            then add_warning (codes "nvidia-smi failed after update"))))

  unfoldable pub check_driver : Text → Text → Text → Check (Unit {0})
  check_driver running target nvidia_kernel =
      let expected = if after_reboot then running else target in
      (provided not (not (is_empty expected) && text_eq nvidia_kernel expected)
        then add_error (
            codes "NVIDIA diagnostics checked kernel "
            ++ (or_unknown nvidia_kernel ++ (codes ", expected " ++ or_unknown expected))))
      >>= λ _. give (fact_int facts (codes "nvidia_installed_rc")) >>= λ installed_rc.
          give (fact_int facts (codes "nvidia_loaded_rc")) >>= λ loaded_rc.
          give (fact_int facts (codes "nvidia_dkms_rc")) >>= λ dkms_rc.
          give (fact_int facts (codes "nvidia_smi_rc")) >>= λ smi_rc.
          give (fact_text facts (codes "nvidia_installed")) >>= λ installed.
          give (fact_text facts (codes "nvidia_loaded")) >>= λ loaded.
          give (fact_text facts (codes "nvidia_dkms_status")) >>= λ dkms_status.
          set_checks (record { running_kernel = running; target_kernel = target }) >>= λ _.
          judge_driver nvidia_kernel (is_zero installed_rc && not (is_empty installed))
            (is_zero loaded_rc && not (is_empty loaded))
            (is_zero dkms_rc
              && (not (is_empty nvidia_kernel) && nvidia_dkms_ready dkms_status nvidia_kernel))
            (is_zero smi_rc) installed loaded

  -- the part for an NVIDIA host
  unfoldable pub check_nvidia : Text → Text → Check (Unit {0})
  check_nvidia running target = give (fact_bool facts (codes "nvidia_checked")) >>= λ checked.
      if checked
      then (give (fact_text facts (codes "nvidia_kernel")) >>= check_driver running target) else
          add_error (codes "NVIDIA diagnostics were skipped on an NVIDIA host")

  unfoldable pub unless_two : Integer → Check (Unit {0})
  unless_two version =
      if is_two version
      then give (known tt) else give
          (refused (codes "unsupported node diagnostic response version"))

  -- the body of `try`
  unfoldable pub classify : Check (Unit {0})
  classify = give (fact_int facts (codes "diagnostics_version")) >>= λ version.
      unless_two version >>= λ _.
      give (fact_int facts (codes "running_kernel_rc")) >>= λ running_rc.
      give (fact_int facts (codes "latest_kernel_rc")) >>= λ latest_rc.
      give (fact_int facts (codes "target_kernel_rc")) >>= λ target_rc.
      give (fact_text facts (codes "running_kernel")) >>= λ running.
      give (fact_text facts (codes "latest_kernel")) >>= λ latest.
      give (fact_text facts (codes "target_kernel")) >>= λ target.
      give (fact_text facts (codes "target_kernel_source")) >>= λ target_source.
      (provided not (is_zero running_rc) || is_empty running
        then add_error (codes "could not determine running kernel"))
      >>= λ _.
          (provided not (is_zero latest_rc) || is_empty latest
            then add_error (codes "could not determine latest installed kernel"))
          >>= λ _.
              (provided not (is_zero target_rc) || (is_empty target || is_empty target_source)
                then add_error (codes "could not determine configured next-boot kernel"))
              >>= λ _. check_kernels running target >>= λ _.
                  provided nvidia_host then check_nvidia running target

  unfoldable pub classify_post_upgrade : Assessment
  unfolding classify
  classify_post_upgrade = assessed (classify no_assessment)
