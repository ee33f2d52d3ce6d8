-- ===== src/Node/Health.antt =====
-- What an assessment of proxmox_fleet/flows/node.py without an error says of the diagnostic facts.
use proxmox_management.Prelude.{
  Text, Bool, true, false, not, ◌&&◌, ◌≡◌, refl, sym, ap, subst, ◌∙◌, arith, codes, is_empty,
  text_eq, text_eq→≡, if◌then◌else◌,
}
use proxmox_management.Sources.Provenance.{Json}
use proxmox_management.Node.Facts.{Fact, known, refused, Integer, fact_int, fact_bool, fact_text}
use proxmox_management.Node.{is_nil}
use proxmox_management.Node.Dkms.{nvidia_dkms_ready}
use proxmox_management.Node.Diagnostics.{
  no_assessment, give, provided◌then◌, is_zero, is_two, check_kernels, judge_driver, check_driver,
  check_nvidia, unless_two, classify, classify_post_upgrade,
}
use proxmox_management.Node.Verdicts.{
  Tells, Found, is_known, Tells-bind, Tells-error, Tells-give, Tells-if, Tells-map, Tells-reason,
  Tells-refuses, Tells-set, assessed-is_clean, impossible,
}

abbrev pub IsZero : Json → Text → Type 0
IsZero facts key = (n : Integer) × (fact_int facts key ≡ known n) × (is_zero n ≡ true)

module _ (facts : Json) where
  judge_driver-told :
      (kernel : Text) (installed_ok loaded_ok ready smi_ok : Bool) (installed loaded : Text)
      → Tells
          (judge_driver facts true true kernel installed_ok loaded_ok ready smi_ok installed loaded)
          (λ _.
            ((installed_ok && loaded_ok) && (ready && smi_ok) ≡ true)
            × (text_eq installed loaded ≡ true))
  unfolding judge_driver
  judge_driver-told kernel installed_ok loaded_ok ready smi_ok installed loaded =
      Tells-bind _ _ (Tells-refuses (not installed_ok) _) (λ _.
        Tells-bind _ _ (Tells-refuses (not loaded_ok) _) (λ _.
          Tells-bind _ _ (Tells-refuses (not ready) _) (λ _.
            Tells-bind _ _ (Tells-refuses _ _) (λ _.
              Tells-map _ (Tells-refuses (not smi_ok) _) (λ _ h5 h4 h3 h2 h1.
                (ground (arith, h1, h2, h3, h5), ground (arith, h1, h2, h4)))))))

  -- the NVIDIA driver runs on this kernel
  pub record DriverRuns (kernel : Text) : Type 0 where
    pub named : is_empty kernel ≡ false
    pub checked : fact_text facts (codes "nvidia_kernel") ≡ known kernel
    pub version : Text
    pub present : is_empty version ≡ false
    pub is_installed : fact_text facts (codes "nvidia_installed") ≡ known version
    pub is_loaded : fact_text facts (codes "nvidia_loaded") ≡ known version
    pub dkms_status : Text
    pub dkms_read : fact_text facts (codes "nvidia_dkms_status") ≡ known dkms_status
    pub dkms_fits : nvidia_dkms_ready dkms_status kernel ≡ true
    pub modinfo_ended : IsZero facts (codes "nvidia_installed_rc")
    pub module_ended : IsZero facts (codes "nvidia_loaded_rc")
    pub dkms_ended : IsZero facts (codes "nvidia_dkms_rc")
    pub smi_ended : IsZero facts (codes "nvidia_smi_rc")

  runs_from :
      (running kernel installed loaded dkms : Text) (i l d s : Integer)
      → (((is_zero i && not (is_empty installed)) && (is_zero l && not (is_empty loaded)))
          && ((is_zero d && (not (is_empty kernel) && nvidia_dkms_ready dkms kernel)) && is_zero s))
        ≡ true
      → text_eq installed loaded ≡ true
      → fact_text facts (codes "nvidia_dkms_status") ≡ known dkms
      → fact_text facts (codes "nvidia_loaded") ≡ known loaded
      → fact_text facts (codes "nvidia_installed") ≡ known installed
      → fact_int facts (codes "nvidia_smi_rc") ≡ known s
      → fact_int facts (codes "nvidia_dkms_rc") ≡ known d
      → fact_int facts (codes "nvidia_loaded_rc") ≡ known l
      → fact_int facts (codes "nvidia_installed_rc") ≡ known i
      → not (not (is_empty running) && text_eq kernel running) ≡ false
      → fact_text facts (codes "nvidia_kernel") ≡ known kernel
      → DriverRuns running
  runs_from running kernel installed loaded dkms i l d s all agree hd hl hi s0 d0 l0 i0 k read =
      let same = text_eq→≡ kernel running (ground (arith, k)) in
      record {
        named = ground (arith, k);
        checked = read ∙ ap (λ x. known x) same;
        version = installed;
        present = ground (arith, all);
        is_installed = hi;
        is_loaded = hl ∙ ap (λ x. known x) (sym (text_eq→≡ installed loaded agree));
        dkms_status = dkms;
        dkms_read = hd;
        dkms_fits = subst (λ x. nvidia_dkms_ready dkms x ≡ true) same (ground (arith, all));
        modinfo_ended = (i, i0, ground (arith, all));
        module_ended = (l, l0, ground (arith, all));
        dkms_ended = (d, d0, ground (arith, all));
        smi_ended = (s, s0, ground (arith, all));
      }

  check_driver-told :
      (running target kernel : Text)
      → Tells
          (check_driver facts true true running target kernel)
          (λ _. fact_text facts (codes "nvidia_kernel") ≡ known kernel → DriverRuns running)
  unfolding check_driver
  check_driver-told running target kernel = Tells-bind _ _ (Tells-refuses _ _) (λ _.
      Tells-bind _ _ (Tells-give _) (λ i. Tells-bind _ _ (Tells-give _) (λ l.
        Tells-bind _ _ (Tells-give _) (λ d. Tells-bind _ _ (Tells-give _) (λ s.
          Tells-bind _ _ (Tells-give _) (λ installed. Tells-bind _ _ (Tells-give _) (λ loaded.
            Tells-bind _ _ (Tells-give _) (λ dkms. Tells-bind _ _ (Tells-set _) (λ _.
              Tells-map _ (judge_driver-told kernel _ _ _ _ installed loaded)
                (λ _ j _. runs_from running kernel installed loaded dkms i l d s j.0 j.1))))))))))

  abbrev IsChecked : Type 0
  IsChecked = fact_bool facts (codes "nvidia_checked") ≡ known true

  check_nvidia-told :
      (running target : Text)
      → Tells (check_nvidia facts true true running target) (λ _. IsChecked × DriverRuns running)
  unfolding check_nvidia
  check_nvidia-told running target = Tells-bind _ _ (Tells-give _) (λ checked.
      Tells-if checked _ _
        (λ yes.
          Tells-map _
            (Tells-bind {Q = λ _. DriverRuns running} _ _ (Tells-give _)
              (check_driver-told running target))
            (λ _ q read. (read ∙ ap (λ b. known b) yes, q)))
        (λ _. Tells-map _ (Tells-error _) (λ _ q. elim q [ ])))

  abbrev IsMarked : Type 0
  IsMarked = (b : Bool) × (fact_bool facts (codes "reboot_required_exists") ≡ known b)

  check_kernels-told :
      (running target : Text) → Tells (check_kernels facts true true running target) (λ _. IsMarked)
  unfolding check_kernels
  check_kernels-told running target = Tells-bind _ _ (Tells-give _) (λ marked.
      Tells-bind _ _ (Tells-reason marked _)
        (λ _. Tells-map _ (Tells-reason _ _) (λ _ _ _ read. (marked, read))))

  -- a fact that is a text and not empty
  pub record IsNamed (key name : Text) : Type 0 where
    pub read : fact_text facts key ≡ known name
    pub filled : is_empty name ≡ false

  -- the node runs on the kernel of its NVIDIA driver
  pub record IsHealthy : Type 0 where
    pub version : Integer
    pub version_read : fact_int facts (codes "diagnostics_version") ≡ known version
    pub version_two : is_two version ≡ true
    pub running : Text
    pub running_read : IsNamed (codes "running_kernel") running
    pub latest : Text
    pub latest_read : IsNamed (codes "latest_kernel") latest
    pub target : Text
    pub target_read : IsNamed (codes "target_kernel") target
    pub source : Text
    pub source_read : IsNamed (codes "target_kernel_source") source
    pub running_ended : IsZero facts (codes "running_kernel_rc")
    pub latest_ended : IsZero facts (codes "latest_kernel_rc")
    pub target_ended : IsZero facts (codes "target_kernel_rc")
    pub marked : Bool
    pub marked_read : fact_bool facts (codes "reboot_required_exists") ≡ known marked
    pub checked_read : fact_bool facts (codes "nvidia_checked") ≡ known true
    pub driver : DriverRuns running

  unless_two-told : (v : Integer) → Tells (unless_two facts true true v) (λ _. is_two v ≡ true)
  unfolding unless_two
  unless_two-told v = go (is_two v)
    where
      go :
          (b : Bool)
          → Tells
              (if b
                then give (known tt)
                else give (refused (codes "unsupported node diagnostic response version")))
              (λ _. b ≡ true)
      go true = Tells-map _ (Tells-give _) (λ _ _. refl)
      go false = Tells-map _ (Tells-give _) (λ _ q. impossible (ap is_known q))

  classify-told : Tells (classify facts true true) (λ _. IsHealthy)
  unfolding classify
  classify-told = Tells-bind _ _ (Tells-give _) (λ version.
      Tells-bind _ _ (unless_two-told version) (λ _. Tells-bind _ _ (Tells-give _) (λ r.
        Tells-bind _ _ (Tells-give _) (λ l. Tells-bind _ _ (Tells-give _) (λ t.
          Tells-bind _ _ (Tells-give _) (λ running. Tells-bind _ _ (Tells-give _) (λ latest.
            Tells-bind _ _ (Tells-give _) (λ target. Tells-bind _ _ (Tells-give _) (λ source.
              Tells-bind _ _ (Tells-refuses _ _) (λ _. Tells-bind _ _ (Tells-refuses _ _) (λ _.
                Tells-bind _ _ (Tells-refuses _ _) (λ _.
                  Tells-bind _ _ (check_kernels-told running target) (λ _.
                    Tells-map _ (check_nvidia-told running target)
                      (λ _ driver mark t_fits l_fits r_fits source_read target_read latest_read
                          running_read t_read l_read r_read two version_read.
                        record {
                          version = version;
                          version_read = version_read;
                          version_two = two;
                          running = running;
                          running_read = record {
                            read = running_read;
                            filled = ground (arith, r_fits);
                          };
                          latest = latest;
                          latest_read = record {
                            read = latest_read;
                            filled = ground (arith, l_fits);
                          };
                          target = target;
                          target_read = record {
                            read = target_read;
                            filled = ground (arith, t_fits);
                          };
                          source = source;
                          source_read = record {
                            read = source_read;
                            filled = ground (arith, t_fits);
                          };
                          running_ended = (r, r_read, ground (arith, r_fits));
                          latest_ended = (l, l_read, ground (arith, l_fits));
                          target_ended = (t, t_read, ground (arith, t_fits));
                          marked = mark.0;
                          marked_read = mark.1;
                          checked_read = driver.0;
                          driver = driver.1;
                        }))))))))))))))

  -- The diagnostics behind a reboot of an NVIDIA host that yield no error mean that every fact
  -- that the check reads as required could be read, that the response has version 2, that the
  -- probes of the running, the latest and the next-boot kernel ended with 0 and named one, the
  -- next-boot kernel with its source, that the NVIDIA diagnostics were made, and that the driver
  -- runs on the running kernel: its probes were made for that kernel and ended with 0, nvidia-smi
  -- among them, a line of the DKMS status says that an NVIDIA module is installed for that kernel,
  -- and the loaded version is the installed one and not empty.
  pub classify_post_upgrade-IsHealthy :
      is_nil (classify_post_upgrade facts true true).errors ≡ true → IsHealthy
  unfolding classify_post_upgrade
  classify_post_upgrade-IsHealthy h =
      let clean = assessed-is_clean (classify facts true true no_assessment) h in
      found _ ((classify-told).at no_assessment clean).1
    where
      found : (r : Fact (Unit {0})) → Found r (λ _. IsHealthy) → IsHealthy
      found (known x) q = q
      found (refused why) q = elim q [ ]
