-- ===== src/Flow/Packages.antt =====
-- proxmox_fleet/flows/_pkg.py, and what vm.py and remote.py share around it. A command is the
-- constructor of `Command` in place of its text.
use proxmox_management.Prelude.{
  ℕ, Text, Bool, true, false, not, ◌&&◌, List, [], ◌∷◌, ◌++◌, Option, none, some, if◌then◌else◌,
  ◌==◌, codes, decimal, is_empty, text_eq, words,
}
use proxmox_management.Flow.{
  Exec, Exn, Env, PrimitiveResult, Payload, PkgMgr, apt, dnf, apk, run_shell, guest, detect_cmd,
  upgrade, reboot_required, reboot, invoke, pure, raise, ◌>>=◌, ◌>>◌, catching, when◌then◌,
}
use proxmox_management.Orchestration.{poll_until}

-- the first word that names a package manager
unfoldable pub first_pkg_mgr : List Text → PkgMgr
first_pkg_mgr [] = apt
first_pkg_mgr (word ∷ rest) =
    if text_eq word (codes "apt")
    then apt
    else if text_eq word (codes "dnf")
    then dnf
    else if text_eq word (codes "apk")
    then apk
    else first_pkg_mgr rest

abbrev pub is_up : Option ℕ → Bool
is_up none = false
is_up (some status) = status == 1

-- bool(beats) and beats[-1].get("status") == 1
unfoldable pub last_is_up : List (Option ℕ) → Bool
last_is_up [] = false
last_is_up (beat ∷ []) = is_up beat
last_is_up (beat ∷ (next ∷ rest)) = last_is_up (next ∷ rest)

unfoldable pub kuma_healthy : Text → Payload → Bool
unfolding last_is_up
kuma_healthy monitor_id payload = last_is_up (payload monitor_id)

abbrev pub runtime_error : Text → Exn
runtime_error message = record {
  type_name = codes "RuntimeError";
  step_name = none;
  message = message;
  is_os_error = false;
}

abbrev pub output_of : PrimitiveResult → Text
output_of r = if is_empty r.stderr then r.stdout else r.stderr

abbrev pub upgrade_failed : PrimitiveResult → Exn
upgrade_failed r =
    runtime_error
      (codes "Package upgrade failed (rc=" ++ (decimal r.rc ++ (codes "): " ++ output_of r)))

-- the monitor of a host, its polls and the seconds between them
pub record Kuma : Type 0 where
  pub kuma_id : Text
  pub kuma_url : Text
  pub retries : ℕ
  pub delay : ℕ

module _ {V : Type 0} (env : Env) where
  unfoldable pub detect_pkg_mgr : Exec V PkgMgr
  detect_pkg_mgr =
      invoke env (run_shell guest detect_cmd) >>= λ res. pure (first_pkg_mgr (words res.stdout))

  unfoldable pub upgrade_packages : Bool → PkgMgr → Exec V PrimitiveResult
  upgrade_packages dry_run pkg_mgr =
      invoke env (run_shell guest (upgrade pkg_mgr dry_run)) >>= λ res.
      if res.failed && not dry_run then raise (upgrade_failed res) else pure res

  unfoldable pub reboot_now : Exec V Bool
  reboot_now = invoke env (reboot 600) >> pure true

  unfoldable pub reboot_if_marked : Exec V Bool
  reboot_if_marked = invoke env (run_shell guest reboot_required) >>= λ check.
      if check.rc == 0 then reboot_now else pure false

  unfoldable pub reboot_if_required : Bool → Exec V Bool
  reboot_if_required wanted = if wanted then reboot_if_marked else pure false

  unfoldable pub check_health : Kuma → Text → Bool → Exec V (Unit {0})
  check_health kuma who wanted =
      when not (is_empty kuma.kuma_id) && (not (is_empty kuma.kuma_url) && wanted)
      then catching (poll_until env (kuma_healthy kuma.kuma_id) kuma.retries kuma.delay >> pure tt)
          (λ e. raise (
            runtime_error
              (codes "Kuma health check failed for " ++ (who ++ (codes ": " ++ e.message)))))
