-- ===== src/Select/Versions.antt =====
-- Where ldfd/download/manager.go and ldfd/build/stages/resolve.go read the same version from a
-- distribution's configuration.
use ldf.Prelude.{
  suc, ◌≤◌, Text, codes, text_eq, text_eq_iff, Bool, true, false, if◌then◌else◌, ◌&&◌, ◌||◌, [],
  ◌∷◌, Option, none, some, ◌≡◌, refl, ap, arith, contains, to_lower, has_prefix, length,
}
use ldf.Select.{DesktopConfig, DistributionConfig}
use ldf.Select.Manager
use ldf.Select.Stage

has_prefix_self : (s : Text) → has_prefix s s ≡ true
unfolding has_prefix
has_prefix_self [] = refl
has_prefix_self (c ∷ s) = ground (arith, has_prefix_self s)

has_prefix-length : (s t : Text) → has_prefix s t ≡ true → length t ≤ length s
unfolding has_prefix
has_prefix-length s [] h = omega arith
has_prefix-length [] (b ∷ t) h = cc
has_prefix-length (a ∷ s) (b ∷ t) h = ground (arith, has_prefix-length s t)

contains-length : (s t : Text) → contains s t ≡ true → length t ≤ length s
unfolding contains
contains-length [] t h = has_prefix-length [] t h
contains-length (a ∷ s) t h = ground (arith, has_prefix-length (a ∷ s) t, contains-length s t)

length-to_lower : (s : Text) → length (to_lower s) ≡ length s
unfolding to_lower
length-to_lower [] = refl
length-to_lower (c ∷ s) = ap suc (length-to_lower s)

contains_self : (s : Text) → contains s s ≡ true
unfolding contains
contains_self [] = has_prefix_self []
contains_self (c ∷ s) = ground (arith, has_prefix_self (c ∷ s))

contains_of_text_eq : (s t : Text) → text_eq s t ≡ true → contains (to_lower s) (to_lower t) ≡ true
contains_of_text_eq s t h = rw ((text_eq_iff s t).0 h) (contains_self (to_lower t))

contains-to_lower-length :
    (s t : Text) → contains (to_lower s) (to_lower t) ≡ true → length t ≤ length s
contains-to_lower-length s t h =
    rw (length-to_lower s, length-to_lower t) at (contains-length (to_lower s) (to_lower t) h)

-- Both tests for a configured name are the same.
names-same :
    (name configured : Text)
    → Manager.names name configured ≡ Stage.names (to_lower name) configured
unfolding Manager.names Stage.names Manager.contains_ignore_case
names-same name configured =
    ground (arith, contains_of_text_eq name configured, contains-to_lower-length name configured)

desktop_override-same :
    (name : Text) (desktop : Option DesktopConfig)
    → Manager.desktop_override name desktop ≡ Stage.desktop_override (to_lower name) desktop
unfolding Manager.desktop_override Stage.desktop_override
desktop_override-same name none = refl
desktop_override-same name (some desktop) =
    rw (names-same name desktop.environment, names-same name desktop.display_server) refl

-- A test may stand behind two others that do not hold with it.
later :
    (a b c : Bool) (x y z w : Text)
    → (a && (b || c)) ≡ false
    → (if a then x else if b then y else if c then z else w)
      ≡ (if b then y else if c then z else if a then x else w)
later true true c x y z w h = cc
later true false true x y z w h = cc
later true false false x y z w h = refl
later false b c x y z w h = ground arith

-- The manager and the resolve stage read the same version from the configuration, if the name has
-- "kernel" in it only by being "kernel" and if it does not have the security system in it together with
-- the container runtime or the virtualization.
pub get_distribution_version_override-agree :
    (config : DistributionConfig) (name : Text)
    → text_eq name (codes "kernel") ≡ contains (to_lower name) (codes "kernel")
    → (Manager.names name config.security.system
        && (Manager.names name config.runtime.container
            || Manager.names name config.runtime.virtualization))
      ≡ false
    → Manager.get_distribution_version_override config name
      ≡ Stage.get_distribution_version_override config name
unfolding Manager.get_distribution_version_override Stage.get_distribution_version_override
get_distribution_version_override-agree config name kernel apart =
    let lower = to_lower name in
    let apart' =
      rw
        (
          names-same name config.security.system,
          names-same name config.runtime.container,
          names-same name config.runtime.virtualization,
        )
        at apart in
    rw
      (
        kernel,
        names-same name config.core.bootloader,
        names-same name config.system.init,
        names-same name config.system.filesystem_type,
        names-same name config.system.package_manager,
        names-same name config.security.system,
        names-same name config.runtime.container,
        names-same name config.runtime.virtualization,
        desktop_override-same name config.target.desktop,
        later (Stage.names lower config.security.system)
            (Stage.names lower config.runtime.container)
            (Stage.names lower config.runtime.virtualization) config.security.system_version
            config.runtime.container_version config.runtime.virtualization_version
            (Stage.desktop_override lower config.target.desktop) apart',
      )
      refl
