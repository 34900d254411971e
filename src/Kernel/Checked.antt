-- ===== src/Kernel/Checked.antt =====
-- The recommended options (ldfd/build/kernel/config.go) are a map that the fragment format can carry.
use ldf.Prelude.{
  Text, codes, text_eq, text_eq_sound, to_lower, is_nil, Bool, Bool-cases, inl, inr, true, false,
  ◌&&◌, ◌==◌, drop, if◌then◌else◌, [], ◌∷◌, ◌++◌, Option, none, some, ◌≡◌, refl, arith, All, all,
}
use ldf.Build.Types.{TargetArch, x86_64, aarch64, other_arch}
use ldf.Kernel.Options.{Options, lookup, set_option, set_all, IsUnique, set_all-IsUnique}
use ldf.Kernel.Fragment.{generate_config_fragment}
use ldf.Kernel.Parse.{is_key_byte, config_prefix, parse_config_file}
use ldf.Kernel.Shapes.{IsEntry, NoNewline}
use ldf.Kernel.RoundTrip.{AllEntries, parse-generate}
use ldf.Kernel.Recommended.{
  DistributionConfig, filesystem_options, init_options, security_options, kvm_options_for,
  virtualization_options, container_options, recommended_assignments,
  get_recommended_kernel_options, basic_options, common_filesystem_options, network_block_options,
}

-- The test of an entry: what stands behind the prefix, and the value.
unfoldable is_entry : Text → Text → Bool
unfolding text_eq is_key_byte
is_entry key value =
    text_eq key (config_prefix ++ drop 7 key)
    && ((if is_nil (drop 7 key) then false else true)
        && (all is_key_byte (drop 7 key) && all (λ c. if c == 10 then false else true) value))

unfoldable are_entries : Options → Bool
unfolding is_entry
are_entries [] = true
are_entries ((k, v) ∷ m) = is_entry k v && are_entries m

all-key_byte : (s : Text) → all is_key_byte s ≡ true → All (λ c. is_key_byte c ≡ true) s
all-key_byte [] h = tt
all-key_byte (c ∷ s) h = ground (arith, all-key_byte s)

all-NoNewline : (s : Text) → all (λ c. if c == 10 then false else true) s ≡ true → NoNewline s
all-NoNewline [] h = tt
all-NoNewline (c ∷ s) h = ground (arith, all-NoNewline s)

is_entry-IsEntry : (key value : Text) → is_entry key value ≡ true → IsEntry key value
unfolding is_entry
is_entry-IsEntry key value h = record {
  key_ok = record {
    name = drop 7 key;
    shape = text_eq_sound key (config_prefix ++ drop 7 key) (ground arith);
    filled = ground arith;
    bytes = all-key_byte (drop 7 key) (ground arith);
  };
  one_line = all-NoNewline value (ground arith);
}

are_entries-AllEntries : (m : Options) → are_entries m ≡ true → AllEntries m
unfolding are_entries
are_entries-AllEntries [] h = tt
are_entries-AllEntries ((k, v) ∷ m) h =
    (is_entry-IsEntry k v (ground arith), are_entries-AllEntries m (ground arith))

are_entries-append :
    (m n : Options) → are_entries m ≡ true → are_entries n ≡ true → are_entries (m ++ n) ≡ true
unfolding are_entries
are_entries-append [] n h k = k
are_entries-append ((j, v) ∷ m) n h k = ground (arith, are_entries-append m n)

set_option-AllEntries :
    (k v : Text) (m : Options) → IsEntry k v → AllEntries m → AllEntries (set_option k v m)
unfolding set_option
set_option-AllEntries k v [] e h = (e, tt)
set_option-AllEntries k v ((j, w) ∷ m) e h = elim (Bool-cases (text_eq k j)) [
  | inl same ↦ rw (same, set_option) (e, h.1)
  | inr other ↦ rw (other, set_option) (h.0, set_option-AllEntries k v m e h.1)
]

set_all-AllEntries :
    (entries m : Options) → AllEntries entries → AllEntries m → AllEntries (set_all entries m)
unfolding set_all
set_all-AllEntries [] m h k = k
set_all-AllEntries ((j, v) ∷ entries) m h k =
    set_all-AllEntries entries (set_option j v m) h.1 (set_option-AllEntries j v m h.0 k)

pick :
    (b : Bool) (m n : Options)
    → are_entries m ≡ true
    → are_entries n ≡ true
    → are_entries (if b then m else n) ≡ true
pick true m n h k = h
pick false m n h k = k

filesystem_ok : (name : Text) → are_entries (filesystem_options name) ≡ true
unfolding filesystem_options are_entries
filesystem_ok name = pick (text_eq name (codes "ext4")) _ _ refl (
    pick (text_eq name (codes "xfs")) _ _ refl (
      pick (text_eq name (codes "btrfs")) _ _ refl
        (pick (text_eq name (codes "f2fs")) _ _ refl refl)))

init_ok : (name : Text) → are_entries (init_options name) ≡ true
unfolding init_options are_entries
init_ok name =
    pick (text_eq name (codes "systemd")) _ _ refl
      (pick (text_eq name (codes "openrc")) _ _ refl refl)

security_ok : (name : Text) → are_entries (security_options name) ≡ true
unfolding security_options are_entries
security_ok name =
    pick (text_eq name (codes "selinux")) _ _ refl
      (pick (text_eq name (codes "apparmor")) _ _ refl refl)

kvm_ok : (arch : TargetArch) → are_entries (kvm_options_for arch) ≡ true
unfolding kvm_options_for are_entries
kvm_ok x86_64 = refl
kvm_ok aarch64 = refl
kvm_ok (other_arch name) = refl

virtualization_ok :
    (name : Text) (arch : TargetArch) → are_entries (virtualization_options name arch) ≡ true
unfolding virtualization_options are_entries
virtualization_ok name arch = pick (text_eq name (codes "kvm")) _ _ (kvm_ok arch) refl

container_ok : (name : Text) → are_entries (container_options name) ≡ true
unfolding container_options are_entries
container_ok name = pick (is_nil name) _ _ refl refl

constant_ok :
    (are_entries basic_options ≡ true)
    × (are_entries common_filesystem_options ≡ true)
    × (are_entries network_block_options ≡ true)
unfolding are_entries
constant_ok = (refl, refl, refl)

assignments_ok :
    (c : DistributionConfig) (arch : TargetArch)
    → are_entries (recommended_assignments c arch) ≡ true
unfolding recommended_assignments
assignments_ok c arch = are_entries-append basic_options _ constant_ok.0 (
    are_entries-append (filesystem_options (to_lower c.filesystem_type)) _
      (filesystem_ok (to_lower c.filesystem_type))
      (are_entries-append common_filesystem_options _ constant_ok.1 (
        are_entries-append (init_options (to_lower c.init)) _ (init_ok (to_lower c.init)) (
          are_entries-append (security_options (to_lower c.security_system)) _
            (security_ok (to_lower c.security_system))
            (are_entries-append (virtualization_options (to_lower c.virtualization) arch) _
              (virtualization_ok (to_lower c.virtualization) arch)
              (are_entries-append (container_options c.container) _ (container_ok c.container)
                constant_ok.2))))))

recommended-fit :
    (c : Option DistributionConfig) (arch : TargetArch)
    → IsUnique (get_recommended_kernel_options c arch)
      × AllEntries (get_recommended_kernel_options c arch)
unfolding get_recommended_kernel_options
recommended-fit none arch = (tt, tt)
recommended-fit (some c) arch =
    let entries = recommended_assignments c arch in
    (
      set_all-IsUnique entries [] tt,
      set_all-AllEntries entries [] (are_entries-AllEntries entries (assignments_ok c arch)) tt,
    )

-- For every configuration of a distribution and every architecture, the fragment that is generated from
-- the recommended options is read without a panic, and every option has its recommended value back.
pub recommended-round_trip :
    (c : Option DistributionConfig) (arch : TargetArch)
    → (read : Options) × (parse_config_file
          (generate_config_fragment (get_recommended_kernel_options c arch))
        ≡ some read)
      × ((key : Text) → lookup key read ≡ lookup key (get_recommended_kernel_options c arch))
recommended-round_trip c arch =
    parse-generate (get_recommended_kernel_options c arch) (recommended-fit c arch).0
      (recommended-fit c arch).1
