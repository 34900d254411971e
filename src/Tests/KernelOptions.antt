-- ===== src/Tests/KernelOptions.antt =====
-- Kernel options of ldfd/build/kernel/config.go.
use ldf.Prelude.{Text, codes, true, [], ◌∷◌, some, ◌≡◌, refl, arith, All}
use ldf.Build.Types.{x86_64}
use ldf.Kernel.Options.{
  Options, lookup, IsUnique, or_else, merge_config_options, lookup-merge_config_options,
}
use ldf.Kernel.Fragment.{generate_config_fragment}
use ldf.Kernel.Parse.{is_key_byte, parse_config_file}
use ldf.Kernel.RoundTrip.{AllEntries, parse-generate}
use ldf.Kernel.Recommended.{DistributionConfig, get_recommended_kernel_options}
use ldf.Kernel.Checked.{recommended-round_trip}

abbrev two_options : Options
two_options = (codes "CONFIG_NET", codes "y") ∷ (codes "CONFIG_LOCALVERSION", codes "-ldf") ∷ []

abbrev one_option : Options
one_option = (codes "CONFIG_NET", codes "n") ∷ []

options_are_maps : IsUnique two_options × IsUnique one_option
unfolding lookup
options_are_maps = ((refl, (refl, tt)), (refl, tt))

lookup-merge_config_options_example :
    (lookup (codes "CONFIG_NET") (merge_config_options two_options one_option)
      ≡ or_else (lookup (codes "CONFIG_NET") one_option) (lookup (codes "CONFIG_NET") two_options))
    × IsUnique (merge_config_options two_options one_option)
lookup-merge_config_options_example =
    lookup-merge_config_options two_options one_option (codes "CONFIG_NET") options_are_maps.0
      options_are_maps.1

key_bytes :
    All (λ c. is_key_byte c ≡ true) (codes "NET")
    × All (λ c. is_key_byte c ≡ true) (codes "LOCALVERSION")
unfolding is_key_byte
key_bytes = (
  (refl, (refl, (refl, tt))),
  (
    refl,
    (refl, (refl, (refl, (refl, (refl, (refl, (refl, (refl, (refl, (refl, (refl, tt))))))))))),
  ),
)

two_options-AllEntries : AllEntries two_options
two_options-AllEntries = (
  record {
    key_ok = record { name = codes "NET"; shape = refl; filled = refl; bytes = key_bytes.0 };
    one_line = omega arith;
  },
  (
    record {
      key_ok = record {
        name = codes "LOCALVERSION";
        shape = refl;
        filled = refl;
        bytes = key_bytes.1;
      };
      one_line = omega arith;
    },
    tt,
  ),
)

parse-generate_example :
    (read : Options) × (parse_config_file (generate_config_fragment two_options) ≡ some read)
    × ((key : Text) → lookup key read ≡ lookup key two_options)
parse-generate_example = parse-generate two_options options_are_maps.0 two_options-AllEntries

abbrev server : DistributionConfig
server = record {
  filesystem_type = codes "XFS";
  init = codes "systemd";
  security_system = codes "selinux";
  virtualization = codes "kvm";
  container = codes "podman";
}

recommended-round_trip_example :
    (read : Options) × (parse_config_file
        (generate_config_fragment (get_recommended_kernel_options (some server) x86_64))
      ≡ some read)
    × ((key : Text)
        → lookup key read ≡ lookup key (get_recommended_kernel_options (some server) x86_64))
recommended-round_trip_example = recommended-round_trip (some server) x86_64
