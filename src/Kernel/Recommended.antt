-- ===== src/Kernel/Recommended.antt =====
-- `GetRecommendedKernelOptions` of ldfd/build/kernel/config.go. Each run of assignments between two
-- tests of the source is a list, written into the map in the source's order.
use ldf.Prelude.{
  Text, codes, text_eq, to_lower, is_nil, if◌then◌else◌, [], ◌∷◌, ◌++◌, Option, none, some,
}
use ldf.Build.Types.{TargetArch, x86_64, aarch64, other_arch}
use ldf.Kernel.Options.{Options, set_all}

-- The fields of the distribution's configuration that the options depend on.
pub record DistributionConfig : Type 0 where
  pub filesystem_type : Text
  pub init : Text
  pub security_system : Text
  pub virtualization : Text
  pub container : Text

abbrev pub basic_options : Options
basic_options =
    (codes "CONFIG_PRINTK", codes "y")
    ∷ (codes "CONFIG_BUG", codes "y")
    ∷ (codes "CONFIG_ELF_CORE", codes "y")
    ∷ (codes "CONFIG_PROC_FS", codes "y")
    ∷ (codes "CONFIG_SYSFS", codes "y")
    ∷ (codes "CONFIG_TMPFS", codes "y")
    ∷ (codes "CONFIG_DEVTMPFS", codes "y")
    ∷ (codes "CONFIG_DEVTMPFS_MOUNT", codes "y")
    ∷ []

abbrev pub ext4_options : Options
ext4_options =
    (codes "CONFIG_EXT4_FS", codes "y") ∷ (codes "CONFIG_EXT4_USE_FOR_EXT2", codes "y") ∷ []

abbrev pub xfs_options : Options
xfs_options = (codes "CONFIG_XFS_FS", codes "y") ∷ []

abbrev pub btrfs_options : Options
btrfs_options = (codes "CONFIG_BTRFS_FS", codes "y") ∷ []

abbrev pub f2fs_options : Options
f2fs_options = (codes "CONFIG_F2FS_FS", codes "y") ∷ []

abbrev pub common_filesystem_options : Options
common_filesystem_options =
    (codes "CONFIG_VFAT_FS", codes "y")
    ∷ (codes "CONFIG_FAT_FS", codes "y")
    ∷ (codes "CONFIG_MSDOS_FS", codes "y")
    ∷ (codes "CONFIG_ISO9660_FS", codes "m")
    ∷ []

abbrev pub systemd_options : Options
systemd_options =
    (codes "CONFIG_CGROUPS", codes "y")
    ∷ (codes "CONFIG_CGROUP_SCHED", codes "y")
    ∷ (codes "CONFIG_CGROUP_PIDS", codes "y")
    ∷ (codes "CONFIG_CGROUP_FREEZER", codes "y")
    ∷ (codes "CONFIG_CPUSETS", codes "y")
    ∷ (codes "CONFIG_MEMCG", codes "y")
    ∷ (codes "CONFIG_NAMESPACES", codes "y")
    ∷ (codes "CONFIG_USER_NS", codes "y")
    ∷ (codes "CONFIG_NET_NS", codes "y")
    ∷ (codes "CONFIG_PID_NS", codes "y")
    ∷ (codes "CONFIG_IPC_NS", codes "y")
    ∷ (codes "CONFIG_UTS_NS", codes "y")
    ∷ (codes "CONFIG_INOTIFY_USER", codes "y")
    ∷ (codes "CONFIG_SIGNALFD", codes "y")
    ∷ (codes "CONFIG_TIMERFD", codes "y")
    ∷ (codes "CONFIG_EPOLL", codes "y")
    ∷ (codes "CONFIG_FHANDLE", codes "y")
    ∷ (codes "CONFIG_DMIID", codes "y")
    ∷ (codes "CONFIG_AUTOFS_FS", codes "y")
    ∷ []

abbrev pub openrc_options : Options
openrc_options = (codes "CONFIG_SYSVIPC", codes "y") ∷ []

abbrev pub selinux_options : Options
selinux_options =
    (codes "CONFIG_SECURITY", codes "y")
    ∷ (codes "CONFIG_SECURITY_NETWORK", codes "y")
    ∷ (codes "CONFIG_SECURITY_SELINUX", codes "y")
    ∷ (codes "CONFIG_SECURITY_SELINUX_BOOTPARAM", codes "y")
    ∷ (codes "CONFIG_AUDIT", codes "y")
    ∷ (codes "CONFIG_AUDITSYSCALL", codes "y")
    ∷ []

abbrev pub apparmor_options : Options
apparmor_options =
    (codes "CONFIG_SECURITY", codes "y")
    ∷ (codes "CONFIG_SECURITY_NETWORK", codes "y")
    ∷ (codes "CONFIG_SECURITY_APPARMOR", codes "y")
    ∷ (codes "CONFIG_SECURITY_APPARMOR_BOOTPARAM_VALUE", codes "1")
    ∷ (codes "CONFIG_AUDIT", codes "y")
    ∷ []

abbrev pub kvm_options : Options
kvm_options = (codes "CONFIG_VIRTUALIZATION", codes "y") ∷ (codes "CONFIG_KVM", codes "m") ∷ []

abbrev pub kvm_x86_options : Options
kvm_x86_options = (codes "CONFIG_KVM_INTEL", codes "m") ∷ (codes "CONFIG_KVM_AMD", codes "m") ∷ []

abbrev pub container_feature_options : Options
container_feature_options =
    (codes "CONFIG_NAMESPACES", codes "y")
    ∷ (codes "CONFIG_USER_NS", codes "y")
    ∷ (codes "CONFIG_NET_NS", codes "y")
    ∷ (codes "CONFIG_PID_NS", codes "y")
    ∷ (codes "CONFIG_IPC_NS", codes "y")
    ∷ (codes "CONFIG_UTS_NS", codes "y")
    ∷ (codes "CONFIG_CGROUPS", codes "y")
    ∷ (codes "CONFIG_CGROUP_DEVICE", codes "y")
    ∷ (codes "CONFIG_CGROUP_SCHED", codes "y")
    ∷ (codes "CONFIG_CGROUP_PIDS", codes "y")
    ∷ (codes "CONFIG_CGROUP_FREEZER", codes "y")
    ∷ (codes "CONFIG_CPUSETS", codes "y")
    ∷ (codes "CONFIG_MEMCG", codes "y")
    ∷ (codes "CONFIG_VETH", codes "y")
    ∷ (codes "CONFIG_BRIDGE", codes "y")
    ∷ (codes "CONFIG_NETFILTER_ADVANCED", codes "y")
    ∷ (codes "CONFIG_NF_NAT", codes "y")
    ∷ (codes "CONFIG_NETFILTER_XT_MATCH_CONNTRACK", codes "y")
    ∷ (codes "CONFIG_OVERLAY_FS", codes "y")
    ∷ []

abbrev pub network_block_options : Options
network_block_options =
    (codes "CONFIG_NET", codes "y")
    ∷ (codes "CONFIG_INET", codes "y")
    ∷ (codes "CONFIG_IPV6", codes "y")
    ∷ (codes "CONFIG_NETDEVICES", codes "y")
    ∷ (codes "CONFIG_BLOCK", codes "y")
    ∷ (codes "CONFIG_BLK_DEV", codes "y")
    ∷ (codes "CONFIG_BLK_DEV_LOOP", codes "y")
    ∷ []

unfoldable pub filesystem_options : Text → Options
unfolding text_eq
filesystem_options name =
    if text_eq name (codes "ext4")
    then ext4_options
    else if text_eq name (codes "xfs")
    then xfs_options
    else if text_eq name (codes "btrfs")
    then btrfs_options
    else if text_eq name (codes "f2fs")
    then f2fs_options
    else []

unfoldable pub init_options : Text → Options
unfolding text_eq
init_options name =
    if text_eq name (codes "systemd")
    then systemd_options
    else if text_eq name (codes "openrc")
    then openrc_options
    else []

unfoldable pub security_options : Text → Options
unfolding text_eq
security_options name =
    if text_eq name (codes "selinux")
    then selinux_options
    else if text_eq name (codes "apparmor")
    then apparmor_options
    else []

unfoldable pub kvm_options_for : TargetArch → Options
kvm_options_for x86_64 = kvm_options ++ kvm_x86_options
kvm_options_for aarch64 = kvm_options
kvm_options_for (other_arch name) = kvm_options

unfoldable pub virtualization_options : Text → TargetArch → Options
unfolding text_eq kvm_options_for
virtualization_options name arch = if text_eq name (codes "kvm") then kvm_options_for arch else []

unfoldable pub container_options : Text → Options
container_options name = if is_nil name then [] else container_feature_options

-- The assignments in the source's order.
unfoldable pub recommended_assignments : DistributionConfig → TargetArch → Options
unfolding to_lower filesystem_options init_options security_options virtualization_options
recommended_assignments c arch =
    basic_options
    ++ (filesystem_options (to_lower c.filesystem_type)
        ++ (common_filesystem_options
            ++ (init_options (to_lower c.init)
                ++ (security_options (to_lower c.security_system)
                    ++ (virtualization_options (to_lower c.virtualization) arch
                        ++ (container_options c.container ++ network_block_options))))))

unfoldable pub get_recommended_kernel_options : Option DistributionConfig → TargetArch → Options
unfolding set_all recommended_assignments
get_recommended_kernel_options none arch = []
get_recommended_kernel_options (some c) arch = set_all (recommended_assignments c arch) []
