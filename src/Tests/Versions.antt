-- ===== src/Tests/Versions.antt =====
-- Versions of ldfd/forge/github.go compared.
use ldf.Prelude.{codes, ◌≡◌, refl, arith, split_on}
use ldf.Forge.Version.{sign, plus, nul, split_version_part, compare_versions}
use ldf.Forge.Version.Order.{flip}
use ldf.Forge.Version.Sorting.{AreSmall, parts_of, compare_versions-flip, compare_versions-rises}

small_versions :
    AreSmall (parts_of (codes "6.12"))
    × AreSmall (parts_of (codes "6.12-rc1"))
    × AreSmall (parts_of (codes "6.2"))
    × AreSmall (parts_of (codes "6"))
    × AreSmall (parts_of (codes "6.0"))
unfolding split_version_part split_on
small_versions = omega arith

ranked_versions :
    (sign (compare_versions (codes "6.12") (codes "6.12-rc1")) ≡ plus)
    × (sign (compare_versions (codes "6.12-rc1") (codes "6.2")) ≡ plus)
    × (sign (compare_versions (codes "6") (codes "6.0")) ≡ nul)
unfolding compare_versions sign
ranked_versions = (refl, refl, refl)

compare_versions-flip_example :
    (sign (compare_versions (codes "6.12-rc1") (codes "6.12"))
      ≡ flip (sign (compare_versions (codes "6.12") (codes "6.12-rc1"))))
    × (sign (compare_versions (codes "6.12") (codes "6.12")) ≡ nul)
compare_versions-flip_example =
    compare_versions-flip (codes "6.12") (codes "6.12-rc1") small_versions.0 small_versions.1

compare_versions-rises_example : sign (compare_versions (codes "6.12") (codes "6.2")) ≡ plus
compare_versions-rises_example =
    compare_versions-rises (codes "6.12") (codes "6.12-rc1") (codes "6.2") small_versions.0
      small_versions.1 small_versions.2 ranked_versions.0 ranked_versions.1
