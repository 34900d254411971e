-- ===== src/Build/Arch/Images.antt =====
-- The image names of `ContainerImageForArch` (ldfd/build/arch.go).
use ldf.Prelude.{
  ℕ, Text, codes, true, ◌==◌, if◌then◌else◌, [], ◌∷◌, ◌++◌, none, some, ◌≡◌, ◌≢◌, refl, ap, arith,
  All, any, length, take,
}
use ldf.Build.Types.{TargetArch}
use ldf.Build.Arch.{HostSystem, last_index, base_image_of, arch_text, container_image_for_arch}

last_index-none : (c : ℕ) (s : Text) → All (λ x. x ≢ c) s → last_index c s ≡ none
unfolding last_index
last_index-none c [] h = refl
last_index-none c (x ∷ s) h = ground (arith, last_index-none c s)

last_index-append :
    (c : ℕ) (s t : Text) → All (λ x. x ≢ c) t → last_index c (s ++ c ∷ t) ≡ some (length s)
unfolding last_index
last_index-append c [] t h = ground (arith, last_index-none c t)
last_index-append c (x ∷ s) t h = ground (arith, last_index-append c s t)

take-append : (s t : Text) → take (length s) (s ++ t) ≡ s
take-append [] t = refl
take-append (x ∷ s) t = ap (λ u. x ∷ u) (take-append s t)

-- What stands behind the last colon is taken for a tag.
pub base_image_of-append :
    (c : ℕ) (name tag : Text)
    → All (λ x. x ≢ b':') tag
    → base_image_of ((c ∷ name) ++ b':' ∷ tag) ≡ c ∷ name
unfolding base_image_of
base_image_of-append c name tag h =
    ground (arith, last_index-append b':' (c ∷ name) tag h, take-append (c ∷ name) (b':' ∷ tag))

-- The image that is run has a tag or a port in its name.
any_colon-append : (s t : Text) → any (λ c. c == b':') (s ++ b':' ∷ t) ≡ true
any_colon-append [] t = refl
any_colon-append (x ∷ s) t = ground (arith, any_colon-append s t)

-- For every name, colon and text with no colon, the image is the name with the architecture for its
-- tag where the runtime has that image, and the given image where it does not. The text behind the
-- colon need not be a tag: it may be a registry's port and the rest of the image's name.
container_image-tagged :
    (sys : HostSystem) (runtime : Text) (c : ℕ) (name tag : Text) (target : TargetArch)
    → All (λ x. x ≢ b':') tag
    → let arch_image = (c ∷ name) ++ (codes ":" ++ arch_text target) in
      container_image_for_arch sys runtime ((c ∷ name) ++ b':' ∷ tag) target
      ≡ (if sys.image_exists runtime arch_image then arch_image else (c ∷ name) ++ b':' ∷ tag)
unfolding container_image_for_arch
container_image-tagged sys runtime c name tag target h =
    rw (base_image_of-append c name tag h) (rw (any_colon-append (c ∷ name) tag) refl)
