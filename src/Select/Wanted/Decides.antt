-- ===== src/Select/Wanted/Decides.antt =====
-- That the tests of ldfd/build/stages/resolve.go decide what the resolve stage looks for.
use ldf.Prelude.{
  Text, text_eq, text_eq_iff, has_prefix, has_prefix-append, has_prefix_sound, contains, to_lower,
  true, not, if◌then◌else◌, List, [], ◌∷◌, ◌++◌, any, All, Any, none, some, is_nil, find_first, ◌≡◌,
  ◌≢◌, ◌⊎◌, ◌↔◌, refl, subst, ap, inl, inr, arith, Bool-cases, Option-cases,
}
use ldf.Build.Types.{TargetArch, x86_64, aarch64, other_arch}
use ldf.Download.Jobs.{
  DownloadJob, DownloadJobStatus, job_unset, job_pending, job_verifying, job_downloading,
  job_completed, job_failed, job_cancelled,
}
use ldf.Select.{DistributionConfig}
use ldf.Select.Stage.{
  Component, names, desktop_override, get_distribution_version_override, get_component_version,
  arch_eq, is_component_compatible, contains_string, is_done, serves,
}
use ldf.Select.Wanted.{
  IsDownloadOf, IsFirstDownload, here, there, Supports, IsIn, choices, Names, AsksFor, nothing,
  asks, passes, IsVersionOf,
}

any_iff :
    (items : List Text) (s : Text)
    → (any (λ item. text_eq item s) items ≡ true) ↔ Any (λ item. item ≡ s) items
any_iff [] s = ground arith
any_iff (item ∷ items) s = ground (arith, text_eq_iff item s, any_iff items s)

is_done_iff : (status : DownloadJobStatus) → (is_done status ≡ true) ↔ (status ≡ job_completed)
unfolding is_done
is_done_iff job_unset = ground arith
is_done_iff job_pending = ground arith
is_done_iff job_verifying = ground arith
is_done_iff job_downloading = ground arith
is_done_iff job_completed = ground arith
is_done_iff job_failed = ground arith
is_done_iff job_cancelled = ground arith

pub serves_iff :
    (component : Component) (version : Text) (job : DownloadJob)
    → (serves component version job ≡ true) ↔ IsDownloadOf component version job
unfolding serves contains_string
serves_iff component version job =
    let first = text_eq_iff job.component_id component.id in
    let later = any_iff job.component_ids component.id in
    let same = text_eq_iff job.version version in
    let done = is_done_iff job.status in
    (
      (λ h. record { belongs = ground arith; in_version = ground arith; completed = ground arith }),
      (λ d. ground (arith, d.belongs, d.in_version, d.completed)),
    )

arch_eq_iff : (a b : TargetArch) → (arch_eq a b ≡ true) ↔ (a ≡ b)
unfolding arch_eq
arch_eq_iff x86_64 x86_64 = ground arith
arch_eq_iff x86_64 aarch64 = ground arith
arch_eq_iff x86_64 (other_arch t) = ground arith
arch_eq_iff aarch64 x86_64 = ground arith
arch_eq_iff aarch64 aarch64 = ground arith
arch_eq_iff aarch64 (other_arch t) = ground arith
arch_eq_iff (other_arch s) x86_64 = ground arith
arch_eq_iff (other_arch s) aarch64 = ground arith
arch_eq_iff (other_arch s) (other_arch t) = ground (arith, text_eq_iff s t)

any-arch_eq_iff :
    (archs : List TargetArch) (target : TargetArch)
    → (any (λ a. arch_eq a target) archs ≡ true) ↔ Any (λ arch. arch ≡ target) archs
any-arch_eq_iff [] target = ground arith
any-arch_eq_iff (a ∷ archs) target =
    ground (arith, arch_eq_iff a target, any-arch_eq_iff archs target)

is_nil_iff {ℓ} : {A : Type ℓ} (xs : List A) → (is_nil xs ≡ true) ↔ (xs ≡ [])
is_nil_iff [] = ground arith
is_nil_iff (x ∷ xs) = ground arith

pub is_component_compatible_iff :
    (component : Component) (target : TargetArch)
    → (is_component_compatible component target ≡ true) ↔ Supports component target
unfolding is_component_compatible
is_component_compatible_iff component target =
    let none_named = is_nil_iff component.supported_architectures in
    let named = any-arch_eq_iff component.supported_architectures target in ground arith

contains_sound : (s part : Text) → contains s part ≡ true → IsIn part s
unfolding contains
contains_sound [] part h = ([], _, has_prefix_sound [] part h)
contains_sound (c ∷ s) part h = elim (Bool-cases (has_prefix (c ∷ s) part)) [
  | inl hit ↦ ([], _, has_prefix_sound (c ∷ s) part hit)
  | inr miss ↦
      let (before, after, e) = contains_sound s part (rw (miss, contains) at h) in
      (c ∷ before, after, ap (λ t. c ∷ t) e)
]

contains-part : (before part after : Text) → contains (before ++ (part ++ after)) part ≡ true
unfolding contains
contains-part [] [] [] = ground arith
contains-part [] [] (c ∷ after) = ground (arith, has_prefix-append [] (c ∷ after))
contains-part [] (p ∷ part) after = ground (arith, has_prefix-append (p ∷ part) after)
contains-part (c ∷ before) part after = ground (arith, contains-part before part after)

contains_iff : (s part : Text) → (contains s part ≡ true) ↔ IsIn part s
contains_iff s part =
    (contains_sound s part, (λ found. rw found.2 (contains-part found.0 part found.1)))

names_iff : (name choice : Text) → (names (to_lower name) choice ≡ true) ↔ Names name choice
unfolding names
names_iff name choice =
    let empty = is_nil_iff choice in
    let part = contains_iff (to_lower name) (to_lower choice) in ground arith

-- The version of the first choice that names a component.
first_choice : Text → List (Text × Text) → Text
first_choice lower_name [] = []
first_choice lower_name ((choice, version) ∷ rest) =
    let later = first_choice lower_name rest in if names lower_name choice then version else later

override-first_choice :
    (config : DistributionConfig) (name : Text)
    → get_distribution_version_override config name ≡ first_choice (to_lower name) (choices config)
unfolding get_distribution_version_override desktop_override first_choice names
override-first_choice config name = elim (Option-cases config.target.desktop) [
  | inl e ↦ rw e refl
  | inr (desktop, e) ↦ rw e refl
]

first_choice-AsksFor :
    (name : Text) (offers : List (Text × Text))
    → AsksFor name offers (first_choice (to_lower name) offers)
unfolding first_choice
first_choice-AsksFor name [] = nothing
first_choice-AsksFor name ((choice, version) ∷ rest) =
    elim (Bool-cases (names (to_lower name) choice)) [
      | inl e ↦ rw e (asks choice version ((names_iff name choice).0 e))
      | inr e ↦ rw e (
          passes choice version (λ n. let yes = (names_iff name choice).1 n in cc)
            (first_choice-AsksFor name rest))
    ]

AsksFor-first_choice :
    (name : Text) (offers : List (Text × Text)) (version : Text)
    → AsksFor name offers version
    → first_choice (to_lower name) offers ≡ version
unfolding first_choice
AsksFor-first_choice name [] _ nothing = refl
AsksFor-first_choice name (_ ∷ rest) _ (asks choice version n) =
    rw ((names_iff name choice).1 n) refl
AsksFor-first_choice name (_ ∷ rest) _ (passes {found = found} choice version unnamed later) =
    elim (Bool-cases (names (to_lower name) choice)) [
      | inl e ↦ absurd (unnamed ((names_iff name choice).0 e))
      | inr e ↦ rw e (AsksFor-first_choice name rest found later)
    ]

asked_or_own :
    (asked own : Text)
    → let version = if not (is_nil asked) then asked else own in
      ((asked ≢ []) × (version ≡ asked)) ⊎ ((asked ≡ []) × (version ≡ own))
asked_or_own [] own = inr (refl, refl)
asked_or_own (c ∷ asked) own = inl ((λ e. cc), refl)

pub get_component_version-IsVersionOf :
    (config : DistributionConfig) (component : Component)
    → IsVersionOf config component (get_component_version config component)
unfolding get_component_version
get_component_version-IsVersionOf config component =
    let asked = first_choice (to_lower component.name) (choices config) in
    let same = override-first_choice config component.name in
    (
      asked,
      first_choice-AsksFor component.name (choices config),
      rw same (asked_or_own asked component.default_version),
    )

pub IsVersionOf-unique :
    (config : DistributionConfig) (component : Component) (version : Text)
    → IsVersionOf config component version
    → get_component_version config component ≡ version
unfolding get_component_version
IsVersionOf-unique config component version (asked, asks_for, which) =
    let same = override-first_choice config component.name in
    let found = AsksFor-first_choice component.name (choices config) asked asks_for in
    let empty = is_nil_iff asked in rw (same, found) (ground arith)

module _ (component : Component) (version : Text) where
  pub find_first-IsFirstDownload :
      (jobs : List DownloadJob) (job : DownloadJob)
      → find_first (serves component version) jobs ≡ some job
      → IsFirstDownload component version jobs job
  find_first-IsFirstDownload [] job h = cc
  find_first-IsFirstDownload (other ∷ jobs) job h =
      elim (Bool-cases (serves component version other)) [
        | inl e ↦
            let same : some other ≡ some job = rw e at h in
            let q : other ≡ job = cc in
            subst (λ j. IsFirstDownload component version (other ∷ jobs) j) q
              (here other ((serves_iff component version other).0 e))
        | inr e ↦
            there other (λ d. let yes = (serves_iff component version other).1 d in cc)
              (find_first-IsFirstDownload jobs job (rw e at h))
      ]

  pub IsFirstDownload-find_first :
      (jobs : List DownloadJob) (job : DownloadJob)
      → IsFirstDownload component version jobs job
      → find_first (serves component version) jobs ≡ some job
  IsFirstDownload-find_first (_ ∷ jobs) _ (here job d) =
      rw ((serves_iff component version job).1 d) refl
  IsFirstDownload-find_first (_ ∷ jobs) job (there other unfit later) =
      elim (Bool-cases (serves component version other)) [
        | inl e ↦ absurd (unfit ((serves_iff component version other).0 e))
        | inr e ↦ rw e (IsFirstDownload-find_first jobs job later)
      ]
  IsFirstDownload-find_first [] job x = elim x [ ]

  pub find_first-none_iff :
      (jobs : List DownloadJob)
      → (find_first (serves component version) jobs ≡ none)
        ↔ All (λ job. ¬ (IsDownloadOf component version job)) jobs
  find_first-none_iff [] = ground arith
  find_first-none_iff (job ∷ jobs) =
      let this = serves_iff component version job in ground (arith, find_first-none_iff jobs)
