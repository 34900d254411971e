-- ===== src/Tests/Mirrors.antt =====
-- Mirrors of ldfd/download/mirror.go, sorted by insertion.
use ldf.Prelude.{
  ℕ, Text, codes, Bool, true, false, Bool-cases, inl, inr, if◌then◌else◌, List, [], ◌∷◌, All, ◌≡◌,
  ◌⊎◌, ◌↔◌, refl, arith,
}
use ldf.Download.Mirror.{
  MirrorConfigEntry, default_mirror_config, lower_priority, new_mirror_resolver, resolve_url,
}
use ldf.Download.Mirror.First.{
  applies, In, IsStrictWeak, IsOrdered, IsSorting, TakenFrom, resolve_url-cases,
}

module _ (less : MirrorConfigEntry → MirrorConfigEntry → Bool) where
  abbrev insert_mirror : MirrorConfigEntry → List MirrorConfigEntry → List MirrorConfigEntry
  insert_mirror m [] = m ∷ []
  insert_mirror m (n ∷ mirrors) =
      let rest = insert_mirror m mirrors in if less n m then n ∷ rest else m ∷ n ∷ mirrors

  abbrev sort_mirrors : List MirrorConfigEntry → List MirrorConfigEntry
  sort_mirrors [] = []
  sort_mirrors (m ∷ mirrors) = insert_mirror m (sort_mirrors mirrors)

  In-insert_mirror :
      (k m : MirrorConfigEntry) (mirrors : List MirrorConfigEntry)
      → In k (insert_mirror m mirrors) ↔ In k (m ∷ mirrors)
  In-insert_mirror k m [] = ground arith
  In-insert_mirror k m (n ∷ mirrors) = ground (arith, In-insert_mirror k m mirrors)

  In-sort_mirrors :
      (k : MirrorConfigEntry) (mirrors : List MirrorConfigEntry)
      → In k (sort_mirrors mirrors) ↔ In k mirrors
  In-sort_mirrors k [] = ground arith
  In-sort_mirrors k (m ∷ mirrors) =
      ground (arith, In-insert_mirror k m (sort_mirrors mirrors), In-sort_mirrors k mirrors)

  module _ (strict : IsStrictWeak less) where
    behind :
        (l m : MirrorConfigEntry) (mirrors : List MirrorConfigEntry)
        → less m l ≡ false
        → All (λ n. less n m ≡ false) mirrors
        → All (λ n. less n l ≡ false) mirrors
    behind l m [] e h = tt
    behind l m (n ∷ mirrors) e h = (strict.transitive_not n m l h.0 e, behind l m mirrors e h.1)

    All-insert_mirror :
        (l m : MirrorConfigEntry) (mirrors : List MirrorConfigEntry)
        → less m l ≡ false
        → All (λ n. less n l ≡ false) mirrors
        → All (λ n. less n l ≡ false) (insert_mirror m mirrors)
    All-insert_mirror l m [] e h = (e, tt)
    All-insert_mirror l m (n ∷ mirrors) e h = elim (Bool-cases (less n m)) [
      | inl b ↦ rw b (h.0, All-insert_mirror l m mirrors e h.1)
      | inr b ↦ rw b (e, h)
    ]

    insert_mirror-IsOrdered :
        (m : MirrorConfigEntry) (mirrors : List MirrorConfigEntry)
        → IsOrdered less mirrors
        → IsOrdered less (insert_mirror m mirrors)
    insert_mirror-IsOrdered m [] h = (tt, tt)
    insert_mirror-IsOrdered m (n ∷ mirrors) h = elim (Bool-cases (less n m)) [
      | inl b ↦ rw b (
        All-insert_mirror n m mirrors (strict.asymmetric n m b) h.0,
        insert_mirror-IsOrdered m mirrors h.1,
      )
      | inr b ↦ rw b ((b, behind m n mirrors b h.0), h)
    ]

    sort_mirrors-IsOrdered :
        (mirrors : List MirrorConfigEntry) → IsOrdered less (sort_mirrors mirrors)
    sort_mirrors-IsOrdered [] = tt
    sort_mirrors-IsOrdered (m ∷ mirrors) =
        insert_mirror-IsOrdered m (sort_mirrors mirrors) (sort_mirrors-IsOrdered mirrors)

sort_mirrors-IsSorting : IsSorting sort_mirrors
sort_mirrors-IsSorting less mirrors strict =
    ((λ m. In-sort_mirrors less m mirrors), sort_mirrors-IsOrdered less strict mirrors)

abbrev mirror_of : ℕ → Text → MirrorConfigEntry
mirror_of priority mirror_url = record {
  id = mirror_url;
  name = mirror_url;
  url_prefix = codes "http://a/";
  mirror_url = mirror_url;
  priority = priority;
  enabled = true;
}

abbrev two_mirrors : List MirrorConfigEntry
two_mirrors = mirror_of 20 (codes "http://far/") ∷ mirror_of 10 (codes "http://near/") ∷ []

near_taken :
    resolve_url
      (new_mirror_resolver sort_mirrors two_mirrors default_mirror_config)
      (codes "http://a/k.tar")
    ≡ codes "http://near/k.tar"
unfolding resolve_url new_mirror_resolver lower_priority
near_taken = refl

resolve_url-cases_example :
    (All (λ n. applies (codes "http://a/k.tar") n ≡ false) two_mirrors
      × (codes "http://near/k.tar" ≡ codes "http://a/k.tar"))
    ⊎ ((m : MirrorConfigEntry) × TakenFrom two_mirrors
          (codes "http://a/k.tar")
          (codes "http://near/k.tar")
          m)
unfolding resolve_url new_mirror_resolver lower_priority
resolve_url-cases_example =
    resolve_url-cases sort_mirrors two_mirrors default_mirror_config (codes "http://a/k.tar")
      sort_mirrors-IsSorting
