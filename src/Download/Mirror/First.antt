-- ===== src/Download/Mirror/First.antt =====
-- Which mirror `ResolveURL` of ldfd/download/mirror.go takes.
use ldf.Prelude.{
  ◌≤◌, Text, has_prefix, trim_prefix, Bool, true, false, ◌&&◌, Bool-cases, List, [], ◌∷◌, ◌++◌, All,
  Any, ◌≡◌, ◌⊎◌, ◌↔◌, inl, inr, refl, subst, arith,
}
use ldf.Download.Mirror.{
  MirrorConfigEntry, MirrorConfig, lower_priority, new_mirror_resolver, resolve_by, resolve_url,
}

-- The mirror is enabled and stands for a prefix of the URL.
abbrev pub applies : Text → MirrorConfigEntry → Bool
applies url m = m.enabled && has_prefix url m.url_prefix

abbrev pub In : MirrorConfigEntry → List MirrorConfigEntry → Type 0
In m mirrors = Any (λ n. n ≡ m) mirrors

-- A strict order up to equal elements.
pub record IsStrictWeak (less : MirrorConfigEntry → MirrorConfigEntry → Bool) : Type 0 where
  pub asymmetric : (m n : MirrorConfigEntry) → less m n ≡ true → less n m ≡ false
  pub transitive_not :
      (m n k : MirrorConfigEntry) → less m n ≡ false → less n k ≡ false → less m k ≡ false

abbrev pub IsOrdered :
    (MirrorConfigEntry → MirrorConfigEntry → Bool) → List MirrorConfigEntry → Type 0
IsOrdered less [] = Unit
IsOrdered less (m ∷ mirrors) = All (λ n. less n m ≡ false) mirrors × IsOrdered less mirrors

-- What `sort.Slice` promises: for a strict weak order it keeps the elements and puts none behind a
-- greater one.
abbrev pub IsSorting :
    ((MirrorConfigEntry → MirrorConfigEntry → Bool)
      → List MirrorConfigEntry
      → List MirrorConfigEntry)
    → Type 0
IsSorting sort_slice =
    (less : MirrorConfigEntry → MirrorConfigEntry → Bool) (mirrors : List MirrorConfigEntry)
    → IsStrictWeak less
    → ((m : MirrorConfigEntry) → In m (sort_slice less mirrors) ↔ In m mirrors)
      × IsOrdered less (sort_slice less mirrors)

abbrev ByPriority : List MirrorConfigEntry → Type 0
ByPriority [] = Unit
ByPriority (m ∷ mirrors) = All (λ n. m.priority ≤ n.priority) mirrors × ByPriority mirrors

-- The URL is rewritten by this mirror, and no other that applies has a lower priority number.
pub record TakenFrom (mirrors : List MirrorConfigEntry) (url resolved : Text)
    (m : MirrorConfigEntry) : Type 0 where
  pub member : In m mirrors
  pub applicable : applies url m ≡ true
  pub rewritten : resolved ≡ m.mirror_url ++ trim_prefix url m.url_prefix
  pub first : All (λ n. (applies url n ≡ false) ⊎ (m.priority ≤ n.priority)) mirrors

abbrev Resolved : List MirrorConfigEntry → Text → Text → Type 0
Resolved mirrors url resolved =
    (All (λ n. applies url n ≡ false) mirrors × (resolved ≡ url))
    ⊎ ((m : MirrorConfigEntry) × TakenFrom mirrors url resolved m)

skip-mirror :
    (m : MirrorConfigEntry) (mirrors : List MirrorConfigEntry) (url : Text)
    → applies url m ≡ false
    → resolve_by (m ∷ mirrors) url ≡ resolve_by mirrors url
unfolding resolve_by
skip-mirror m mirrors url h = ground arith

take-mirror :
    (m : MirrorConfigEntry) (mirrors : List MirrorConfigEntry) (url : Text)
    → applies url m ≡ true
    → resolve_by (m ∷ mirrors) url ≡ m.mirror_url ++ trim_prefix url m.url_prefix
unfolding resolve_by
take-mirror m mirrors url h = ground arith

weaken :
    (m : MirrorConfigEntry) (url : Text) (mirrors : List MirrorConfigEntry)
    → All (λ n. m.priority ≤ n.priority) mirrors
    → All (λ n. (applies url n ≡ false) ⊎ (m.priority ≤ n.priority)) mirrors
weaken m url [] h = tt
weaken m url (n ∷ mirrors) h = (inr h.0, weaken m url mirrors h.1)

resolve_by-Resolved :
    (mirrors : List MirrorConfigEntry) (url : Text)
    → ByPriority mirrors
    → Resolved mirrors url (resolve_by mirrors url)
unfolding resolve_by
resolve_by-Resolved [] url h = inl (tt, refl)
resolve_by-Resolved (m ∷ mirrors) url h = elim (Bool-cases (applies url m)) [
  | inl a ↦ inr (
    m,
    record {
      member = inl refl;
      applicable = a;
      rewritten = take-mirror m mirrors url a;
      first = (inr (omega arith), weaken m url mirrors h.0);
    },
  )
  | inr a ↦ rw (skip-mirror m mirrors url a) (elim (resolve_by-Resolved mirrors url h.1) [
    | inl (noone, same) ↦ inl ((a, noone), same)
    | inr (n, t) ↦ inr (
      n,
      record {
        member = inr t.member;
        applicable = t.applicable;
        rewritten = t.rewritten;
        first = (inl a, t.first);
      },
    )
  ])
]

All-at :
    (P : MirrorConfigEntry → Type 0) (mirrors : List MirrorConfigEntry) (m : MirrorConfigEntry)
    → All P mirrors
    → In m mirrors
    → P m
All-at P [] m h i = absurd i
All-at P (n ∷ mirrors) m h (inl e) = subst P e h.0
All-at P (n ∷ mirrors) m h (inr i) = All-at P mirrors m h.1 i

All-of :
    {P : MirrorConfigEntry → Type 0} (mirrors : List MirrorConfigEntry)
    → ((m : MirrorConfigEntry) → In m mirrors → P m)
    → All P mirrors
All-of [] f = tt
All-of (n ∷ mirrors) f = (f n (inl refl), All-of mirrors λ m i. f m (inr i))

lower_priority-IsStrictWeak : IsStrictWeak lower_priority
unfolding lower_priority
lower_priority-IsStrictWeak = record {
  asymmetric = λ m n h. ground arith;
  transitive_not = λ m n k h h'. ground arith;
}

none_lower :
    (m : MirrorConfigEntry) (mirrors : List MirrorConfigEntry)
    → All (λ n. lower_priority n m ≡ false) mirrors
    → All (λ n. m.priority ≤ n.priority) mirrors
unfolding lower_priority
none_lower m [] h = tt
none_lower m (n ∷ mirrors) h = (ground (arith, h.0), none_lower m mirrors h.1)

IsOrdered-ByPriority :
    (mirrors : List MirrorConfigEntry) → IsOrdered lower_priority mirrors → ByPriority mirrors
IsOrdered-ByPriority [] h = tt
IsOrdered-ByPriority (m ∷ mirrors) h = (none_lower m mirrors h.0, IsOrdered-ByPriority mirrors h.1)

-- Whatever sorting by a comparison `sort.Slice` does: if no enabled mirror stands for a prefix of a URL,
-- the URL is kept. Otherwise it is rewritten by one of these mirrors, and none of the others has a lower
-- priority number.
pub resolve_url-cases :
    (sort_slice : (MirrorConfigEntry → MirrorConfigEntry → Bool)
      → List MirrorConfigEntry
      → List MirrorConfigEntry)
    (mirrors : List MirrorConfigEntry) (cfg : MirrorConfig) (url : Text)
    → IsSorting sort_slice
    → let resolved = resolve_url (new_mirror_resolver sort_slice mirrors cfg) url in
      (All (λ n. applies url n ≡ false) mirrors × (resolved ≡ url))
      ⊎ ((m : MirrorConfigEntry) × TakenFrom mirrors url resolved m)
unfolding resolve_url new_mirror_resolver
resolve_url-cases sort_slice mirrors cfg url sorting =
    let (same, ordered) = sorting lower_priority mirrors lower_priority-IsStrictWeak in
    let tried = sort_slice lower_priority mirrors in
    elim (resolve_by-Resolved tried url (IsOrdered-ByPriority tried ordered)) [
      | inl (noone, kept) ↦ inl (
        All-of mirrors (λ m i. All-at (λ n. applies url n ≡ false) tried m noone ((same m).1 i)),
        kept,
      )
      | inr (m, t) ↦ inr (
        m,
        record {
          member = (same m).0 t.member;
          applicable = t.applicable;
          rewritten = t.rewritten;
          first = All-of mirrors (λ n i.
              All-at (λ k. (applies url k ≡ false) ⊎ (m.priority ≤ k.priority)) tried n t.first
                ((same n).1 i));
        },
      )
    ]
