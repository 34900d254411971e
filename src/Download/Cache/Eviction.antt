-- ===== src/Download/Cache/Eviction.antt =====
-- That `evict` of ldfd/download/cache.go ends, and in what.
use ldf.Prelude.{
  ℕ, zero, suc, ◌+◌, ◌*◌, ◌≤◌, ◌<◌, Text, text_eq_refl, leb, true, false, ◌==◌, List, [], ◌∷◌, ◌++◌,
  Option, some, is_nil, length, take, is_row, delete_row, ◌≡◌, ◌⊎◌, refl, arith, inl, inr,
  Bool-cases,
}
use ldf.Download.Cache.{
  CacheConfig, CacheEntry, entry_key, total_size, insert_oldest, oldest_first, list_lru, Evicted,
  evict_batch, evict_loop, evict,
}

-- Deleting a row that is there makes the table shorter.
length-delete :
    (id : Text) (entries : List CacheEntry)
    → length (delete_row entry_key id entries) ≤ length entries
unfolding delete_row
length-delete id [] = omega arith
length-delete id (e ∷ entries) = ground (arith, length-delete id entries)

length-delete_less :
    (id : Text) (entries : List CacheEntry)
    → is_row entry_key id entries ≡ true
    → length (delete_row entry_key id entries) < length entries
unfolding delete_row is_row
length-delete_less id [] h = cc
length-delete_less id (e ∷ entries) h =
    ground (arith, length-delete id entries, length-delete_less id entries)

-- The oldest entry of a table that is not empty has a row in it.
abbrev OldestIn : List CacheEntry → List CacheEntry → Type 0
OldestIn entries sorted =
    (e : CacheEntry) × (rest : List CacheEntry) × (sorted ≡ e ∷ rest)
    × (is_row entry_key e.id entries ≡ true)

is_row-first :
    (e : CacheEntry) (entries : List CacheEntry) → is_row entry_key e.id (e ∷ entries) ≡ true
unfolding is_row
is_row-first e entries = ground (arith, text_eq_refl e.id)

is_row-later :
    (id : Text) (e : CacheEntry) (entries : List CacheEntry)
    → is_row entry_key id entries ≡ true
    → is_row entry_key id (e ∷ entries) ≡ true
unfolding is_row
is_row-later id e entries h = ground arith

OldestIn-insert_oldest :
    (e : CacheEntry) (entries sorted : List CacheEntry)
    → OldestIn entries sorted
    → OldestIn (e ∷ entries) (insert_oldest e sorted)
unfolding insert_oldest
OldestIn-insert_oldest e entries sorted (d, rest, s, h) =
    elim (Bool-cases (leb e.last_used_at d.last_used_at)) [
      | inl older ↦ rw (s, older) (e, d ∷ rest, refl, is_row-first e entries)
      | inr newer ↦ rw (s, newer) (d, insert_oldest e rest, refl, is_row-later d.id e entries h)
    ]

OldestIn-oldest_first :
    (e : CacheEntry) (entries : List CacheEntry)
    → OldestIn (e ∷ entries) (oldest_first (e ∷ entries))
unfolding oldest_first insert_oldest
OldestIn-oldest_first e [] = (e, [], refl, is_row-first e [])
OldestIn-oldest_first e (d ∷ entries) =
    OldestIn-insert_oldest e (d ∷ entries) (oldest_first (d ∷ entries))
      (OldestIn-oldest_first d entries)

-- A batch leaves no more rows than it finds, and no more than the deletion of its first entry.
length-evict_batch_first :
    (max_bytes : ℕ) (e : CacheEntry) (batch : List CacheEntry) (entries : List CacheEntry)
    (deleted : List Text)
    → length (evict_batch max_bytes (e ∷ batch) (entries, deleted)).1.0
      ≤ length (delete_row entry_key e.id entries)
unfolding evict_batch
length-evict_batch_first max_bytes e [] entries deleted = ground arith
length-evict_batch_first max_bytes e (d ∷ more) entries deleted =
    let rest = delete_row entry_key e.id entries in
    elim (Bool-cases (leb (total_size rest) max_bytes)) [
      | inl fits ↦ rw (fits, evict_batch) (omega arith)
      | inr full ↦
          let less =
            length-evict_batch_first max_bytes d more rest (deleted ++ e.cache_path ∷ []) in
          let least = length-delete d.id rest in rw (full, evict_batch) (omega arith)
    ]

-- A batch that returns leaves a table that fits.
total_size-evict_batch :
    (max_bytes : ℕ) (batch : List CacheEntry) (entries : List CacheEntry) (deleted : List Text)
    → (evict_batch max_bytes batch (entries, deleted)).0 ≡ true
    → total_size (evict_batch max_bytes batch (entries, deleted)).1.0 ≤ max_bytes
unfolding evict_batch
total_size-evict_batch max_bytes [] entries deleted h = cc
total_size-evict_batch max_bytes (e ∷ batch) entries deleted h =
    let rest = delete_row entry_key e.id entries in
    elim (Bool-cases (leb (total_size rest) max_bytes)) [
      | inl fits ↦ rw (fits, evict_batch) (ground arith)
      | inr full ↦
          rw (full, evict_batch)
            (total_size-evict_batch max_bytes batch rest (deleted ++ e.cache_path ∷ [])
              (rw (full, evict_batch) at h))
    ]

-- How the loop ends.
abbrev pub Ends : ℕ → Option Evicted → Type 0
Ends max_bytes result =
    (left : List CacheEntry) × (deleted : List Text) × (result ≡ some (left, deleted))
    × (total_size left ≤ max_bytes)

length-first_batch :
    (max_bytes : ℕ) (e : CacheEntry) (entries : List CacheEntry) (deleted : List Text)
    → length (evict_batch max_bytes (list_lru (e ∷ entries) 5) (e ∷ entries, deleted)).1.0
      < length (e ∷ entries)
unfolding list_lru
length-first_batch max_bytes e entries deleted =
    let (d, rest, s, h) = OldestIn-oldest_first e entries in
    let less = length-delete_less d.id (e ∷ entries) h in
    let most = length-evict_batch_first max_bytes d (take 4 rest) (e ∷ entries) deleted in
    rw s (omega arith)

is_nil-list_lru :
    (e : CacheEntry) (entries : List CacheEntry) → is_nil (list_lru (e ∷ entries) 5) ≡ false
unfolding list_lru
is_nil-list_lru e entries = let (d, rest, s, h) = OldestIn-oldest_first e entries in rw s refl

zero_fits : (max_bytes : ℕ) → leb (total_size []) max_bytes ≡ true
unfolding total_size
zero_fits max_bytes = ground arith

evict_loop-Ends :
    (n max_bytes : ℕ) (entries : List CacheEntry) (deleted : List Text)
    → length entries < n
    → Ends max_bytes (evict_loop n max_bytes (entries, deleted))
unfolding evict_loop
evict_loop-Ends zero max_bytes entries deleted h = let no : ⊥ = omega arith in elim no [ ]
evict_loop-Ends (suc n) max_bytes [] deleted h =
    let fits : leb (total_size []) max_bytes ≡ true = zero_fits max_bytes in
    rw (fits, evict_loop) ([], deleted, refl, (omega arith))
evict_loop-Ends (suc n) max_bytes (e ∷ entries) deleted h =
    let batch = list_lru (e ∷ entries) 5 in
    elim (Bool-cases (leb (total_size (e ∷ entries)) max_bytes)) [
      | inl fits ↦ rw (fits, evict_loop) (e ∷ entries, deleted, refl, ground arith)
      | inr full ↦ elim (Bool-cases (evict_batch max_bytes batch (e ∷ entries, deleted)).0) [
        | inl done ↦
            rw (full, is_nil-list_lru e entries, done, evict_loop)
              (_, _, refl, total_size-evict_batch max_bytes batch (e ∷ entries) deleted done)
        | inr on ↦
            let less = length-first_batch max_bytes e entries deleted in
            let state = (evict_batch max_bytes batch (e ∷ entries, deleted)).1 in
            rw (full, is_nil-list_lru e entries, on, evict_loop)
              (evict_loop-Ends n max_bytes state.0 state.1 (omega arith))
      ]
    ]

-- The eviction always ends, in at most one round more than the cache has rows, and with a limit the
-- entries that it leaves do not take more bytes than the limit; without a limit every entry is left.
pub evict-Ends :
    (config : CacheConfig) (entries : List CacheEntry)
    → ((config.max_size_gb ≡ 0) × (evict config entries ≡ some (entries, [])))
      ⊎ Ends (config.max_size_gb * 1073741824) (evict config entries)
unfolding evict
evict-Ends config entries = elim (Bool-cases (config.max_size_gb == 0)) [
  | inl none_set ↦ inl (ground arith, rw (none_set, evict) refl)
  | inr limited ↦ inr (
      rw (limited, evict)
        (evict_loop-Ends (length entries + 1) (config.max_size_gb * 1073741824) entries []
          (omega arith)))
]
