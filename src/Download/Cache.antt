-- ===== src/Download/Cache.antt =====
-- `Cache` of ldfd/download/cache.go with the rows of ldfd/db/artifact_cache.go. What the storage answers is
-- an argument, and the keys that an eviction deletes in it are part of its result. A limit in bytes that
-- does not fit into 63 bits, one below 0 (which is as one of 0) and entries of a negative size are not represented; of two entries that were
-- used at the same time the earlier row counts as the older.
pub mod Eviction
use ldf.Prelude.{
  ℕ, zero, suc, ◌+◌, ◌*◌, Text, codes, text_eq, ltb, leb, Bool, true, false, not, ◌&&◌, ◌||◌, ◌==◌,
  if◌then◌else◌, List, [], ◌∷◌, ◌++◌, Option, none, some, any, is_nil, length, take, find_first,
  find_row, is_row, update_row, delete_row, path_base,
}

pub record CacheConfig : Type 0 where
  pub enabled : Bool
  pub max_size_gb : ℕ

-- `DefaultCacheConfig`
abbrev pub default_cache_config : CacheConfig
default_cache_config = record { enabled = true; max_size_gb = 0 }

pub record CacheEntry : Type 0 where
  pub id : Text
  pub source_id : Text
  pub version : Text
  pub checksum : Text
  pub cache_path : Text
  pub size_bytes : ℕ
  pub content_type : Text
  pub resolved_url : Text
  pub last_used_at : ℕ
  pub use_count : ℕ

abbrev pub entry_key : CacheEntry → Text
entry_key entry = entry.id

-- `GetBySourceAndVersion`
unfoldable pub cached : List CacheEntry → Text → Text → Option CacheEntry
unfolding text_eq
cached entries source_id version =
    find_first (λ e. text_eq source_id e.source_id && text_eq version e.version) entries

-- `Create`; none if a unique key stands in a row already.
unfoldable pub create_entry : List CacheEntry → Text → ℕ → CacheEntry → Option (List CacheEntry)
unfolding is_row cached text_eq
create_entry entries fresh_id now entry =
    let entry' : CacheEntry = record entry {
      id = if is_nil entry.id then fresh_id else entry.id;
      last_used_at = now;
      use_count = if entry.use_count == 0 then 1 else entry.use_count;
    } in
    if is_row entry_key entry'.id entries
      || any (λ e. text_eq entry.source_id e.source_id && text_eq entry.version e.version) entries
    then none
    else some (entries ++ entry' ∷ [])

-- `TouchLastUsed`
unfoldable pub touch_last_used : List CacheEntry → ℕ → Text → List CacheEntry
unfolding update_row
touch_last_used entries now id =
    update_row entry_key id (λ e. record e { last_used_at = now; use_count = e.use_count + 1 })
      entries

-- `TotalSize`
unfoldable pub total_size : List CacheEntry → ℕ
total_size [] = 0
total_size (e ∷ entries) = e.size_bytes + total_size entries

insert_oldest : CacheEntry → List CacheEntry → List CacheEntry
insert_oldest e [] = e ∷ []
insert_oldest e (d ∷ entries) =
    let rest = insert_oldest e entries in
    if leb e.last_used_at d.last_used_at then e ∷ d ∷ entries else d ∷ rest

oldest_first : List CacheEntry → List CacheEntry
unfolding insert_oldest
oldest_first [] = []
oldest_first (e ∷ entries) = insert_oldest e (oldest_first entries)

-- `ListLRU`
unfoldable pub list_lru : List CacheEntry → ℕ → List CacheEntry
unfolding oldest_first
list_lru entries limit = take limit (oldest_first entries)

-- `Stats`
unfoldable pub stats : List CacheEntry → ℕ × ℕ
unfolding total_size
stats entries = (total_size entries, length entries)

-- `buildCachePath`
unfoldable pub build_cache_path : Text → Text → Text → Text
unfolding path_base text_eq
build_cache_path source_id version original_path =
    let base = path_base original_path in
    let filename =
      if is_nil base || text_eq base (codes ".")
      then source_id ++ (codes "-" ++ (version ++ codes ".tar.gz"))
      else base in
    codes "cache/artifacts/" ++ (source_id ++ (codes "/" ++ (version ++ (codes "/" ++ filename))))

-- What is left of the rows, and the keys that were deleted in the storage.
abbrev pub Evicted : Type 0
Evicted = List CacheEntry × List Text

-- The inner loop of `evict` over a batch: whether it returned.
unfoldable pub evict_batch : ℕ → List CacheEntry → Evicted → Bool × Evicted
unfolding delete_row total_size
evict_batch max_bytes [] state = (false, state)
evict_batch max_bytes (e ∷ batch) (entries, deleted) =
    let rest = delete_row entry_key e.id entries in
    let state : Evicted = (rest, deleted ++ e.cache_path ∷ []) in
    let later = evict_batch max_bytes batch state in
    if leb (total_size rest) max_bytes then (true, state) else later

-- The outer loop, with the rounds that it may still make.
unfoldable pub evict_loop : ℕ → ℕ → Evicted → Option Evicted
unfolding evict_batch list_lru total_size
evict_loop zero max_bytes state = none
evict_loop (suc n) max_bytes (entries, deleted) =
    let batch = list_lru entries 5 in
    let (done, state) = evict_batch max_bytes batch (entries, deleted) in
    let later = evict_loop n max_bytes state in
    if leb (total_size entries) max_bytes || is_nil batch
    then some (entries, deleted)
    else if done
    then some state
    else later

-- `evict`; none if the loop did not end in as many rounds as there are rows, and one more.
unfoldable pub evict : CacheConfig → List CacheEntry → Option Evicted
unfolding evict_loop
evict config entries =
    if config.max_size_gb == 0
    then some (entries, [])
    else evict_loop (length entries + 1) (config.max_size_gb * 1073741824) (entries, [])

-- What the cache asks of the storage: whether a key exists (none is an error), and whether a copy of a
-- key to a key succeeds.
pub record Storage : Type 0 where
  pub exists : Text → Option Bool
  pub copies : Text → Text → Bool

-- The answer of the storage for a row: a row without its artifact is removed.
looked_up : List CacheEntry → ℕ → CacheEntry → Option Bool → List CacheEntry × Option CacheEntry
unfolding delete_row touch_last_used
looked_up entries now entry none = (entries, none)
looked_up entries now entry (some false) = (delete_row entry_key entry.id entries, none)
looked_up entries now entry (some true) = (touch_last_used entries now entry.id, some entry)

-- `Lookup`
unfoldable pub lookup :
    CacheConfig → Storage → List CacheEntry → ℕ → Text → Text → List CacheEntry × Option CacheEntry
unfolding cached looked_up
lookup config storage entries now source_id version =
    if not config.enabled then (entries, none) else elim (cached entries source_id version) [
      | none ↦ (entries, none)
      | some entry ↦ looked_up entries now entry (storage.exists entry.cache_path)
    ]

-- What `evict` leaves of the rows.
rows_left : List CacheEntry → Option Evicted → List CacheEntry
rows_left entries none = entries
rows_left entries (some (left, deleted)) = left

-- `Store`: the rows that it leaves, for a fresh id and the time.
unfoldable pub store :
    CacheConfig
    → Storage
    → List CacheEntry
    → Text
    → ℕ
    → Text
    → Text
    → Text
    → Text
    → ℕ
    → List CacheEntry
unfolding cached touch_last_used build_cache_path create_entry evict rows_left
store config storage entries fresh_id now source_id version artifact_path checksum size_bytes =
    let cache_path = build_cache_path source_id version artifact_path in
    let created = create_entry entries fresh_id now record {
      id = [];
      source_id = source_id;
      version = version;
      checksum = checksum;
      cache_path = cache_path;
      size_bytes = size_bytes;
      content_type = [];
      resolved_url = artifact_path;
      last_used_at = now;
      use_count = 0;
    } in
    if not config.enabled then entries else elim (cached entries source_id version) [
      | some existing ↦ touch_last_used entries now existing.id
      | none ↦ if not (storage.copies artifact_path cache_path) then entries else elim created [
        | none ↦ entries
        | some entries' ↦ rows_left entries' (evict config entries')
      ]
    ]
