-- ===== src/Storage/Cache.antt =====
-- The cache of loaded documents: `DocumentCache` of crates/vectorless-storage/src/cache.rs.
--
-- The crate lru is the interface `LruCache`, a document and an id are types. A lock is poisoned
-- once a thread panics while it holds it; the counters have 64 bits and wrap around.
pub mod Counters
use vectorless.Base.{
  ℕ, suc, ◌+◌, ◌%◌, ◌<◌, ◌≤◌, ◌≡◌, Bool, true, false, ◌||◌, List, Option, none, some, Result, ok,
  err, leb, ◌==◌, max, if◌then◌else◌,
}

-- What the cache calls of `LruCache`.
pub record LruCache (Cache DocId Doc : Type 0) : Type 0 where
  pub get : DocId → Cache → Option Doc × Cache
  pub contains : DocId → Cache → Bool
  pub put : DocId → Doc → Cache → Option Doc × Cache
  pub pop : DocId → Cache → Option Doc × Cache
  pub clear : Cache → Cache
  pub len : Cache → ℕ

pub record DocumentCache (Cache : Type 0) : Type 0 where
  pub inner : Cache
  pub poisoned : Bool
  pub capacity : ℕ
  pub hits : ℕ
  pub misses : ℕ
  pub evictions : ℕ

pub data CacheError : Type 0 where
  lock_poisoned : CacheError

-- `AtomicU64::fetch_add(1)`
abbrev pub fetch_add_one : ℕ → ℕ
fetch_add_one n = (n + 1) % 18446744073709551616

abbrev pub found_some {ℓ} : {A : Type ℓ} → Option A → Bool
found_some none = false
found_some (some a) = true

module _ {Cache DocId Doc : Type 0} (lru : LruCache Cache DocId Doc) where
  -- `with_capacity`, with the new cache that lru makes for a capacity
  abbrev pub with_capacity : (ℕ → Cache) → ℕ → DocumentCache Cache
  with_capacity new capacity = record {
    inner = new (max capacity 1);
    poisoned = false;
    capacity = max capacity 1;
    hits = 0;
    misses = 0;
    evictions = 0;
  }

  -- `self.lock()?` in front of an operation.
  abbrev pub locked {ℓ} :
      {A : Type ℓ}
      → DocumentCache Cache
      → A × DocumentCache Cache
      → Result A CacheError × DocumentCache Cache
  locked c (a, d) = if c.poisoned then (err lock_poisoned, c) else (ok a, d)

  -- The counter of a lookup.
  abbrev pub count_lookup : Option Doc → DocumentCache Cache → DocumentCache Cache
  count_lookup none c = record c { misses = fetch_add_one c.misses }
  count_lookup (some d) c = record c { hits = fetch_add_one c.hits }

  unfoldable pub get :
      DocumentCache Cache → DocId → Result (Option Doc) CacheError × DocumentCache Cache
  get c id =
      let (o, inner) = lru.get id c.inner in
      locked c (o, count_lookup o (record c { inner = inner }))

  unfoldable pub contains : DocumentCache Cache → DocId → Bool
  contains c id = if c.poisoned then false else lru.contains id c.inner

  abbrev pub count_eviction : Option Doc → Bool → DocumentCache Cache → DocumentCache Cache
  count_eviction evicted was_full c =
      if found_some evicted || was_full
      then record c { evictions = fetch_add_one c.evictions }
      else c

  unfoldable pub put :
      DocumentCache Cache → DocId → Doc → Result (Option Doc) CacheError × DocumentCache Cache
  put c id doc =
      let was_full = leb c.capacity (lru.len c.inner) in
      let (evicted, inner) = lru.put id doc c.inner in
      locked c (evicted, count_eviction evicted was_full (record c { inner = inner }))

  unfoldable pub remove :
      DocumentCache Cache → DocId → Result (Option Doc) CacheError × DocumentCache Cache
  remove c id = let (o, inner) = lru.pop id c.inner in locked c (o, record c { inner = inner })

  unfoldable pub clear_all :
      DocumentCache Cache → Result (Unit {0}) CacheError × DocumentCache Cache
  clear_all c = locked c (tt, record c { inner = lru.clear c.inner })

  unfoldable pub len : DocumentCache Cache → ℕ
  len c = if c.poisoned then 0 else lru.len c.inner

  abbrev pub reset_metrics : DocumentCache Cache → DocumentCache Cache
  reset_metrics c = record c { hits = 0; misses = 0; evictions = 0 }
