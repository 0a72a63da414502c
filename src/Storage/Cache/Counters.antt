-- ===== src/Storage/Cache/Counters.antt =====
-- What the counters of the cache say.
use vectorless.Base.{◌≡◌, true, Option, Result}
use vectorless.Storage.Cache.{
  LruCache, DocumentCache, CacheError, found_some, get, contains, put, len,
}

module _ {Cache DocId Doc : Type 0} (lru : LruCache Cache DocId Doc) where
  -- What the cache relies on in lru: putting returns the value that a lookup of the same key finds,
  -- a key is there when a lookup finds a value, and replacing a value keeps the length.
  pub record PutLaws : Type 0 where
    pub replaced : (k : DocId) (d : Doc) (s : Cache) → (lru.put k d s).0 ≡ (lru.get k s).0
    pub found : (k : DocId) (s : Cache) → found_some (lru.get k s).0 ≡ lru.contains k s
    pub kept_length :
        (k : DocId) (d : Doc) (s : Cache)
        → lru.contains k s ≡ true
        → lru.len (lru.put k d s).1 ≡ lru.len s

  abbrev Answer : Type 0
  Answer = Result (Option Doc) CacheError × DocumentCache Cache
