-- ===== src/Storage/CacheTests.antt =====
-- A cache with room for one document.
use vectorless.Base.{ℕ, Bool, false, Option, none, some, ◌==◌, if◌then◌else◌}
use vectorless.Storage.Cache.{LruCache, DocumentCache, get, contains, len, put}

abbrev Slot : Type 0
Slot = Option (ℕ × ℕ)

abbrev holds : ℕ → Slot → Bool
holds id none = false
holds id (some (i, d)) = i == id

abbrev value : Slot → Option ℕ
value none = none
value (some (i, d)) = some d

abbrev one : LruCache Slot ℕ ℕ
one = record {
  get = λ id s. (if holds id s then value s else none, s);
  contains = holds;
  put = λ id doc s. (if holds id s then value s else none, some (id, doc));
  pop = λ id s. if holds id s then (value s, none) else (none, s);
  clear = λ s. none;
  len = λ s. elim s [ none ↦ 0 | some e ↦ 1 ];
}

abbrev cache : DocumentCache Slot
cache = record {
  inner = some (3, 10);
  poisoned = false;
  capacity = 1;
  hits = 0;
  misses = 0;
  evictions = 4;
}
