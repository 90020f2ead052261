-- ===== src/Crypto/Laws.antt =====
-- A key that was fetched is kept.
use estrys.Common.{String, Option, none, some, ◌≡◌, refl, arith}
use estrys.Outcome.{ok, pure}
use estrys.Outcome.Inversion.{bind_done}
use estrys.Models.{PublicKey}
use estrys.Crypto.{KeyServer, KeyDecoder, LruCache, add_key, request_key, cached_or, fetch_key}

-- What the cache gives for the key that was used last: it is there, and reading it changes nothing.
pub record IsLru {W : Type 0} (cache : LruCache W) : Type 0 where
  pub get-add :
      (id : String) (key : PublicKey) (w : W)
      → cache.get id (cache.add id key w) ≡ (some key, cache.add id key w)
  pub get_again :
      (id : String) (key : PublicKey) (w u : W)
      → cache.get id w ≡ (some key, u)
      → cache.get id u ≡ (some key, u)

module _ {W : Type 0} (server : KeyServer W) (decoder : KeyDecoder) (cache : LruCache W)
    (lru : IsLru cache) where
  add_key_cached :
      (id : String) (added key : PublicKey) (w u : W)
      → add_key server decoder cache id added w ≡ (ok key, u)
      → cache.get id u ≡ (some key, u)
  unfolding add_key
  add_key_cached id added key w u h = ground (arith, h, lru.get-add id added w)

  request_key_cached :
      (id : String) (key : PublicKey) (w u : W)
      → request_key server decoder cache id w ≡ (ok key, u)
      → cache.get id u ≡ (some key, u)
  unfolding request_key
  request_key_cached id key w u h =
      let (_, a, _, rest1) = bind_done _ _ w h in
      let (_, b, _, rest2) = bind_done _ _ a rest1 in
      let (_, c, _, rest3) = bind_done _ _ b rest2 in
      let (_, d, _, rest4) = bind_done _ _ c rest3 in
      let (_, e, _, rest5) = bind_done _ _ d rest4 in
      let (added, f, _, rest6) = bind_done _ _ e rest5 in add_key_cached id added key f u rest6

  cached_or_cached :
      (id : String) (found : Option PublicKey) (key : PublicKey) (w v u : W)
      → cache.get id w ≡ (found, v)
      → cached_or server decoder cache id found v ≡ (ok key, u)
      → cache.get id u ≡ (some key, u)
  unfolding cached_or pure
  cached_or_cached id (some k) key w v u e h = ground (arith, h, lru.get_again id k w v e)
  cached_or_cached id none key w v u e h = request_key_cached id key v u h

  -- Over a cache that keeps the key that was used last, a key that was fetched is not requested again:
  -- fetching it once more, from whatever server, gives the same key and changes nothing.
  pub fetch_key_again :
      (again : KeyServer W) (id : String) (key : PublicKey) (w u : W)
      → fetch_key server decoder cache id w ≡ (ok key, u)
      → fetch_key again decoder cache id u ≡ (ok key, u)
  unfolding fetch_key cached_or pure
  fetch_key_again again id key w u h =
      let found = cached_or_cached id (cache.get id w).0 key w (cache.get id w).1 u refl h in
      rw found refl
