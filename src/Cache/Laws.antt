-- ===== src/Cache/Laws.antt =====
-- What the clients of a cache rely on, and that the Redis cache gives it.
use estrys.Common.{String, str_eq, [], if◌then◌else◌, List, ◌≡◌, refl, arith, ℕ}
use estrys.Outcome.{match_call, ◌>>=◌, Result, ok, panic, wrap, err, cache_miss, wrap_result}
use estrys.Outcome.Errors.{is_redis_nil}
use estrys.Ports.{Cache}
use estrys.Cache.{CacheOption, RedisClient, Codec, timeout_from, set, get, create_redis_cache}

-- A read leaves the state alone, and after a write that succeeded its key reads the value, every
-- other key what it read before.
pub record IsLawful {W T : Type 0} (cache : Cache W T) : Type 0 where
  pub get_state : (key : String) (w : W) → (cache.get key w).1 ≡ w
  pub get-set :
      (k j : String) (v : T) (w : W)
      → (cache.set k v w).0 ≡ ok tt
      → (cache.get j (cache.set k v w).1).0 ≡ (if str_eq k j then ok v else (cache.get j w).0)

-- What the Redis server does for the commands GET and SET, while no key expires and it answers.
pub record IsRedis {W : Type 0} (client : RedisClient W) : Type 0 where
  pub get_state : (key : String) (w : W) → (client.get key w).1 ≡ w
  pub get-set :
      (k j text : String) (ttl : ℕ) (w : W)
      → (client.get j (client.set k text ttl w)).0
        ≡ (if str_eq k j then ok text else (client.get j w).0)

-- A value that is encoded is decoded to itself.
pub record IsCodec {T : Type 0} (codec : Codec T) : Type 0 where
  pub unmarshal-marshal :
      (v : T) (text : String) → codec.marshal v ≡ ok text → codec.unmarshal text ≡ ok v

-- The value that a stored text stands for.
read_answer : {T : Type 0} → Codec T → Result String → Result T
read_answer codec (ok text) =
    wrap_result "unable to deserialize cached value" (codec.unmarshal text)
read_answer codec (err e) =
    if is_redis_nil e then err cache_miss else err (wrap "redis get key error" e)
read_answer codec (panic why) = panic why

module _ {W T : Type 0} (client : RedisClient W) (codec : Codec T)
    (defaults : List CacheOption) where
  -- A read of the cache is the server's answer, decoded.
  get_lem :
      (key : String) (w : W)
      → get client codec defaults key w
        ≡ (read_answer codec (client.get key w).0, (client.get key w).1)
  unfolding get read_answer match_call
  get_lem key w = ground arith

  set_lem :
      (key text : String) (v : T) (w : W)
      → codec.marshal v ≡ ok text
      → set client codec defaults key v [] w
        ≡ (ok tt, client.set key text (timeout_from 0 defaults) w)
  unfolding set ◌>>=◌ timeout_from
  set_lem key text v w e = rw e refl

  marshal_of_set :
      (key : String) (v : T) (w : W)
      → (set client codec defaults key v [] w).0 ≡ ok tt
      → (text : String) × (codec.marshal v ≡ ok text)
  unfolding set ◌>>=◌
  marshal_of_set key v w done = go (codec.marshal v) refl
    where
      go : (r : Result String) → codec.marshal v ≡ r → (text : String) × (codec.marshal v ≡ ok text)
      go (ok text) e = (text, e)
      go (err why) e = cc (rw e at done)
      go (panic why) e = cc (rw e at done)

  get-set_lem :
      (k j : String) (v : T) (w : W)
      → IsRedis client
      → IsCodec codec
      → (set client codec defaults k v [] w).0 ≡ ok tt
      → (get client codec defaults j (set client codec defaults k v [] w).1).0
        ≡ (if str_eq k j then ok v else (get client codec defaults j w).0)
  unfolding read_answer
  get-set_lem k j v w redis exact done =
      let (text, e) = marshal_of_set k v w done in
      rw (set_lem k text v w e, get_lem, get_lem j w, redis.get-set)
        (ground (arith, exact.unmarshal-marshal v text e))

  -- Over a Redis server that answers and an exact codec, the cache is lawful: a read changes
  -- nothing, and after a write that succeeded its key reads the value and every other key what it
  -- read before.
  pub create_redis_cache-IsLawful :
      IsRedis client → IsCodec codec → IsLawful (create_redis_cache client codec defaults)
  unfolding create_redis_cache
  create_redis_cache-IsLawful redis exact = record {
    get_state = λ key w. rw get_lem (redis.get_state key w);
    get-set = λ k j v w done. get-set_lem k j v w redis exact done;
  }
