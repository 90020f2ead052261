-- ===== src/Cache.antt =====
-- internal/cache/redis.go: a cache of values in Redis. The Redis client and the msgpack codec are
-- parameters; spans are left out.
pub mod Laws
use estrys.Common.{String, ℕ, Bool, if◌then◌else◌, List, [], ◌∷◌}
use estrys.Outcome.{
  Error, Result, ok, err, cache_miss, Action, wrap, pure, fail, lift, wrapping, match_call, ◌>>=◌,
  ◌>>◌,
}
use estrys.Outcome.Errors.{is_redis_nil}
use estrys.Ports.{Cache}

-- `Option`: the code looks for the values of type `OptionDefaultTTL`
pub data CacheOption : Type 0 where
  default_ttl : ℕ → CacheOption
  other_option : CacheOption

-- The client of the Redis server; the error of `Set` is not read by the program.
pub record RedisClient (W : Type 0) : Type 0 where
  pub get : String → Action W String
  pub set : String → String → ℕ → W → W

-- `msgpack.Marshal` and `msgpack.Unmarshal`
pub record Codec (T : Type 0) : Type 0 where
  pub marshal : T → Result String
  pub unmarshal : String → Result T

-- One loop over options: the last time to live is the one that counts.
unfoldable pub timeout_from : ℕ → List CacheOption → ℕ
timeout_from timeout [] = timeout
timeout_from timeout (default_ttl t ∷ options) = timeout_from t options
timeout_from timeout (other_option ∷ options) = timeout_from timeout options

module _ {W T : Type 0} (client : RedisClient W) (codec : Codec T)
    (defaults : List CacheOption) where
  send : String → String → ℕ → Action W (Unit {0})
  send key text timeout w = (ok tt, client.set key text timeout w)

  unfoldable pub set : String → T → List CacheOption → Action W (Unit {0})
  unfolding send
  set key v options = do
    text ← wrapping "unable to serialize cache value using msgpack" (lift (codec.marshal v))
    send key text (timeout_from (timeout_from 0 defaults) options)

  unfoldable pub get : String → Action W T
  get key =
      match_call (client.get key)
        (λ item. wrapping "unable to deserialize cached value" (lift (codec.unmarshal item)))
        λ e. if is_redis_nil e then fail cache_miss else fail (wrap "redis get key error" e)

  unfoldable pub create_redis_cache : Cache W T
  create_redis_cache = record { get = get; set = λ key v. set key v [] }
