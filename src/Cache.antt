-- ===== src/Cache.antt =====
-- internal/data/cache.go: the cache of JSON values over Redis. A nil client is `none`.
pub mod Laws
use quota_lane.Prelude.{ℕ, String, Bytes, Bool, Option, none, some, List, [], ◌∷◌, ltb, ◌*◌}
use Prim.Native.String.{◌++◌}
use quota_lane.Prelude.Effect.{
  Error, message, wrapped, Result, ok, err, panic, M, pure, fail, panics, ◌>>=◌, wrap, attempt,
}
use quota_lane.Redis.{Redis, Key, Value, int, text, minute, hour}

-- `json.Marshal` and `json.Unmarshal` at one type.
pub record Codec (A : Type 0) : Type 0 where
  pub encode : A → Option Bytes
  pub decode : Bytes → Option A

-- `TTLAccount`, `TTLUser`, `TTLSession`, `TTLSticky`, `TTLRate` and `TTLPlan`
abbrev pub ttl_account : ℕ
ttl_account = 5 * minute

abbrev pub ttl_user : ℕ
ttl_user = 5 * minute

abbrev pub ttl_session : ℕ
ttl_session = 24 * hour

abbrev pub ttl_sticky : ℕ
ttl_sticky = 1 * hour

abbrev pub ttl_rate : ℕ
ttl_rate = 1 * minute

abbrev pub ttl_plan : ℕ
ttl_plan = 10 * minute

-- `ErrCacheNotFound`
abbrev pub err_cache_not_found : Error
err_cache_not_found = message "cache: key not found"

module _ {S : Type 0} where
  abbrev client_or_error : {A : Type 0} → Option (Redis S) → (Redis S → M S A) → M S A
  client_or_error none f = fail (message "cache: redis client is nil")
  client_or_error (some rdb) f = f rdb

  abbrev decoded : {A : Type 0} → Option A → M S A
  decoded none = fail (message "cache: failed to unmarshal value")
  decoded (some x) = pure x

  -- What `Get` makes of the reply. The text of a number is no JSON of a record.
  abbrev pub from_reply : {A : Type 0} → Codec A → Option Value → M S A
  from_reply codec none = fail err_cache_not_found
  from_reply codec (some (int n)) = fail (message "cache: failed to unmarshal value")
  from_reply codec (some (text b)) = decoded (codec.decode b)

  unfoldable pub get : {A : Type 0} → Option (Redis S) → Codec A → Key → M S A
  unfolding wrap
  get client codec key =
      client_or_error client
        λ rdb. wrap "cache: failed to get key" (rdb.get key) >>= from_reply codec

  abbrev store_encoded : Redis S → Key → ℕ → Option Bytes → M S (Unit {0})
  unfolding wrap
  store_encoded rdb key ttl none = fail (message "cache: failed to marshal value")
  store_encoded rdb key ttl (some b) = wrap "cache: failed to set key" (rdb.set key (text b) ttl)

  unfoldable pub set : {A : Type 0} → Option (Redis S) → Codec A → Key → A → ℕ → M S (Unit {0})
  unfolding wrap
  set client codec key value ttl =
      client_or_error client λ rdb. store_encoded rdb key ttl (codec.encode value)

  unfoldable pub delete : Option (Redis S) → Key → M S (Unit {0})
  unfolding wrap
  delete client key =
      client_or_error client λ rdb. wrap "cache: failed to delete key" (rdb.del (key ∷ []))

  unfoldable pub exists : Option (Redis S) → Key → M S Bool
  unfolding wrap
  exists client key = client_or_error client λ rdb.
      wrap "cache: failed to check existence of key" (rdb.exists key) >>= λ count.
      pure (ltb 0 count)

-- `BuildCacheKey`
unfoldable pub build_cache_key : String → List String → String
build_cache_key prefix [] = prefix
build_cache_key prefix (part ∷ parts) = build_cache_key (prefix ++ (":" ++ part)) parts
