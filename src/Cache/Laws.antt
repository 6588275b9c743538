-- ===== src/Cache/Laws.antt =====
-- internal/data/cache.go: what is relied on of the JSON form of the cached values.
use quota_lane.Prelude.{◌≡◌, Bytes, some}
use quota_lane.Cache.{Codec}

-- What is encoded is decoded.
pub record IsCodec {A : Type 0} (codec : Codec A) : Type 0 where
  pub decode-encode : (x : A) (b : Bytes) → codec.encode x ≡ some b → codec.decode b ≡ some x
