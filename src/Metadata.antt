-- ===== src/Metadata.antt =====
-- pkg/metadata/metadata.go: the metadata of an account, its validation and its masking.
pub mod Laws
use quota_lane.Prelude.{
  ℕ, String, Bytes, codes, is_empty, bytes_eq, Bool, true, false, not, ◌&&◌, ◌||◌, Option, none,
  some, List, [], ◌∷◌, ◌++◌, map, ltb, length, if◌then◌else◌,
}
use quota_lane.Prelude.Effect.{
  Error, message, wrapped, backend, Result, ok, err, panic, wrap_result,
}
use quota_lane.Cache.{Codec}
use quota_lane.DbErrors.{to_lower}

-- `AccountMetadata`
pub record AccountMetadata : Type 0 where
  pub proxy_url : Bytes
  pub proxy_enabled : Bool
  pub region : Bytes
  pub tags : List Bytes
  pub notes : Bytes
  pub custom_base_url : Bytes

abbrev pub empty_metadata : AccountMetadata
empty_metadata = record {
  proxy_url = [];
  proxy_enabled = false;
  region = [];
  tags = [];
  notes = [];
  custom_base_url = [];
}

-- The user information of a `url.URL`; a password may be absent.
pub record Userinfo : Type 0 where
  pub username : Bytes
  pub password : Option Bytes

-- The fields of a `url.URL` that the code reads.
pub record Url : Type 0 where
  pub scheme : Bytes
  pub user : Option Userinfo
  pub host : Bytes
  pub path : Bytes
  pub raw_query : Bytes
  pub fragment : Bytes

abbrev no_tags : List Bytes → Bool
no_tags [] = true
no_tags (t ∷ ts) = false

-- `IsEmpty`
unfoldable pub has_no_values : AccountMetadata → Bool
has_no_values m =
    is_empty m.proxy_url
    && not m.proxy_enabled
    && is_empty m.region
    && no_tags m.tags
    && is_empty m.notes
    && is_empty m.custom_base_url

abbrev pub parsed_or_error : Option AccountMetadata → Result AccountMetadata
parsed_or_error none = err (wrapped "failed to parse metadata JSON" (backend "json"))
parsed_or_error (some m) = ok m

-- `Parse`
unfoldable pub parse : Codec AccountMetadata → Bytes → Result AccountMetadata
parse codec [] = ok empty_metadata
parse codec (c ∷ cs) = parsed_or_error (codec.decode (c ∷ cs))

abbrev or_empty : Option Bytes → Bytes
or_empty none = []
or_empty (some b) = b

-- `String`
unfoldable pub to_text : Codec AccountMetadata → AccountMetadata → Bytes
to_text codec m = if has_no_values m then [] else or_empty (codec.encode m)

-- `if err != nil { return err }` before the next check.
infixr 30 ◌then_check◌
abbrev pub ◌then_check◌ : Result (Unit {0}) → Result (Unit {0}) → Result (Unit {0})
(ok _) then_check r = r
(err e) then_check r = err e
panic then_check r = panic

abbrev pub check_that : Bool → String → Result (Unit {0})
check_that b text = if b then ok tt else err (message text)

abbrev is_proxy_scheme : Bytes → Bool
is_proxy_scheme scheme =
    bytes_eq scheme (codes "socks5")
    || bytes_eq scheme (codes "socks5h")
    || bytes_eq scheme (codes "http")
    || bytes_eq scheme (codes "https")

-- The loop over the tags.
unfoldable pub check_tags : List Bytes → Result (Unit {0})
check_tags [] = ok tt
check_tags (tag ∷ tags) =
    let rest = check_tags tags in
    check_that (not (ltb 50 (length tag))) "tag[%d] too long: max 50 characters, got %d"
    then_check (check_that (not (is_empty tag)) "tag[%d] is empty" then_check rest)

-- `url_parse` is `url.Parse`.
module _ (url_parse : Bytes → Option Url) where
  abbrev proxy_or_error : Option Url → Result (Unit {0})
  proxy_or_error none = err (backend "url")
  proxy_or_error (some url) =
      check_that (is_proxy_scheme (map to_lower url.scheme)) "unsupported proxy scheme: %s"

  -- `validateProxyURL`
  unfoldable pub validate_proxy_url : Bytes → Result (Unit {0})
  validate_proxy_url proxy_url = proxy_or_error (url_parse proxy_url)

  abbrev base_or_error : Option Url → Result (Unit {0})
  base_or_error none = err (wrapped "invalid custom_base_url" (backend "url"))
  base_or_error (some url) =
      check_that (bytes_eq url.scheme (codes "https"))
        "custom_base_url must use HTTPS scheme, got: %s"

  -- `Validate`
  unfoldable pub validate : AccountMetadata → Result (Unit {0})
  validate m =
      (if is_empty m.proxy_url
        then ok tt
        else wrap_result "invalid proxy_url" (validate_proxy_url m.proxy_url))
      then_check ((if is_empty m.custom_base_url
            then ok tt
            else base_or_error (url_parse m.custom_base_url))
          then_check (check_that (not (ltb 10 (length m.tags)))
                "too many tags: max 10 allowed, got %d"
              then_check (check_tags m.tags
                  then_check check_that (not (ltb 500 (length m.notes)))
                      "notes too long: max 500 characters, got %d")))

  abbrev with_mark : String → Bytes → Bytes
  with_mark mark [] = []
  with_mark mark (c ∷ cs) = codes mark ++ (c ∷ cs)

  abbrev masked_url : Url → Bytes → Bytes
  masked_url url username =
      url.scheme
      ++ (codes "://"
          ++ (username
              ++ (codes ":***@"
                  ++ (url.host
                      ++ (url.path
                          ++ (with_mark "?" url.raw_query ++ with_mark "#" url.fragment))))))

  abbrev by_password : Bytes → Url → Bytes → Option Bytes → Bytes
  by_password original url username none = original
  by_password original url username (some []) = original
  by_password original url username (some (c ∷ cs)) = masked_url url username

  abbrev by_user : Bytes → Url → Option Userinfo → Bytes
  by_user original url none = original
  by_user original url (some user) = by_password original url user.username user.password

  abbrev masked_or_same : Bytes → Option Url → Bytes
  masked_or_same original none = original
  masked_or_same original (some url) = by_user original url url.user

  -- `maskProxyPassword`
  unfoldable pub mask_proxy_password : Bytes → Bytes
  mask_proxy_password proxy_url = masked_or_same proxy_url (url_parse proxy_url)

  -- `MaskSensitive`
  unfoldable pub mask_sensitive : AccountMetadata → AccountMetadata
  mask_sensitive m =
      if is_empty m.proxy_url then m else record m { proxy_url = mask_proxy_password m.proxy_url }
