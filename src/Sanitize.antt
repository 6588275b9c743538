-- ===== src/Sanitize.antt =====
-- pkg/log/sanitize.go: masking of sensitive log fields. A text is the list of its bytes.
pub mod Laws
use quota_lane.Prelude.{
  ℕ, zero, suc, ◌+◌, ◌-◌, ◌/◌, ◌%◌, Bool, true, false, ◌&&◌, ◌||◌, Option, none, some, List, [],
  ◌∷◌, ◌++◌, codes, is_empty, map, length, take, drop, replicate, leb, ltb, ◌==◌, if◌then◌else◌,
}

abbrev pub star : ℕ
star = b'*'

abbrev pub at_sign : ℕ
at_sign = b'@'

-- `string(b)` of a byte: the UTF-8 text of the code point with that number, which is two bytes from
-- 128 on.
abbrev pub char_text : ℕ → List ℕ
char_text b = if ltb b 128 then b ∷ [] else (192 + b / 64) ∷ (128 + b % 64) ∷ []

abbrev pub first_char : List ℕ → List ℕ
first_char [] = []
first_char (b ∷ bs) = char_text b

-- `sanitizeToken`
unfoldable pub sanitize_token : List ℕ → List ℕ
sanitize_token value =
    if leb (length value) 8
    then if leb (length value) 2
      then replicate (length value) star
      else first_char (take 1 value)
        ++ (replicate (length value - 2) star ++ first_char (drop (length value - 1) value))
    else take 4 value ++ (replicate (length value - 8) star ++ drop (length value - 4) value)

-- `strings.Split(value, "@")`: the first part and the rest of the parts.
abbrev push : ℕ → List (List ℕ) → List (List ℕ)
push c [] = (c ∷ []) ∷ []
push c (part ∷ parts) = (c ∷ part) ∷ parts

unfoldable pub split : List ℕ → List (List ℕ)
split [] = [] ∷ []
split (c ∷ cs) = let parts = split cs in if c == at_sign then [] ∷ parts else push c parts

abbrev mask_parts : ℕ → List (List ℕ) → List ℕ
mask_parts n (local ∷ domain ∷ []) =
    if leb (length local) 3
    then if length local == 0
      then at_sign ∷ domain
      else first_char (take 1 local) ++ (replicate (length local - 1) star ++ (at_sign ∷ domain))
    else take 3 local ++ (star ∷ star ∷ star ∷ at_sign ∷ domain)
mask_parts n _ = replicate n star

-- `sanitizeEmail`
unfoldable pub sanitize_email : List ℕ → List ℕ
sanitize_email value = mask_parts (length value) (split value)

-- `strings.Contains`, by `strings.HasPrefix` at each position.
unfoldable pub starts_with : List ℕ → List ℕ → Bool
starts_with text [] = true
starts_with [] (k ∷ ks) = false
starts_with (c ∷ cs) (k ∷ ks) = let rest = starts_with cs ks in c == k && rest

unfoldable pub includes : List ℕ → List ℕ → Bool
includes [] part = starts_with [] part
includes (c ∷ cs) part = let rest = includes cs part in starts_with (c ∷ cs) part || rest

unfoldable pub any_keyword : List ℕ → List (List ℕ) → Bool
any_keyword key [] = false
any_keyword key (keyword ∷ keywords) =
    let rest = any_keyword key keywords in includes key keyword || rest

abbrev sensitive_keywords : List (List ℕ)
sensitive_keywords =
    codes "password"
    ∷ codes "passwd"
    ∷ codes "pwd"
    ∷ codes "api_key"
    ∷ codes "apikey"
    ∷ codes "api-key"
    ∷ codes "token"
    ∷ codes "access_token"
    ∷ codes "refresh_token"
    ∷ codes "secret"
    ∷ codes "auth"
    ∷ codes "authorization"
    ∷ codes "credential"
    ∷ codes "private_key"
    ∷ codes "privatekey"
    ∷ []

-- `SanitizeField`. A key is ASCII, and `strings.ToLower` maps its bytes.
abbrev lower_key : List ℕ → List ℕ
lower_key = map (λ c. if leb b'A' c && leb c b'Z' then c + 32 else c)

unfoldable pub sanitize_field : List ℕ → List ℕ → List ℕ
sanitize_field key value =
    let lower = lower_key key in
    if is_empty value
    then value
    else if includes lower (codes "email") || includes lower (codes "mail")
    then sanitize_email value
    else if any_keyword lower sensitive_keywords
    then sanitize_token value
    else value
