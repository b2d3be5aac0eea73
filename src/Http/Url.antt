-- ===== src/Http/Url.antt =====
-- `Url` and `ParseUrl`: src/http.h and src/http.cpp.
use goradio_samp.Base.{
  ℕ, Bool, true, false, ◌&&◌, ◌||◌, [], ◌∷◌, ◌++◌, none, some, ◌==◌, within, if◌then◌else◌, Bytes,
  codes, equal, is_empty, split_first, split_last, find_text, strip_end, ltb, leb,
}
use goradio_samp.Base.Int.{ℤ, pos, negsuc}
use goradio_samp.Clib.{Platform, atoi}

pub record Url : Type 0 where
  pub scheme : Bytes
  pub host : Bytes
  pub port : ℤ
  pub base_path : Bytes

-- The outcome of a call that sets `*err` where it fails.
pub data Outcome {ℓ} (A : Type ℓ) : Type ℓ where
  ok : A → Outcome A
  err : Bytes → Outcome A

infixl 5 ◌>>=◌
abbrev pub ◌>>=◌ {ℓ κ} : {A : Type ℓ} {B : Type κ} → Outcome A → (A → Outcome B) → Outcome B
ok a >>= f = f a
err e >>= f = err e

abbrev pub http : Bytes
http = codes "http"

abbrev pub https : Bytes
https = codes "https"

abbrev pub is_secure : Bytes → Bool
is_secure scheme = equal scheme https

abbrev pub is_slack : ℕ → Bool
is_slack c = c == b' ' || c == b'/'

-- The scheme, and what stands behind it.
unfoldable pub split_scheme : Bytes → Outcome (Bytes × Bytes)
split_scheme s = elim (find_text (codes "://") s) [
  | none ↦ ok (http, s)
  | some (scheme, rest) ↦
      if equal scheme http || equal scheme https
      then ok (scheme, rest)
      else err
          (codes "unsupported URL scheme \"" ++ (scheme ++ codes "\" (expected http or https)"))
]

-- The host with its port, and the path from its slash on.
unfoldable pub split_path : Bytes → Bytes × Bytes
split_path s = elim (split_first b'/' s) [
  | none ↦ (s, [])
  | some (hostport, path) ↦ (hostport, b'/' ∷ path)
]

unfoldable pub all_digits : Bytes → Bool
all_digits [] = true
all_digits (c ∷ s) = within b'0' b'9' c && all_digits s

abbrev is_numeric : Bytes → Bool
is_numeric [] = false
is_numeric (c ∷ s) = all_digits (c ∷ s)

abbrev has_bracket : Bytes → Bool
has_bracket s = elim (split_first b']' s) [ none ↦ false | some _ ↦ true ]

-- The port, and the host in front of it. The last colon counts, and only in front of digits.
unfoldable pub split_port : Platform → ℤ → Bytes → ℤ × Bytes
unfolding atoi all_digits
split_port p default hostport = elim (split_last b':' hostport) [
  | none ↦ (default, hostport)
  | some (host, port) ↦
      if has_bracket hostport
      then (default, hostport)
      else if is_numeric port
      then (atoi p port, host)
      else (default, hostport)
]

-- The host without the brackets around it.
unfoldable pub unbracket : Bytes → Bytes
unbracket [] = []
unbracket (c ∷ s) = elim (split_last b']' s) [
  | none ↦ c ∷ s
  | some (host, rest) ↦ if c == b'[' && is_empty rest then host else c ∷ s
]

abbrev pub is_port : ℤ → Bool
is_port (pos n) = ltb 0 n && leb n 65535
is_port (negsuc n) = false

abbrev pub default_port : Bytes → ℤ
default_port scheme = if is_secure scheme then pos 443 else pos 80

-- The two tests at the end.
unfoldable pub check_url : Url → Outcome Url
check_url u =
    if is_empty u.host
    then err (codes "URL has no host")
    else if is_port u.port
    then ok u
    else err (codes "URL has an invalid port")

unfoldable pub parse_authority : Platform → Bytes → Bytes → Outcome Url
unfolding split_path split_port unbracket check_url
parse_authority p scheme rest =
    let (hostport, path) = split_path rest in
    let (port, host) = split_port p (default_port scheme) hostport in
    check_url (record { scheme = scheme; host = unbracket host; port = port; base_path = path })

unfoldable pub parse_url : Platform → Bytes → Outcome Url
unfolding split_scheme parse_authority strip_end split_first split_last find_text
parse_url p input =
    let s = strip_end is_slack input in
    if is_empty s
    then err (codes "empty URL")
    else (do (scheme, rest) ← split_scheme s; parse_authority p scheme rest)
