-- ===== src/Http/Valid.antt =====
-- What `ParseUrl` of src/http.cpp lets through.
use goradio_samp.Base.{
  ℕ, ◌≤◌, ◌≡◌, ◌≢◌, ◌⊎◌, inl, inr, refl, ap, true, false, [], ◌∷◌, Bytes, arith, Bool-cases,
  Option-cases, is_empty, codes, equal, equal_iff, strip_end, find_text,
}
use goradio_samp.Base.Int.{ℤ, pos, negsuc}
use goradio_samp.Clib.{Platform}
use goradio_samp.Http.Url.{
  Url, Outcome, ok, err, http, https, split_scheme, split_path, split_port, unbracket, check_url,
  parse_authority, parse_url, is_port, is_slack, default_port,
}

-- One of the two schemes, a host, and a port that can be dialled.
abbrev pub IsUsable : Url → Type 0
IsUsable u =
    ((n : ℕ) × (u.port ≡ pos n) × (1 ≤ n) × (n ≤ 65535))
    × (u.host ≢ [])
    × ((u.scheme ≡ http) ⊎ (u.scheme ≡ https))

check_url-ok :
    (u v : Url) → check_url u ≡ ok v → (v ≡ u) × (is_empty u.host ≡ false) × (is_port u.port ≡ true)
unfolding check_url
check_url-ok u v h = elim (Bool-cases (is_empty u.host)) [
  | inl e ↦ ground (arith, e, h)
  | inr e ↦ elim (Bool-cases (is_port u.port)) [
    | inl f ↦ (ground (arith, e, f, h), e, f)
    | inr f ↦ ground (arith, e, f, h)
  ]
]

split_scheme-ok :
    (s scheme rest : Bytes)
    → split_scheme s ≡ ok (scheme, rest)
    → (scheme ≡ http) ⊎ (scheme ≡ https)
unfolding split_scheme
split_scheme-ok s scheme rest h = elim (Option-cases (find_text (codes "://") s)) [
  | inl e ↦ inl (ground (arith, e, h))
  | inr ((a, b), e) ↦ elim (Bool-cases (equal a http)) [
    | inl f ↦ inl (ground (arith, e, f, h, equal_iff a http))
    | inr f ↦ elim (Bool-cases (equal a https)) [
      | inl g ↦ inr (ground (arith, e, f, g, h, equal_iff a https))
      | inr g ↦ ground (arith, e, f, g, h)
    ]
  ]
]

Outcome-cases {ℓ} :
    {A : Type ℓ} (o : Outcome A) → ((a : A) × (o ≡ ok a)) ⊎ ((e : Bytes) × (o ≡ err e))
Outcome-cases (ok a) = inl (a, refl)
Outcome-cases (err e) = inr (e, refl)

is_empty-full : (s : Bytes) → is_empty s ≡ false → s ≢ []
is_empty-full [] h = ground (arith, h)
is_empty-full (c ∷ s) h = λ e. ground (arith, e)

is_port-range : (z : ℤ) → is_port z ≡ true → (n : ℕ) × (z ≡ pos n) × (1 ≤ n) × (n ≤ 65535)
is_port-range (pos n) h = (n, refl, ground (arith, h), ground (arith, h))
is_port-range (negsuc n) h = ground (arith, h)

parse_authority-ok :
    (p : Platform) (scheme rest : Bytes) (u : Url)
    → parse_authority p scheme rest ≡ ok u
    → (u.scheme ≡ scheme) × (is_empty u.host ≡ false) × (is_port u.port ≡ true)
unfolding parse_authority
parse_authority-ok p scheme rest u h =
    let (hostport, path) = split_path rest in
    let (port, host) = split_port p (default_port scheme) hostport in
    let made : Url = record {
      scheme = scheme;
      host = unbracket host;
      port = port;
      base_path = path;
    } in
    let (same, full, good) = check_url-ok made u h in
    (ap (λ v. v.scheme) same, rw (ap (λ v. v.host) same) full, rw (ap (λ v. v.port) same) good)

-- Every URL that `ParseUrl` accepts has a port from 1 to 65535, a host that is not empty, and http
-- or https for its scheme.
pub parse_url-IsUsable :
    (p : Platform) (input : Bytes) (u : Url) → parse_url p input ≡ ok u → IsUsable u
unfolding parse_url
parse_url-IsUsable p input u h = elim (Bool-cases (is_empty (strip_end is_slack input))) [
  | inl e ↦ ground (arith, e, h)
  | inr e ↦ elim (Outcome-cases (split_scheme (strip_end is_slack input))) [
    | inr (t, f) ↦ ground (arith, e, f, h)
    | inl ((scheme, rest), f) ↦
        let (same, full, good) = parse_authority-ok p scheme rest u (ground (arith, e, f, h)) in
        (
          is_port-range u.port good,
          is_empty-full u.host full,
          rw (same) (split_scheme-ok (strip_end is_slack input) scheme rest f),
        )
  ]
]
