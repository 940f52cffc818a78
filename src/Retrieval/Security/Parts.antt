-- ===== src/Retrieval/Security/Parts.antt =====
-- The scheme, host and port of a validated URL by those of the URL.
use web_access_mcp_server.Base.{
  ℕ, ◌⊎◌, inl, inr, Bool-cases, if◌then◌else◌, append_text, ◌==◌, ==_iff, ◌&&◌, ◌≡◌, ◌≢◌, refl, sym,
  ap, ◌∙◌, String, Bool, true, false, not, ◌||◌, Option, none, some, ltb, str_eq, is_some,
  text_length, arith,
}
use web_access_mcp_server.Base.Effects.{ok, and_then-ok}
use web_access_mcp_server.Retrieval.Security.{
  has_char, default_port, invalid_url, SplitUrl, Library, UrlPolicy, invalid_if, blocked_if,
  or_raise, normalize_host, normalized_url, or_default, host_given,
}

-- a test that let the code go on
pub blocked_if-false : (b : Bool) (u : Unit {0}) → blocked_if b ≡ ok u → b ≡ false
blocked_if-false true u h = ground arith
blocked_if-false false u h = refl

pub invalid_if-false : (b : Bool) (u : Unit {0}) → invalid_if b ≡ ok u → b ≡ false
invalid_if-false true u h = ground arith
invalid_if-false false u h = refl

pub true_of_not : (b : Bool) → not b ≡ false → b ≡ true
true_of_not true h = refl
true_of_not false h = ground arith

pub or_raise-some : {A : Type 0} (o : Option A) (a : A) → or_raise invalid_url o ≡ ok a → o ≡ some a
or_raise-some none a h = ground arith
or_raise-some (some b) a h = ground (arith, h)

module _ {Ip Network : Type 0} (lib : Library Ip Network) (policy : UrlPolicy Network) where
  -- the port of a URL: its own, or the one of its scheme
  abbrev pub IsPort : Option ℕ → String → ℕ → Type 0
  IsPort (some own) scheme port = port ≡ own
  IsPort none scheme port =
      ((str_eq scheme "http" ≡ true) × (port ≡ 80))
      ⊎ ((str_eq scheme "https" ≡ true) × (port ≡ 443))

  -- the host of a URL: the name in it, without a zone, in small letters and in its IDNA form
  abbrev pub IsHost : Option String → String → Type 0
  IsHost hostname host =
      (raw : String) × ((hostname ≡ some raw)
        × (str_eq raw "" ≡ false)
        × (has_char b'%' raw ≡ false)
        × ((str_eq (lib.lower (lib.rstrip_dots raw)) ""
              || ltb 253 (text_length (lib.lower (lib.rstrip_dots raw))))
            ≡ false)
        × (lib.idna (lib.lower (lib.rstrip_dots raw)) ≡ some host))

  abbrev bracketed : String → String
  bracketed host = if has_char b':' host then append_text "[" (append_text host "]") else host

  -- the authority of a URL: its host, with its own port where that is not the one of its scheme
  abbrev pub IsAuthority : Option ℕ → String → String → String → Type 0
  IsAuthority none scheme host authority = authority ≡ bracketed host
  IsAuthority (some own) scheme host authority =
      ((own ≡ default_port scheme) × (authority ≡ bracketed host))
      ⊎ ((own ≢ default_port scheme)
          × (authority ≡ append_text (bracketed host) (append_text ":" (lib.str own))))

  pub or_default-IsPort :
      (own : Option ℕ) (scheme : String)
      → (str_eq scheme "http" || str_eq scheme "https") ≡ true
      → IsPort own scheme (or_default lib policy own scheme)
  or_default-IsPort (some port) scheme h = refl
  or_default-IsPort none scheme h = elim (Bool-cases (str_eq scheme "http")) [
    | inl http ↦ inl (http, rw (http) refl)
    | inr not_http ↦
        inr (ap (λ b. b || str_eq scheme "https") (sym not_http) ∙ h, rw (not_http) refl)
  ]

  pub host_given-some :
      (hostname : Option String) (host : String)
      → host_given lib policy hostname ≡ ok host
      → (hostname ≡ some host) × (str_eq host "" ≡ false)
  host_given-some none host h = ground arith
  host_given-some (some raw) host h = ground (arith, h)

  pub normalize_host-IsHost :
      (raw host : String)
      → str_eq raw "" ≡ false
      → has_char b'%' raw ≡ false
      → normalize_host lib policy raw ≡ ok host
      → IsHost (some raw) host
  unfolding normalize_host
  normalize_host-IsHost raw host given zone h =
      let normalized = lib.lower (lib.rstrip_dots raw) in
      let (u, e) =
        and_then-ok (invalid_if (str_eq normalized "" || ltb 253 (text_length normalized))) _ host
          h in
      (
        raw,
        (
          refl,
          given,
          zone,
          invalid_if-false (str_eq normalized "" || ltb 253 (text_length normalized)) u e.0,
          or_raise-some (lib.idna normalized) host e.1,
        ),
      )

  -- `authority` of `_normalized_url`
  abbrev authority_of : Option ℕ → String → String → ℕ → String
  authority_of own scheme host port =
      if is_some own && not (port == default_port scheme)
      then append_text (bracketed host) (append_text ":" (lib.str port))
      else bracketed host

  authority_of-IsAuthority :
      (own : Option ℕ) (scheme host : String)
      → IsAuthority own scheme host
          (authority_of own scheme host (or_default lib policy own scheme))
  authority_of-IsAuthority none scheme host = refl
  authority_of-IsAuthority (some port) scheme host =
      elim (Bool-cases (port == default_port scheme)) [
        | inl same ↦ inl ((==_iff port (default_port scheme)).0 same, rw (same) refl)
        | inr other ↦
            inr ((λ same. cc (other, (==_iff port (default_port scheme)).1 same)), rw (other) refl)
      ]

  pub normalized_url-IsAuthority :
      (parsed : SplitUrl) (scheme host : String)
      → (authority : String) × IsAuthority parsed.port scheme host authority
        × (normalized_url lib policy parsed scheme host (or_default lib policy parsed.port scheme)
            ≡ lib.urlunsplit scheme authority
                (if str_eq parsed.path "" then "/" else parsed.path)
                parsed.query)
  unfolding normalized_url
  normalized_url-IsAuthority parsed scheme host = (
    authority_of parsed.port scheme host (or_default lib policy parsed.port scheme),
    authority_of-IsAuthority parsed.port scheme host,
    refl,
  )
