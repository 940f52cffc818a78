-- ===== src/Retrieval/Security/Safe.antt =====
-- What `validate_url` and the resolver let through.
use web_access_mcp_server.Base.{
  if◌then◌else◌, ◌≡◌, ◌≢◌, refl, sym, ap, subst, ◌∙◌, String, Bool, true, false, not, ◌||◌, Option,
  none, some, List, [], ◌∷◌, map, ltb, str_eq, is_some, text_length, All, arith,
}
use web_access_mcp_server.Base.Effects.{Result, ok, raised, and_then-ok}
use web_access_mcp_server.Retrieval.Security.{
  has_char, UrlError, invalid_url, SplitUrl, Library, ValidatedUrl, UrlPolicy, invalid_if,
  blocked_if, or_raise, effective, not_public, is_internal, check_address, check_addresses,
  validate_addresses, normalize_host, is_localhost, check_host, normalized_url, or_default,
  port_allowed, validate_host, host_given, validate_url, checked_records, resolve,
}
use web_access_mcp_server.Retrieval.Security.Parts.{
  IsPort, IsHost, IsAuthority, blocked_if-false, invalid_if-false, true_of_not, or_raise-some,
  or_default-IsPort, host_given-some, normalize_host-IsHost, normalized_url-IsAuthority,
}

module _ {Ip Network : Type 0} (lib : Library Ip Network) (policy : UrlPolicy Network) where
  -- an address that is public and in no internal network, by the address that it maps
  abbrev pub IsSafe : Ip → Type 0
  IsSafe a =
      (not_public lib policy (effective lib policy a) ≡ false)
      × (is_internal lib policy (effective lib policy a) ≡ false)

  -- a text that is the text of a safe address
  abbrev pub NamesSafe : String → Type 0
  NamesSafe s = (a : Ip) × ((lib.ip_address s ≡ some a) × IsSafe a)

  abbrev Checked : Option Ip → Type 0
  Checked v = (a : Ip) × ((v ≡ some a) × IsSafe a)

  check_address-Checked : (v : Option Ip) (a : Ip) → check_address lib policy v ≡ ok a → Checked v
  unfolding check_address
  check_address-Checked none a h = ground arith
  check_address-Checked (some b) a h =
      let (u, e) =
        and_then-ok (blocked_if (not_public lib policy (effective lib policy b))) _ a h in
      let (w, e') =
        and_then-ok (blocked_if (is_internal lib policy (effective lib policy b))) _ a e.1 in
      (
        b,
        (
          refl,
          (
            blocked_if-false (not_public lib policy (effective lib policy b)) u e.0,
            blocked_if-false (is_internal lib policy (effective lib policy b)) w e'.0,
          ),
        ),
      )

  check_addresses-Checked :
      (vs : List (Option Ip)) (out : List Ip)
      → check_addresses lib policy vs ≡ ok out
      → All Checked vs
  unfolding check_addresses
  check_addresses-Checked [] out h = tt
  check_addresses-Checked (v ∷ vs) out h =
      let (a, e) = and_then-ok (check_address lib policy v) _ out h in
      let (rest, e') = and_then-ok (check_addresses lib policy vs) _ out e.1 in
      (check_address-Checked v a e.0, check_addresses-Checked vs rest e'.0)

  validate_addresses-Checked :
      (vs : List (Option Ip)) (out : List Ip)
      → validate_addresses lib policy vs ≡ ok out
      → (vs ≢ []) × All Checked vs
  unfolding validate_addresses
  validate_addresses-Checked [] out h = ground arith
  validate_addresses-Checked (v ∷ vs) out h =
      let (a, e) = and_then-ok (check_addresses lib policy (v ∷ vs)) _ out h in
      (λ q. ground arith, check_addresses-Checked (v ∷ vs) a e.0)

  All-map :
      {R : Type 0} (f : R → Option Ip) (rs : List R)
      → All Checked (map f rs)
      → All (λ r. Checked (f r)) rs
  All-map f [] h = tt
  All-map f (r ∷ rs) h = (h.0, All-map f rs h.1)

  -- The resolver hands on only the whole answer of the underlying resolver, and only where that has
  -- an address and the host of each of its records is the text of an address that is public and in
  -- no internal network, by the IPv4 address that it maps where it maps one.
  pub resolve-NamesSafe :
      {R : Type 0} (host_of : R → String) (closed : Bool) (answer : Option (List R))
      (records : List R)
      → resolve lib policy host_of closed answer ≡ ok records
      → (answer ≡ some records) × (records ≢ []) × All (λ r. NamesSafe (host_of r)) records
  unfolding resolve
  resolve-NamesSafe host_of true answer records h = ground arith
  resolve-NamesSafe host_of false none records h = ground arith
  resolve-NamesSafe {R} host_of false (some found) records h =
      go (validate_addresses lib policy (map (λ r. lib.ip_address (host_of r)) found)) refl h
    where
      go :
          (checked : Result UrlError (List Ip))
          → validate_addresses lib policy (map (λ r. lib.ip_address (host_of r)) found) ≡ checked
          → checked_records lib policy checked found ≡ ok records
          → (some found ≡ some records) × (records ≢ []) × All (λ r. NamesSafe (host_of r)) records
      go (ok validated) e q =
          let safe =
            validate_addresses-Checked (map (λ r. lib.ip_address (host_of r)) found) validated e in
          let same : Path (List R) found records = ground (arith, q) in
          (
            ap some same,
            (λ z. safe.0 (ap (map (λ r. lib.ip_address (host_of r))) (same ∙ z))),
            subst (All (λ r. NamesSafe (host_of r))) same
                (All-map (λ r. lib.ip_address (host_of r)) found safe.1),
          )
      go (raised x) e q = ground arith

  -- what the policy asks of the host
  abbrev pub HostAllowed : Option Ip → String → Type 0
  HostAllowed none host = is_localhost lib policy host ≡ false
  HostAllowed (some literal) host = IsSafe literal

  -- what the policy asks of a URL, and how the result is the one of the URL
  abbrev pub AllowedUrl : String → ValidatedUrl Ip → Type 0
  AllowedUrl requested v =
      (parsed : SplitUrl) × (authority : String) × ((v.requested_url ≡ requested)
        × ((ltb (text_length requested) 1 || ltb 8192 (text_length requested)) ≡ false)
        × (lib.has_control requested ≡ false)
        × (lib.urlsplit requested ≡ some parsed)
        × ((is_some parsed.username || is_some parsed.password) ≡ false)
        × (v.scheme ≡ lib.lower parsed.scheme)
        × ((str_eq v.scheme "http" || str_eq v.scheme "https") ≡ true)
        × IsPort lib policy parsed.port v.scheme v.port
        × (port_allowed lib policy v.scheme v.port ≡ true)
        × IsHost lib policy parsed.hostname v.ascii_host
        × HostAllowed v.ip_literal v.ascii_host
        × (v.ip_literal ≡ lib.ip_address v.ascii_host)
        × IsAuthority lib policy parsed.port v.scheme v.ascii_host authority
        × (v.normalized_url
            ≡ lib.urlunsplit v.scheme authority (if str_eq parsed.path "" then "/" else parsed.path)
                parsed.query))

  check_host-HostAllowed :
      (literal : Option Ip) (host : String) (u : Unit {0})
      → check_host lib policy literal host ≡ ok u
      → HostAllowed literal host
  unfolding check_host
  check_host-HostAllowed none host u h = blocked_if-false (is_localhost lib policy host) u h
  check_host-HostAllowed (some literal) host u h =
      let (out, e) = and_then-ok (validate_addresses lib policy (some literal ∷ [])) _ u h in
      let checked = validate_addresses-Checked (some literal ∷ []) out e.0 in
      let same : Path Ip literal checked.1.0.0 = ground (arith, checked.1.0.1.0) in
      subst IsSafe (sym same) checked.1.0.1.1

  validate_host-AllowedUrl :
      (requested : String) (parsed : SplitUrl) (host : String) (v : ValidatedUrl Ip)
      → (ltb (text_length requested) 1 || ltb 8192 (text_length requested)) ≡ false
      → lib.has_control requested ≡ false
      → lib.urlsplit requested ≡ some parsed
      → (str_eq (lib.lower parsed.scheme) "http" || str_eq (lib.lower parsed.scheme) "https") ≡ true
      → (is_some parsed.username || is_some parsed.password) ≡ false
      → (parsed.hostname ≡ some host) × (str_eq host "" ≡ false)
      → validate_host lib policy requested parsed (lib.lower parsed.scheme) host ≡ ok v
      → AllowedUrl requested v
  unfolding validate_host
  validate_host-AllowedUrl requested parsed host v hl hc hp hs hu hh h =
      let scheme = lib.lower parsed.scheme in
      let port = or_default lib policy parsed.port scheme in
      let (u0, e) = and_then-ok (invalid_if (has_char b'%' host)) _ v h in
      let (ascii_host, e1) = and_then-ok (normalize_host lib policy host) _ v e.1 in
      let (u2, e2) =
        and_then-ok (blocked_if (not (port_allowed lib policy scheme port))) _ v e1.1 in
      let (u3, e3) =
        and_then-ok (check_host lib policy (lib.ip_address ascii_host) ascii_host) _ v e2.1 in
      let same : Path (ValidatedUrl Ip) (built ascii_host) v = ground (arith, e3.1) in
      let (authority, shown, normalized) =
        normalized_url-IsAuthority lib policy parsed scheme ascii_host in
      subst (AllowedUrl requested) same (
        parsed,
        authority,
        (
          refl,
          hl,
          hc,
          hp,
          hu,
          refl,
          hs,
          or_default-IsPort lib policy parsed.port scheme hs,
          true_of_not (port_allowed lib policy scheme port)
              (blocked_if-false (not (port_allowed lib policy scheme port)) u2 e2.0),
          subst (λ o. IsHost lib policy o ascii_host) (sym hh.0)
              (normalize_host-IsHost lib policy host ascii_host hh.1
                (invalid_if-false (has_char b'%' host) u0 e.0) e1.0),
          check_host-HostAllowed (lib.ip_address ascii_host) ascii_host u3 e3.0,
          refl,
          shown,
          normalized,
        ),
      )
    where
      built : String → ValidatedUrl Ip
      built ascii_host = record {
        requested_url = requested;
        normalized_url =
            normalized_url lib policy parsed (lib.lower parsed.scheme) ascii_host
              (or_default lib policy parsed.port (lib.lower parsed.scheme));
        scheme = lib.lower parsed.scheme;
        ascii_host = ascii_host;
        port = or_default lib policy parsed.port (lib.lower parsed.scheme);
        ip_literal = lib.ip_address ascii_host;
      }

  -- A URL that the policy accepts has at most 8192 characters and no control character, user or
  -- password. The scheme of the result is the one of the URL, http or https; its port is the one in
  -- the URL, or the one of the scheme where that has none, and is allowed; its host is the IDNA form
  -- of the one in the URL, is not localhost, and where it is the text of an address, that is public
  -- and in no internal network. The normalized URL is made of the scheme, the host, the URL's own
  -- port where that is not the one of the scheme, the path and the query.
  pub validate_url-AllowedUrl :
      (requested : String) (v : ValidatedUrl Ip)
      → validate_url lib policy requested ≡ ok v
      → AllowedUrl requested v
  unfolding validate_url
  validate_url-AllowedUrl requested v h =
      let (u0, e) =
        and_then-ok (invalid_if (ltb (text_length requested) 1 || ltb 8192 (text_length requested)))
          _ v h in
      let (u1, e1) = and_then-ok (invalid_if (lib.has_control requested)) _ v e.1 in
      let (parsed, e2) = and_then-ok (or_raise invalid_url (lib.urlsplit requested)) _ v e1.1 in
      let (u3, e3) =
        and_then-ok
          (invalid_if (
            not (
              str_eq (lib.lower parsed.scheme) "http" || str_eq (lib.lower parsed.scheme) "https")))
          _ v e2.1 in
      let (u4, e4) =
        and_then-ok (invalid_if (is_some parsed.username || is_some parsed.password)) _ v e3.1 in
      let (host, e5) = and_then-ok (host_given lib policy parsed.hostname) _ v e4.1 in
      validate_host-AllowedUrl requested parsed host v
        (invalid_if-false (ltb (text_length requested) 1 || ltb 8192 (text_length requested)) u0
          e.0)
        (invalid_if-false (lib.has_control requested) u1 e1.0)
        (or_raise-some (lib.urlsplit requested) parsed e2.0)
        (true_of_not
          (str_eq (lib.lower parsed.scheme) "http" || str_eq (lib.lower parsed.scheme) "https")
          (invalid_if-false
            (not
              (str_eq (lib.lower parsed.scheme) "http" || str_eq (lib.lower parsed.scheme) "https"))
            u3 e3.0))
        (invalid_if-false (is_some parsed.username || is_some parsed.password) u4 e4.0)
        (host_given-some lib policy parsed.hostname host e5.0) e5.1
