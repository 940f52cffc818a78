-- ===== src/Retrieval/Security.antt =====
-- infrastructure/retrieval/security.py and resolver.py: the policy on URLs and addresses, and the
-- resolver that applies it to a DNS answer. `ipaddress`, `urlsplit`, `urlunsplit`, the IDNA form and
-- the classes of characters are parameters.
pub mod Parts
pub mod Safe
use Prim.Native.Char.{code}
use web_access_mcp_server.Base.{
  ℕ, String, Bool, true, false, not, ◌&&◌, ◌||◌, Option, none, some, List, [], ◌∷◌, ◌++◌, any, map,
  leb, ltb, ◌==◌, str_eq, if◌then◌else◌, is_some, text_length, append_text,
}
use web_access_mcp_server.Base.Effects.{Result, ok, raised, and_then}

-- `InvalidRetrievalUrl` and `BlockedDestinationError`
pub data UrlError : Type 0 where
  invalid_url blocked_destination : UrlError

-- the parts of `urlsplit` that are read; the host name is in lower case, as the library gives it
pub record SplitUrl : Type 0 where
  pub scheme : String
  pub username : Option String
  pub password : Option String
  pub hostname : Option String
  pub port : Option ℕ
  pub path : String
  pub query : String

-- The library code. `ip_address`, `idna` and `urlsplit` with its port are `none` where they raise;
-- `same` is the equality of addresses.
pub record Library (Ip Network : Type 0) : Type 0 where
  pub ip_address : String → Option Ip
  pub ipv4_mapped : Ip → Option Ip
  pub is_global : Ip → Bool
  pub is_loopback : Ip → Bool
  pub is_private : Ip → Bool
  pub is_link_local : Ip → Bool
  pub is_multicast : Ip → Bool
  pub is_unspecified : Ip → Bool
  pub is_reserved : Ip → Bool
  pub contains : Network → Ip → Bool
  pub same : Ip → Ip → Bool
  pub has_control : String → Bool
  pub urlsplit : String → Option SplitUrl
  pub lower : String → String
  pub rstrip_dots : String → String
  pub idna : String → Option String
  pub str : ℕ → String
  pub urlunsplit : String → String → String → String → String

pub record ValidatedUrl (Ip : Type 0) : Type 0 where
  pub requested_url : String
  pub normalized_url : String
  pub scheme : String
  pub ascii_host : String
  pub port : ℕ
  pub ip_literal : Option Ip

-- the settings that the policy keeps
pub record UrlPolicy (Network : Type 0) : Type 0 where
  pub additional_ports : List ℕ
  pub internal_networks : List Network

-- whether a character, by its code, is in a text
abbrev pub has_char : ℕ → String → Bool
has_char n String.[] = false
has_char n (String.◌∷◌ c s) = code c == n || has_char n s

abbrev pub ends_with : String → String → Bool
ends_with suffix String.[] = str_eq "" suffix
ends_with suffix (String.◌∷◌ c s) = str_eq (String.◌∷◌ c s) suffix || ends_with suffix s

abbrev pub default_port : String → ℕ
default_port scheme = if str_eq scheme "http" then 80 else 443

abbrev pub invalid_if : Bool → Result UrlError (Unit {0})
invalid_if true = raised invalid_url
invalid_if false = ok tt

abbrev pub blocked_if : Bool → Result UrlError (Unit {0})
blocked_if true = raised blocked_destination
blocked_if false = ok tt

-- a value, or the error where there is none
abbrev pub or_raise : {A : Type 0} → UrlError → Option A → Result UrlError A
or_raise e none = raised e
or_raise e (some a) = ok a

module _ {Ip Network : Type 0} (lib : Library Ip Network) (policy : UrlPolicy Network) where
  -- the address that counts: the IPv4 address that an IPv6 address maps
  abbrev pub effective : Ip → Ip
  effective address = elim (lib.ipv4_mapped address) [ some v4 ↦ v4 | none ↦ address ]

  abbrev pub not_public : Ip → Bool
  not_public a =
      not (lib.is_global a)
      || lib.is_loopback a
      || lib.is_private a
      || lib.is_link_local a
      || lib.is_multicast a
      || lib.is_unspecified a
      || lib.is_reserved a

  abbrev pub is_internal : Ip → Bool
  is_internal a = any (λ network. lib.contains network a) policy.internal_networks

  -- the tests on one address, by what `ipaddress.ip_address(value)` gives
  unfoldable pub check_address : Option Ip → Result UrlError Ip
  check_address none = raised blocked_destination
  check_address (some address) =
      and_then (blocked_if (not_public (effective address)))
        (λ _. and_then (blocked_if (is_internal (effective address))) (λ _. ok address))

  -- the loop over the addresses
  unfoldable pub check_addresses : List (Option Ip) → Result UrlError (List Ip)
  unfolding check_address
  check_addresses [] = ok []
  check_addresses (v ∷ vs) =
      and_then (check_address v) (λ a. and_then (check_addresses vs) (λ rest. ok (a ∷ rest)))

  -- `dict.fromkeys`, after the keys that are there
  unfoldable pub distinct : List Ip → List Ip → List Ip
  distinct seen [] = []
  distinct seen (a ∷ rest) =
      let without = distinct seen rest in
      let with_a = a ∷ distinct (a ∷ seen) rest in
      if any (λ b. lib.same b a) seen then without else with_a

  -- `validate_addresses`
  unfoldable pub validate_addresses : List (Option Ip) → Result UrlError (List Ip)
  unfolding check_addresses distinct
  validate_addresses [] = raised blocked_destination
  validate_addresses (v ∷ vs) =
      and_then (check_addresses (v ∷ vs)) (λ validated. ok (distinct [] validated))

  -- `_normalize_host`
  unfoldable pub normalize_host : String → Result UrlError String
  normalize_host host =
      let normalized = lib.lower (lib.rstrip_dots host) in
      and_then (invalid_if (str_eq normalized "" || ltb 253 (text_length normalized)))
        (λ _. or_raise invalid_url (lib.idna normalized))

  abbrev pub is_localhost : String → Bool
  is_localhost host = str_eq host "localhost" || ends_with ".localhost" host

  -- the tests on the host: a literal is checked as an address
  unfoldable pub check_host : Option Ip → String → Result UrlError (Unit {0})
  unfolding validate_addresses
  check_host (some literal) host = and_then (validate_addresses (some literal ∷ [])) (λ _. ok tt)
  check_host none host = blocked_if (is_localhost host)

  -- `_normalized_url`
  unfoldable pub normalized_url : SplitUrl → String → String → ℕ → String
  normalized_url parsed scheme ascii_host selected_port =
      let host =
        if has_char b':' ascii_host
        then append_text "[" (append_text ascii_host "]")
        else ascii_host in
      let authority =
        if is_some parsed.port && not (selected_port == default_port scheme)
        then append_text host (append_text ":" (lib.str selected_port))
        else host in
      lib.urlunsplit scheme authority (if str_eq parsed.path "" then "/" else parsed.path)
        parsed.query

  abbrev pub or_default : Option ℕ → String → ℕ
  or_default none scheme = default_port scheme
  or_default (some port) scheme = port

  abbrev pub port_allowed : String → ℕ → Bool
  port_allowed scheme port =
      port == default_port scheme || any (λ p. port == p) policy.additional_ports

  -- what `validate_url` does with the host name
  unfoldable pub validate_host :
      String → SplitUrl → String → String → Result UrlError (ValidatedUrl Ip)
  unfolding normalize_host check_host normalized_url
  validate_host requested parsed scheme raw_host =
      and_then (invalid_if (has_char b'%' raw_host)) (λ _.
        and_then (normalize_host raw_host) (λ ascii_host.
          let selected_port = or_default parsed.port scheme in
          and_then (blocked_if (not (port_allowed scheme selected_port))) (λ _.
            and_then (check_host (lib.ip_address ascii_host) ascii_host) (λ _. ok (record {
              requested_url = requested;
              normalized_url = normalized_url parsed scheme ascii_host selected_port;
              scheme = scheme;
              ascii_host = ascii_host;
              port = selected_port;
              ip_literal = lib.ip_address ascii_host;
            })))))

  -- `if not parsed.hostname`
  abbrev pub host_given : Option String → Result UrlError String
  host_given none = raised invalid_url
  host_given (some host) = if str_eq host "" then raised invalid_url else ok host

  -- `validate_url`
  unfoldable pub validate_url : String → Result UrlError (ValidatedUrl Ip)
  unfolding validate_host
  validate_url requested =
      and_then (invalid_if (ltb (text_length requested) 1 || ltb 8192 (text_length requested)))
        (λ _. and_then (invalid_if (lib.has_control requested)) (λ _.
          and_then (or_raise invalid_url (lib.urlsplit requested)) (λ parsed.
            let scheme = lib.lower parsed.scheme in
            and_then (invalid_if (not (str_eq scheme "http" || str_eq scheme "https"))) (λ _.
              and_then (invalid_if (is_some parsed.username || is_some parsed.password)) (λ _.
                and_then (host_given parsed.hostname)
                  (λ host. validate_host requested parsed scheme host))))))

-- what leaves `resolve`: an error of the policy, of the underlying resolver, or of a closed one
pub data ResolveError : Type 0 where
  policy_error : UrlError → ResolveError
  underlying_error resolver_closed : ResolveError

module _ {Ip Network : Type 0} (lib : Library Ip Network) (policy : UrlPolicy Network) where
  abbrev pub checked_records :
      {Record : Type 0}
      → Result UrlError (List Ip)
      → List Record
      → Result ResolveError (List Record)
  checked_records (ok validated) records = ok records
  checked_records (raised e) records = raised (policy_error e)

  -- `ValidatingResolver.resolve`, by the records of the underlying resolver, whose hosts are texts
  unfoldable pub resolve :
      {Record : Type 0}
      → (Record → String)
      → Bool
      → Option (List Record)
      → Result ResolveError (List Record)
  unfolding validate_addresses
  resolve host_of true answer = raised resolver_closed
  resolve host_of false none = raised underlying_error
  resolve host_of false (some records) =
      checked_records
        (validate_addresses lib policy (map (λ r. lib.ip_address (host_of r)) records)) records
