-- ===== src/Examples/Security.antt =====
-- infrastructure/retrieval/security.py, resolver.py and client.py on concrete inputs. An address is
-- a number: 10 is a private one, and 8 a public one.
use web_access_mcp_server.Base.{
  ℕ, ◌≡◌, refl, ◌==◌, String, false, Option, none, some, List, [], ◌∷◌, All, str_eq, if◌then◌else◌,
  append_text,
}
use web_access_mcp_server.Base.Effects.{Result, ok, raised}
use web_access_mcp_server.Retrieval.Security.{
  blocked_destination, SplitUrl, Library, ValidatedUrl, UrlPolicy, validate_url, resolve,
  policy_error,
}
use web_access_mcp_server.Retrieval.Security.Safe.{
  AllowedUrl, NamesSafe, validate_url-AllowedUrl, resolve-NamesSafe,
}
use web_access_mcp_server.Retrieval.Client.{Event, get_event, close_event, no_client, run}
use web_access_mcp_server.Retrieval.Client.Sessions.{OneSession, Sent, run-Sent}

abbrev address : String → Option ℕ
address s = if str_eq s "8.8.8.8" then some 8 else if str_eq s "10.0.0.1" then some 10 else none

abbrev split : String → Option ℕ → SplitUrl
split host port = record {
  scheme = "http";
  username = none;
  password = none;
  hostname = some host;
  port = port;
  path = "";
  query = "";
}

abbrev lib : Library ℕ ℕ
lib = record {
  ip_address = address;
  ipv4_mapped = λ a. none;
  is_global = λ a. a == 8;
  is_loopback = λ a. false;
  is_private = λ a. a == 10;
  is_link_local = λ a. false;
  is_multicast = λ a. false;
  is_unspecified = λ a. false;
  is_reserved = λ a. false;
  contains = λ network a. false;
  same = λ a b. a == b;
  has_control = λ s. false;
  urlsplit = λ url. some (
      if str_eq url "http://8.8.8.8"
      then split "8.8.8.8" none
      else if str_eq url "http://8.8.8.8:22"
      then split "8.8.8.8" (some 22)
      else if str_eq url "http://10.0.0.1"
      then split "10.0.0.1" none
      else split "a.localhost" none);
  lower = λ s. s;
  rstrip_dots = λ s. s;
  idna = λ s. some s;
  str = λ n. "80";
  urlunsplit = λ scheme authority path query.
      append_text scheme (append_text "://" (append_text authority path));
}

abbrev policy : UrlPolicy ℕ
policy = record { additional_ports = []; internal_networks = [] }

abbrev accepted_url : ValidatedUrl ℕ
accepted_url = record {
  requested_url = "http://8.8.8.8";
  normalized_url = "http://8.8.8.8/";
  scheme = "http";
  ascii_host = "8.8.8.8";
  port = 80;
  ip_literal = some 8;
}

a_public_address : validate_url lib policy "http://8.8.8.8" ≡ ok accepted_url
unfolding validate_url
a_public_address = refl

another_port : validate_url lib policy "http://8.8.8.8:22" ≡ raised blocked_destination
unfolding validate_url
another_port = refl

a_private_address : validate_url lib policy "http://10.0.0.1" ≡ raised blocked_destination
unfolding validate_url
a_private_address = refl

a_local_name : validate_url lib policy "http://a.localhost" ≡ raised blocked_destination
unfolding validate_url
a_local_name = refl

validate_url-AllowedUrl_example : AllowedUrl lib policy "http://8.8.8.8" accepted_url
validate_url-AllowedUrl_example =
    validate_url-AllowedUrl lib policy "http://8.8.8.8" accepted_url a_public_address

one_private_address_is_enough :
    resolve lib policy (λ r. r) false (some ("8.8.8.8" ∷ "10.0.0.1" ∷ []))
    ≡ raised (policy_error blocked_destination)
unfolding resolve
one_private_address_is_enough = refl

two_records :
    resolve lib policy (λ r. r) false (some ("8.8.8.8" ∷ "8.8.8.8" ∷ []))
    ≡ ok ("8.8.8.8" ∷ "8.8.8.8" ∷ [])
unfolding resolve
two_records = refl

resolve-NamesSafe_example :
    Path
      (Option (List String))
      (some ("8.8.8.8" ∷ "8.8.8.8" ∷ []))
      (some ("8.8.8.8" ∷ "8.8.8.8" ∷ []))
    × (Path (List String) ("8.8.8.8" ∷ "8.8.8.8" ∷ []) [] → ⊥)
    × All (NamesSafe lib policy) ("8.8.8.8" ∷ "8.8.8.8" ∷ [])
resolve-NamesSafe_example =
    resolve-NamesSafe lib policy (λ r. r) false (some ("8.8.8.8" ∷ "8.8.8.8" ∷ []))
      ("8.8.8.8" ∷ "8.8.8.8" ∷ []) two_records

abbrev served : String → ℕ → Result ℕ ℕ
served url timeout = ok 200

abbrev history : List Event
history =
    get_event "http://8.8.8.8" 5
    ∷ close_event
    ∷ get_event "http://10.0.0.1" 5
    ∷ get_event "http://8.8.8.8" 5
    ∷ []

run-Sent_example :
    OneSession (run lib policy served history no_client)
    × All (Sent lib policy served) (run lib policy served history no_client).requested
run-Sent_example = run-Sent lib policy served history
