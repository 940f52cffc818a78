-- ===== src/Examples/Fetch.antt =====
-- infrastructure/retrieval/fetcher.py on concrete inputs.
use web_access_mcp_server.Base.{
  ℕ, ◌≡◌, refl, Bool, false, Option, none, some, List, [], ◌∷◌, str_eq, ◌==◌, if◌then◌else◌, arith,
}
use web_access_mcp_server.Base.Effects.{Result, ok, raised, Ensures}
use web_access_mcp_server.Retrieval.Transport.{Failure, Response}
use web_access_mcp_server.Retrieval.Fetcher.{
  valid, blocked, Raw, responded, Settings, Network, Trace, fetch, make_hop,
}
use web_access_mcp_server.Retrieval.Fetcher.Rounds.{IsEnded}
use web_access_mcp_server.Retrieval.Fetcher.Bounds.{fetch-IsEnded}
use web_access_mcp_server.Retrieval.Body.{BodySettings, wire, Decompressor, BodyState, stream_body}
use web_access_mcp_server.Retrieval.Body.Limits.{IsStreamed, Fits, stream_body-IsStreamed}

abbrev settings : Settings
settings = record { max_redirects = 1; max_wire_bytes = 100; operation_timeout = 1000 }

abbrev page : Raw
page = record {
  status = 200;
  url = "";
  location = none;
  content_length = some 20;
  content_encoding = none;
  media_type = none;
  source_filename = none;
}

-- `/a` redirects to `/b`, which has a page, and all else redirects to `/c`.
abbrev net : Network
net = record {
  validate_url = λ url. if str_eq url "/x" then blocked else valid url;
  get = λ n url timeout. responded (
      if str_eq url "/b"
      then page
      else record page { status = 302; location = some (if str_eq url "/a" then "/b" else "/c") });
  remaining = λ n. none;
  urljoin = λ base location. some location;
  lower = λ value. value;
}

abbrev status_of : Option (Result Failure Response × Trace) → Option ℕ
status_of (some (ok r, t)) = some r.http_status
status_of _ = none

abbrev failure_of : Option (Result Failure Response × Trace) → Option Failure
failure_of (some (raised e, t)) = some e
failure_of _ = none

redirect_is_followed : status_of (fetch net settings "/a") ≡ some 200
unfolding fetch make_hop
redirect_is_followed = refl

redirects_are_bounded : failure_of (fetch net settings "/c") ≡ some Failure.too_many_redirects
unfolding fetch make_hop
redirects_are_bounded = refl

fetch-IsEnded_example :
    (r : Result Failure Response) × (t : Trace) × (fetch net settings "/a" ≡ some (r, t))
    × IsEnded net settings "/a" r t
fetch-IsEnded_example = fetch-IsEnded net settings "/a"

abbrev limits : BodySettings
limits = record { max_wire_bytes = 10; max_entity_bytes = 4; ratio_num = 3; ratio_den = 1 }

-- a decoder that doubles each byte, and sees its end in the byte 0
abbrev doubled : List ℕ → List ℕ
doubled [] = []
doubled (b ∷ bs) = b ∷ b ∷ doubled bs

abbrev last_is_zero : Bool → List ℕ → Bool
last_is_zero eof [] = eof
last_is_zero eof (b ∷ bs) = last_is_zero (b == 0) bs

abbrev zlib : Decompressor Bool
zlib = record {
  decompress = λ eof bytes limit. some (doubled bytes, last_is_zero eof bytes);
  flush = λ eof limit. some ([], eof);
  eof = λ eof. eof;
}

abbrev begin : BodyState Bool
begin = record {
  counters = record { wire_bytes = 0; entity_bytes = 0 };
  decoder = some false;
  yielded = [];
}

too_much_is_cut :
    (stream_body limits zlib (wire (7 ∷ 8 ∷ []) ∷ wire (0 ∷ []) ∷ []) begin).0
    ≡ raised Failure.decompression_limit
unfolding stream_body
too_much_is_cut = refl

stream_body-IsStreamed_example :
    Ensures
      (IsStreamed limits zlib)
      (Fits limits zlib)
      (stream_body limits zlib (wire (7 ∷ []) ∷ wire (0 ∷ []) ∷ []) begin)
stream_body-IsStreamed_example =
    stream_body-IsStreamed limits zlib (wire (7 ∷ []) ∷ wire (0 ∷ []) ∷ []) begin
      (record { wire = omega arith; entity = omega arith; counted = refl })
