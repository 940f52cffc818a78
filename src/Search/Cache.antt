-- ===== src/Search/Cache.antt =====
-- infrastructure/search/cache.py: `RedisSearchCache` over the entries of Redis with their expiry.
-- Whether a command of Redis fails is an argument; JSON is a parameter.
pub mod Stored
use web_access_mcp_server.Base.{
  ℕ, ◌+◌, ◌*◌, ◌<◌, String, Bool, true, false, not, ◌&&◌, ◌||◌, Option, none, some, List, [], ◌∷◌,
  select, leb, ltb, ◌==◌, str_eq, if◌then◌else◌, text_length, append_text,
}
use web_access_mcp_server.Base.Effects.{Result, ok, raised, and_then}
use web_access_mcp_server.Search.Registry.{first}
use web_access_mcp_server.Search.Item.{QueryData, CacheLookup, CacheLookupState}

-- an entry of Redis, with the time in milliseconds at which it expires
pub record Entry : Type 0 where
  pub name : String
  pub payload : String
  pub expires : ℕ

-- the text behind a prefix
abbrev pub without_prefix : String → String → Option String
without_prefix String.[] s = some s
without_prefix (String.◌∷◌ c p) String.[] = none
without_prefix (String.◌∷◌ c p) (String.◌∷◌ d s) =
    let rest = without_prefix p s in
    if str_eq (String.◌∷◌ c "") (String.◌∷◌ d "") then rest else none

abbrev pub hashed : String → String → Option String → Option String
hashed prefix identity none = none
hashed prefix identity (some digest) =
    if text_length identity == 74 then some (append_text prefix digest) else none

-- `key`, by the prefix with the namespace; `none` is its ValueError
unfoldable pub key : String → String → Option String
key prefix identity = hashed prefix identity (without_prefix "search:v1:" identity)

-- `GET`: the entry of a key that has not expired
abbrev pub live : ℕ → String → Entry → Bool
live now name e = str_eq e.name name && ltb now e.expires

-- `DEL`
abbrev pub delete : String → List Entry → List Entry
delete name = select (λ e. not (str_eq e.name name))

-- what the cache raises
pub data CacheFault : Type 0 where
  value_error : CacheFault

module _ (validate_json : String → Option QueryData) (dump_json : QueryData → String)
    (prefix : String) where
  abbrev pub lookup : CacheLookupState → Option QueryData → CacheLookup
  lookup state value = record { state = state; value = value }

  -- the entry is deleted, where that does not fail
  abbrev pub read_payload : Bool → String → List Entry → Option QueryData → CacheLookup × List Entry
  read_payload delete_fails name store (some value) =
      (lookup CacheLookupState.hit (some value), store)
  read_payload delete_fails name store none =
      (lookup CacheLookupState.corrupt none, if delete_fails then store else delete name store)

  abbrev pub read_entry : Bool → String → List Entry → Option Entry → CacheLookup × List Entry
  read_entry delete_fails name store none = (lookup CacheLookupState.miss none, store)
  read_entry delete_fails name store (some e) =
      read_payload delete_fails name store (validate_json e.payload)

  abbrev pub get_at :
      Bool → Bool → ℕ → Option String → List Entry → Result CacheFault (CacheLookup × List Entry)
  get_at get_fails delete_fails now none store = raised value_error
  get_at get_fails delete_fails now (some name) store =
      if get_fails
      then ok (lookup CacheLookupState.unavailable none, store)
      else ok (read_entry delete_fails name store (first (live now name) store))

  -- `get`
  unfoldable pub get :
      Bool → Bool → ℕ → String → List Entry → Result CacheFault (CacheLookup × List Entry)
  unfolding key
  get get_fails delete_fails now identity store =
      get_at get_fails delete_fails now (key prefix identity) store

  abbrev pub put_at :
      Bool → ℕ → Option String → QueryData → ℕ → List Entry → Result CacheFault (Bool × List Entry)
  put_at set_fails now none value ttl store = raised value_error
  put_at set_fails now (some name) value ttl store =
      if set_fails
      then ok (false, store)
      else ok (
        true,
        record { name = name; payload = dump_json value; expires = now + ttl * 1000 }
            ∷ delete name store,
      )

  -- `put`
  unfoldable pub put :
      Bool → ℕ → String → QueryData → ℕ → List Entry → Result CacheFault (Bool × List Entry)
  unfolding key
  put set_fails now identity value ttl store =
      if ltb ttl 1
      then raised value_error
      else put_at set_fails now (key prefix identity) value ttl store
