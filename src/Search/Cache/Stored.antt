-- ===== src/Search/Cache/Stored.antt =====
-- What `get` of the search cache finds of what `put` has stored.
use web_access_mcp_server.Base.{
  ◌≡◌, refl, ◌∙◌, ap, subst, ℕ, ◌+◌, ◌*◌, ◌<◌, arith, String, Bool, true, false, Option, none, some,
  List, ◌∷◌, ltb, eq_iff, lt→ltb, if◌then◌else◌,
}
use web_access_mcp_server.Base.Effects.{Result, ok, raised}
use web_access_mcp_server.Search.Registry.{first}
use web_access_mcp_server.Search.Item.{QueryData, CacheLookup, CacheLookupState}
use web_access_mcp_server.Search.Cache.{
  Entry, key, live, delete, CacheFault, value_error, read_payload, read_entry, get_at, get, put_at,
  put,
}

not_raised :
    (b : Bool) (r : Result CacheFault (Bool × List Entry)) (out : Bool × List Entry)
    → (if b then raised value_error else r) ≡ ok out
    → r ≡ ok out
not_raised true r out h = ground arith
not_raised false r out h = h

module _ (validate_json : String → Option QueryData) (dump_json : QueryData → String)
    (prefix : String) where
  -- the entry that `put` writes
  abbrev pub entry_for : String → QueryData → ℕ → Entry
  entry_for name value expires = record {
    name = name;
    payload = dump_json value;
    expires = expires;
  }

  first-live :
      (name : String) (value : QueryData) (now expires : ℕ) (store : List Entry)
      → now < expires
      → first (live now name) (entry_for name value expires ∷ store)
        ≡ some (entry_for name value expires)
  first-live name value now expires store h =
      rw ((eq_iff name name).1 refl, lt→ltb now expires h) refl

  get_at-put_at :
      (now later : ℕ) (name : Option String) (value : QueryData) (ttl : ℕ)
      (store after_put : List Entry) (delete_fails : Bool)
      → validate_json (dump_json value) ≡ some value
      → put_at validate_json dump_json prefix false now name value ttl store ≡ ok (true, after_put)
      → later < now + ttl * 1000
      → get_at validate_json dump_json prefix false delete_fails later name after_put
        ≡ ok (record { state = CacheLookupState.hit; value = some value }, after_put)
  get_at-put_at now later none value ttl store after_put delete_fails json h l = ground arith
  get_at-put_at now later (some name) value ttl store after_put delete_fails json h l =
      let written : Path (List Entry) (entry_for name value (now + ttl * 1000) ∷ delete name store)
          after_put =
        ground (arith, h) in
      subst
        (λ s.
          Path (Result CacheFault (CacheLookup × List Entry))
            (get_at validate_json dump_json prefix false delete_fails later (some name) s)
            (ok (record { state = CacheLookupState.hit; value = some value }, s)))
        written
        (ap
            (λ e. ok (
              read_entry validate_json dump_json prefix delete_fails name
                (entry_for name value (now + ttl * 1000) ∷ delete name store) e))
            (first-live name value later (now + ttl * 1000) (delete name store) l)
          ∙ ap
              (λ v. ok (
                read_payload validate_json dump_json prefix delete_fails name
                  (entry_for name value (now + ttl * 1000) ∷ delete name store) v))
              json)

  -- What is put under an identity, with a JSON text that is read as it was, is found there by every
  -- lookup that Redis answers until its time to live is over, and the store stays as it is.
  pub get-put :
      (now later : ℕ) (identity : String) (value : QueryData) (ttl : ℕ)
      (store after_put : List Entry) (delete_fails : Bool)
      → validate_json (dump_json value) ≡ some value
      → put validate_json dump_json prefix false now identity value ttl store ≡ ok (true, after_put)
      → later < now + ttl * 1000
      → get validate_json dump_json prefix false delete_fails later identity after_put
        ≡ ok (record { state = CacheLookupState.hit; value = some value }, after_put)
  unfolding put get
  get-put now later identity value ttl store after_put delete_fails json h l =
      get_at-put_at now later (key prefix identity) value ttl store after_put delete_fails json
        (not_raised (ltb ttl 1)
          (put_at validate_json dump_json prefix false now (key prefix identity) value ttl store)
          (true, after_put) h)
        l
