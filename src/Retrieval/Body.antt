-- ===== src/Retrieval/Body.antt =====
-- infrastructure/retrieval/fetcher.py: `_body`, the bounded stream of one response, with
-- `_decode_chunk`, `_account_entity` and `_check_ratio`. A byte is a number. What the generator
-- yields is collected in the state, as it stays delivered when a later chunk raises.
pub mod Limits
use web_access_mcp_server.Base.{
  ℕ, suc, ◌+◌, ◌-◌, ◌*◌, max, Bool, true, false, not, ◌&&◌, Option, none, some, List, [], ◌∷◌, ◌++◌,
  length, ltb, ◌==◌, if◌then◌else◌,
}
use web_access_mcp_server.Base.Effects.{Result, ok, raised, Block, pure, raise, modify, ◌>>=◌, ◌>>◌}
use web_access_mcp_server.Retrieval.Transport.{Failure, FetchCounters}

-- The largest ratio of entity to wire bytes is `ratio_num / ratio_den`.
pub record BodySettings : Type 0 where
  pub max_wire_bytes : ℕ
  pub max_entity_bytes : ℕ
  pub ratio_num : ℕ
  pub ratio_den : ℕ

-- What `response.content.read` gives: bytes, a timeout, or a `ClientPayloadError` or `OSError`. A
-- list of reads ends where `at_eof` holds.
pub data Read : Type 0 where
  wire : List ℕ → Read
  read_timeout read_error : Read

-- zlib's decompressor, a third-party object: `none` is a `zlib.error`
pub record Decompressor (Z : Type 0) : Type 0 where
  pub decompress : Z → List ℕ → ℕ → Option (List ℕ × Z)
  pub flush : Z → ℕ → Option (List ℕ × Z)
  pub eof : Z → Bool

-- the counters, the decoder if there is one, and the bytes that were yielded
pub record BodyState (Z : Type 0) : Type 0 where
  pub counters : FetchCounters
  pub decoder : Option Z
  pub yielded : List ℕ

module _ {Z : Type 0} (settings : BodySettings) (zlib : Decompressor Z) where
  abbrev pub add_wire : ℕ → BodyState Z → BodyState Z
  add_wire n s = record s {
    counters = record {
      wire_bytes = s.counters.wire_bytes + n;
      entity_bytes = s.counters.entity_bytes;
    };
  }

  abbrev pub add_entity : ℕ → BodyState Z → BodyState Z
  add_entity n s = record s {
    counters = record {
      wire_bytes = s.counters.wire_bytes;
      entity_bytes = s.counters.entity_bytes + n;
    };
  }

  -- `_account_entity`
  unfoldable pub account_entity : List ℕ → Block Failure (BodyState Z) (Unit {0})
  account_entity entity s =
      let s' = add_entity (length entity) s in
      if ltb settings.max_entity_bytes s'.counters.entity_bytes
      then (raised Failure.decompression_limit, s')
      else (ok tt, s')

  -- `_check_ratio`
  unfoldable pub check_ratio : Block Failure (BodyState Z) (Unit {0})
  check_ratio s =
      if not (s.counters.wire_bytes == 0)
        && ltb (settings.ratio_num * s.counters.wire_bytes)
            (s.counters.entity_bytes * settings.ratio_den)
      then (raised Failure.decompression_limit, s)
      else (ok tt, s)

  -- the most that the decoder is asked for
  abbrev pub request : BodyState Z → ℕ
  request s = max 1 (settings.max_entity_bytes + 1 - s.counters.entity_bytes)

  abbrev pub decoded : Option (List ℕ × Z) → Block Failure (BodyState Z) (List ℕ)
  decoded none s = (raised Failure.connection, s)
  decoded (some (entity, z)) s = (ok entity, record s { decoder = some z })

  -- the entity bytes of a chunk, with the decoder if there is one
  abbrev pub through : Option Z → List ℕ → Block Failure (BodyState Z) (List ℕ)
  through none chunk s = (ok chunk, s)
  through (some z) chunk s = decoded (zlib.decompress z chunk (request s)) s

  unfoldable pub decompress_chunk : List ℕ → Block Failure (BodyState Z) (List ℕ)
  decompress_chunk chunk s = through s.decoder chunk s

  -- `_decode_chunk`
  unfoldable pub decode_chunk : List ℕ → Block Failure (BodyState Z) (List ℕ)
  unfolding decompress_chunk account_entity check_ratio
  decode_chunk chunk = do
    entity ← decompress_chunk chunk
    account_entity entity
    check_ratio
    pure entity

  -- `yield`
  abbrev pub emit : List ℕ → Block Failure (BodyState Z) (Unit {0})
  emit entity = modify (λ s. record s { yielded = s.yielded ++ entity })

  unfoldable pub account_wire : List ℕ → Block Failure (BodyState Z) (Unit {0})
  account_wire chunk s =
      let s' = add_wire (length chunk) s in
      if ltb settings.max_wire_bytes s'.counters.wire_bytes
      then (raised Failure.response_too_large, s')
      else (ok tt, s')

  -- the body of the loop, for bytes that are not empty
  unfoldable pub read_chunk : List ℕ → Block Failure (BodyState Z) (Unit {0})
  unfolding account_wire decode_chunk
  read_chunk chunk = do account_wire chunk; entity ← decode_chunk chunk; emit entity

  -- `if not decoder.eof: raise`
  abbrev pub at_end : Option Z → Block Failure (BodyState Z) (Unit {0})
  at_end none s = (ok tt, s)
  at_end (some z) s = if zlib.eof z then (ok tt, s) else (raised Failure.connection, s)

  unfoldable pub check_eof : Block Failure (BodyState Z) (Unit {0})
  check_eof s = at_end s.decoder s

  -- what follows the loop
  unfoldable pub flush_decoder : Option Z → Block Failure (BodyState Z) (Unit {0})
  unfolding account_entity check_eof
  flush_decoder none = pure tt
  flush_decoder (some z) = do
    tail ← (λ s. decoded (zlib.flush z (request s)) s)
    account_entity tail
    check_eof
    emit tail

  unfoldable pub flush_tail : Block Failure (BodyState Z) (Unit {0})
  unfolding flush_decoder check_ratio
  flush_tail = do (λ s. flush_decoder s.decoder s); check_ratio

  -- `while not at_eof()`; an empty read ends the loop too
  unfoldable pub stream_body : List Read → Block Failure (BodyState Z) (Unit {0})
  unfolding read_chunk flush_tail
  stream_body [] = flush_tail
  stream_body (read_timeout ∷ reads) = raise Failure.timed_out
  stream_body (read_error ∷ reads) = raise Failure.connection
  stream_body (wire [] ∷ reads) = flush_tail
  stream_body (wire (b ∷ bs) ∷ reads) = read_chunk (b ∷ bs) >> stream_body reads
