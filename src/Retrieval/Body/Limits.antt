-- ===== src/Retrieval/Body/Limits.antt =====
-- The limits of infrastructure/retrieval/fetcher.py `_body`, along the reads of a stream.
use web_access_mcp_server.Base.{
  ℕ, true, ◌&&◌, not, ◌==◌, ◌+◌, ◌*◌, ◌≤◌, ◌≡◌, ◌⊎◌, inl, inr, refl, Option, none, some, List, [],
  ◌∷◌, length, length-append, arith, Bool-cases, ltb,
}
use web_access_mcp_server.Base.Effects.{Ensures, Ensures-mono, bind-Ensures}
use web_access_mcp_server.Retrieval.Transport.{Failure}
use web_access_mcp_server.Retrieval.Body.{
  BodySettings, Read, wire, read_timeout, read_error, Decompressor, BodyState, decoded, request,
  emit, through, at_end, flush_decoder, account_entity, check_ratio, decompress_chunk, decode_chunk,
  account_wire, read_chunk, check_eof, flush_tail, stream_body,
}

module _ {Z : Type 0} (settings : BodySettings) (zlib : Decompressor Z) where
  -- What holds between two reads: all that was counted was yielded, and the limits hold.
  pub record IsWithin (s : BodyState Z) : Type 0 where
    pub wire : s.counters.wire_bytes ≤ settings.max_wire_bytes
    pub entity : s.counters.entity_bytes ≤ settings.max_entity_bytes
    pub counted : length s.yielded ≡ s.counters.entity_bytes

  -- The same with the last chunk counted and not yet yielded.
  record IsOwing (chunk : List ℕ) (s : BodyState Z) : Type 0 where
    wire : s.counters.wire_bytes ≤ settings.max_wire_bytes
    entity : s.counters.entity_bytes ≤ settings.max_entity_bytes
    counted : length s.yielded + length chunk ≡ s.counters.entity_bytes

  -- What was yielded fits, also after an exception.
  abbrev pub Fits : Failure → BodyState Z → Type 0
  Fits e s = length s.yielded ≤ settings.max_entity_bytes

  -- the ratio of what was decoded is allowed
  abbrev pub IsModest : BodyState Z → Type 0
  IsModest s =
      (s.counters.wire_bytes ≡ 0)
      ⊎ (s.counters.entity_bytes * settings.ratio_den ≤ settings.ratio_num * s.counters.wire_bytes)

  -- the decoder, if there is one, saw the end of its stream
  abbrev pub IsComplete : BodyState Z → Type 0
  IsComplete s = (s.decoder ≡ none) ⊎ ((z : Z) × (s.decoder ≡ some z) × (zlib.eof z ≡ true))

  account_wire-IsWithin :
      (chunk : List ℕ) (s : BodyState Z)
      → IsWithin s
      → Ensures (λ _. IsWithin) Fits (account_wire settings zlib chunk s)
  unfolding account_wire
  account_wire-IsWithin chunk s w =
      elim (Bool-cases (ltb settings.max_wire_bytes (s.counters.wire_bytes + length chunk))) [
        | inl e ↦ rw (e, Ensures) (omega (arith, w.counted, w.entity))
        | inr e ↦
            rw (e, Ensures) (record { wire = ground arith; entity = w.entity; counted = w.counted })
      ]

  decoded-IsWithin :
      (o : Option (List ℕ × Z)) (s : BodyState Z)
      → IsWithin s
      → Ensures (λ _. IsWithin) Fits (decoded settings zlib o s)
  decoded-IsWithin none s w = omega (arith, w.counted, w.entity)
  decoded-IsWithin (some (entity, z)) s w = record {
    wire = w.wire;
    entity = w.entity;
    counted = w.counted;
  }

  through-IsWithin :
      (chunk : List ℕ) (d : Option Z) (s : BodyState Z)
      → IsWithin s
      → Ensures (λ _. IsWithin) Fits (through settings zlib d chunk s)
  through-IsWithin chunk none s w = w
  through-IsWithin chunk (some z) s w =
      decoded-IsWithin (zlib.decompress z chunk (request settings zlib s)) s w

  account_entity-IsOwing :
      (entity : List ℕ) (s : BodyState Z)
      → IsWithin s
      → Ensures (λ _. IsOwing entity) Fits (account_entity settings zlib entity s)
  unfolding account_entity
  account_entity-IsOwing entity s w =
      elim (Bool-cases (ltb settings.max_entity_bytes (s.counters.entity_bytes + length entity))) [
        | inl e ↦ rw (e, Ensures) (omega (arith, w.counted, w.entity))
        | inr e ↦
            rw (e, Ensures)
              (record { wire = w.wire; entity = ground arith; counted = omega (arith, w.counted) })
      ]

  -- `_check_ratio` changes nothing, and lets only a modest state through
  check_ratio-Ensures :
      (P : BodyState Z → Type 0) (s : BodyState Z)
      → P s
      → (P s → length s.yielded ≤ settings.max_entity_bytes)
      → Ensures (λ _ s'. P s' × IsModest s') Fits (check_ratio settings zlib s)
  unfolding check_ratio
  check_ratio-Ensures P s p fits =
      elim (Bool-cases (
        not (s.counters.wire_bytes == 0)
        && ltb (settings.ratio_num * s.counters.wire_bytes)
            (s.counters.entity_bytes * settings.ratio_den))) [
              | inl e ↦ rw (e, Ensures) (fits p)
              | inr e ↦ rw (e, Ensures) (p, ground arith)
            ]

  decode_chunk-IsOwing :
      (chunk : List ℕ) (s : BodyState Z)
      → IsWithin s
      → Ensures IsOwing Fits (decode_chunk settings zlib chunk s)
  unfolding decode_chunk decompress_chunk
  decode_chunk-IsOwing chunk s w =
      bind-Ensures (λ _. IsWithin) IsOwing Fits (decompress_chunk settings zlib chunk) _ s
        (through-IsWithin chunk s.decoder s w)
        (λ entity s1 w1.
          bind-Ensures (λ _. IsOwing entity) IsOwing Fits (account_entity settings zlib entity) _ s1
            (account_entity-IsOwing entity s1 w1)
            (λ _ s2 w2.
              bind-Ensures (λ _ s'. IsOwing entity s' × IsModest s') IsOwing Fits
                (check_ratio settings zlib) _ s2
                (check_ratio-Ensures (IsOwing entity) s2 w2
                  (λ o. omega (arith, o.counted, o.entity)))
                (λ _ s3 w3. w3.0)))

  emit-IsWithin :
      (chunk : List ℕ) (s : BodyState Z)
      → IsOwing chunk s
      → Ensures (λ _. IsWithin) Fits (emit settings zlib chunk s)
  emit-IsWithin chunk s o = record {
    wire = o.wire;
    entity = o.entity;
    counted = omega (arith, o.counted, length-append s.yielded chunk);
  }

  read_chunk-IsWithin :
      (chunk : List ℕ) (s : BodyState Z)
      → IsWithin s
      → Ensures (λ _. IsWithin) Fits (read_chunk settings zlib chunk s)
  unfolding read_chunk
  read_chunk-IsWithin chunk s w =
      bind-Ensures (λ _. IsWithin) (λ _. IsWithin) Fits (account_wire settings zlib chunk) _ s
        (account_wire-IsWithin chunk s w)
        (λ _ s1 w1.
          bind-Ensures IsOwing (λ _. IsWithin) Fits (decode_chunk settings zlib chunk) _ s1
            (decode_chunk-IsOwing chunk s1 w1) emit-IsWithin)

  -- `check_eof` changes nothing, and passes only what is complete
  at_end-Ensures :
      (chunk : List ℕ) (d : Option Z) (s : BodyState Z)
      → s.decoder ≡ d
      → IsOwing chunk s
      → Ensures (λ _ s'. IsOwing chunk s' × IsComplete s') Fits (at_end settings zlib d s)
  at_end-Ensures chunk none s e o = (o, inl e)
  at_end-Ensures chunk (some z) s e o = elim (Bool-cases (zlib.eof z)) [
    | inl t ↦ rw (t, Ensures) (o, inr (z, e, t))
    | inr f ↦ rw (f, Ensures) (omega (arith, o.counted, o.entity))
  ]

  abbrev Done : Unit {0} → BodyState Z → Type 0
  Done _ s = IsWithin s × IsComplete s

  flush_decoder-Ensures :
      (d : Option Z) (s : BodyState Z)
      → s.decoder ≡ d
      → IsWithin s
      → Ensures Done Fits (flush_decoder settings zlib d s)
  unfolding flush_decoder check_eof
  flush_decoder-Ensures none s e w = (w, inl e)
  flush_decoder-Ensures (some z) s e w =
      bind-Ensures (λ _. IsWithin) Done Fits
        (λ s'. decoded settings zlib (zlib.flush z (request settings zlib s')) s') _ s
        (decoded-IsWithin (zlib.flush z (request settings zlib s)) s w)
        (λ tail s1 w1.
          bind-Ensures (λ _. IsOwing tail) Done Fits (account_entity settings zlib tail) _ s1
            (account_entity-IsOwing tail s1 w1)
            (λ _ s2 w2.
              bind-Ensures (λ _ s'. IsOwing tail s' × IsComplete s') Done Fits
                (check_eof settings zlib) _ s2 (at_end-Ensures tail s2.decoder s2 refl w2)
                (λ _ s3 w3. (emit-IsWithin tail s3 w3.0, w3.1))))

  -- What a body that was streamed to its end satisfies.
  abbrev pub IsStreamed : Unit {0} → BodyState Z → Type 0
  IsStreamed _ s = IsWithin s × IsComplete s × IsModest s

  flush_tail-IsStreamed :
      (s : BodyState Z) → IsWithin s → Ensures IsStreamed Fits (flush_tail settings zlib s)
  unfolding flush_tail
  flush_tail-IsStreamed s w =
      bind-Ensures Done IsStreamed Fits (λ s'. flush_decoder settings zlib s'.decoder s') _ s
        (flush_decoder-Ensures s.decoder s refl w)
        (λ _ s1 w1.
          Ensures-mono (λ _ s'. Done tt s' × IsModest s') IsStreamed Fits
            (check_ratio settings zlib s1) (λ _ s2 w2. (w2.0.0, w2.0.1, w2.1))
            (check_ratio-Ensures (Done tt) s1 w1 (λ d. omega (arith, d.0.counted, d.0.entity))))

  -- Whatever is read and whatever the decoder gives, the bytes that are yielded never exceed
  -- `max_entity_bytes`, also when the stream ends in an exception. A stream that ends well has
  -- yielded exactly the counted entity bytes, has read at most `max_wire_bytes`, has an allowed
  -- ratio, and its decoder, if it has one, has seen the end of the compressed stream.
  pub stream_body-IsStreamed :
      (reads : List Read) (s : BodyState Z)
      → IsWithin s
      → Ensures IsStreamed Fits (stream_body settings zlib reads s)
  unfolding stream_body
  stream_body-IsStreamed [] s w = flush_tail-IsStreamed s w
  stream_body-IsStreamed (read_timeout ∷ reads) s w = omega (arith, w.counted, w.entity)
  stream_body-IsStreamed (read_error ∷ reads) s w = omega (arith, w.counted, w.entity)
  stream_body-IsStreamed (wire [] ∷ reads) s w = flush_tail-IsStreamed s w
  stream_body-IsStreamed (wire (b ∷ bs) ∷ reads) s w =
      bind-Ensures (λ _. IsWithin) IsStreamed Fits (read_chunk settings zlib (b ∷ bs)) _ s
        (read_chunk-IsWithin (b ∷ bs) s w) (λ _ s1 w1. stream_body-IsStreamed reads s1 w1)
