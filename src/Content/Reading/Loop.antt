-- ===== src/Content/Reading/Loop.antt =====
-- application/content/service.py: the loop of `_read_utf8_chunk` on the chunks of a text.
use web_access_mcp_server.Base.{
  ℕ, ◌+◌, ◌-◌, ◌≤◌, ◌<◌, ◌≡◌, ◌⊎◌, min, refl, sym, ap, subst, ◌∙◌, inl, inr, true, false, List, [],
  ◌∷◌, ◌++◌, drop, concat, length, length-append, arith, append_nil, append_assoc, le-or-lt, lt→ltb,
  le→ltb_false,
}
use web_access_mcp_server.Base.Effects.{Result, ok}
use web_access_mcp_server.Content.Reading.{
  ReadError, Utf8, encode_text, Progress, after_decode, read_chunks,
}
use web_access_mcp_server.Content.Reading.Split.{
  append_split, AtHead, AtHead-nil, Utf8Laws, at_end, decode_step,
}

module _ (codec : Utf8) (laws : Utf8Laws codec) where
  -- At its end the loop has the whole text, or the beginning of it and more than is asked for.
  unfoldable pub Done : ℕ → List codec.Character → Progress codec → Type 0
  Done max_chars text p =
      ((p.exceeded ≡ false) × (p.value ≡ text) × laws.Holds p.decoder [])
      ⊎ ((p.exceeded ≡ true)
          × (left : List codec.Character) × (text ≡ p.value ++ left)
          × (max_chars < length p.value))

  abbrev pub Ends : ℕ → ℕ → List codec.Character → Result ReadError (Progress codec) → Type 0
  Ends offset max_chars text r =
      (p : Progress codec) × (r ≡ ok p) × (p.skipped ≡ offset) × Done max_chars text p

  module _ (text : List codec.Character) (offset max_chars : ℕ) where
    -- The decoder has given `t` more.
    decoded-Ends :
        (s : codec.State) (t u left : List codec.Character)
        (go : codec.State → List codec.Character → Result ReadError (Progress codec))
        → text ≡ (u ++ t) ++ left
        → Ends offset max_chars text (go s (u ++ t))
        → Ends offset max_chars text (after_decode codec max_chars offset u (ok (t, s)) go)
    unfolding after_decode Done
    decoded-Ends s t u left go split rest = elim (le-or-lt (length (u ++ t)) max_chars) [
      | inl le ↦ rw (le→ltb_false max_chars (length (u ++ t)) le) rest
      | inr lt ↦ rw (lt→ltb max_chars (length (u ++ t)) lt) (
        record { skipped = offset; decoder = s; value = u ++ t; exceeded = true },
        refl,
        refl,
        inr (refl, left, split, lt),
      )
    ]

    -- Behind the offset, with `u` decoded, `v` to come and `q` held back.
    pub feed-Ends :
        (chunks : List (List ℕ)) (s : codec.State) (u v : List codec.Character) (q : List ℕ)
        → text ≡ u ++ v
        → q ++ concat chunks ≡ encode_text codec v
        → AtHead codec v q
        → laws.Holds s q
        → Ends offset max_chars text (read_chunks codec offset max_chars offset s u chunks)
    unfolding read_chunks Done
    feed-Ends [] s u v q split bytes at holds =
        let none_left = at_end codec laws v q at (sym (append_nil q) ∙ bytes) in
        (
          record { skipped = offset; decoder = s; value = u; exceeded = false },
          refl,
          refl,
          inl (
            refl,
            sym (split ∙ ap (λ l. u ++ l) (none_left.0) ∙ append_nil u),
            subst (laws.Holds s) (none_left.1) holds,
          ),
        )
    feed-Ends (chunk ∷ chunks) s u v q split bytes at holds =
        let next = decode_step codec laws s v q chunk (concat chunks) holds bytes in
        let split' = split ∙ ap (λ l. u ++ l) next.4 ∙ sym (append_assoc u next.0 next.1) in
        let rest =
          feed-Ends chunks next.3 (u ++ next.0) next.1 next.2 split' next.7 next.8 next.6 in
        rw (le→ltb_false offset offset (omega arith), next.5)
          (decoded-Ends next.3 next.0 u next.1
            (λ d w. read_chunks codec offset max_chars offset d w chunks) split' rest)

    -- Before the offset, with the bytes `before` to come until it.
    skip_over :
        (skipped : ℕ) (s : codec.State) (u : List codec.Character) (chunk : List ℕ)
        (chunks : List (List ℕ))
        → skipped < offset
        → length chunk ≤ offset - skipped
        → read_chunks codec offset max_chars skipped s u (chunk ∷ chunks)
          ≡ read_chunks codec offset max_chars (skipped + length chunk) s u chunks
    unfolding read_chunks
    skip_over skipped s u chunk chunks lt le =
        rw (lt→ltb skipped offset lt, least, nothing chunk) refl
      where
        least : min (length chunk) (offset - skipped) ≡ length chunk
        least = omega (arith, le)

        nothing : (c : List ℕ) → drop (length c) c ≡ []
        nothing [] = refl
        nothing (x ∷ c) = nothing c

    skip_into :
        (skipped : ℕ) (s : codec.State) (u : List codec.Character) (before : List ℕ) (b : ℕ)
        (bs : List ℕ) (chunks : List (List ℕ))
        → skipped < offset
        → skipped + length before ≡ offset
        → read_chunks codec offset max_chars skipped s u ((before ++ (b ∷ bs)) ∷ chunks)
          ≡ read_chunks codec offset max_chars offset s u ((b ∷ bs) ∷ chunks)
    unfolding read_chunks
    skip_into skipped s u before b bs chunks lt sum =
        rw
          (
            lt→ltb skipped offset lt,
            least,
            rest_of before,
            sum,
            le→ltb_false offset offset (omega arith),
          )
          refl
      where
        least : min (length (before ++ (b ∷ bs))) (offset - skipped) ≡ length before
        least = rw (length-append before (b ∷ bs)) (omega (arith, sum))

        rest_of : (c : List ℕ) → drop (length c) (c ++ (b ∷ bs)) ≡ b ∷ bs
        rest_of [] = refl
        rest_of (x ∷ c) = rest_of c

    pub skip-Ends :
        (chunks : List (List ℕ)) (skipped : ℕ) (before : List ℕ)
        → skipped + length before ≡ offset
        → concat chunks ≡ before ++ encode_text codec text
        → Ends offset max_chars text
            (read_chunks codec offset max_chars skipped codec.start [] chunks)
    skip-Ends chunks skipped [] sum bytes =
        subst
          (λ n.
            Ends offset max_chars text (read_chunks codec offset max_chars n codec.start [] chunks))
          (omega (arith, sum))
          (feed-Ends chunks codec.start [] text [] refl bytes (AtHead-nil codec laws text)
            laws.start_holds)
    skip-Ends [] skipped (x ∷ before) sum bytes = absurd (omega (arith, ap length bytes))
    skip-Ends (chunk ∷ chunks) skipped (x ∷ before) sum bytes =
        elim (le-or-lt (length chunk) (length (x ∷ before))) [
          | inl le ↦
              let cut =
                append_split (x ∷ before) (encode_text codec text) chunk (concat chunks) (sym bytes)
                  le in
              let rest =
                skip-Ends chunks (skipped + length chunk) cut.0
                  (omega (arith, sum, ap length cut.1, length-append chunk cut.0)) (sym cut.2) in
              subst (Ends offset max_chars text)
                (sym (
                  skip_over skipped codec.start [] chunk chunks (omega (arith, sum))
                    (omega (arith, sum, le))))
                rest
          | inr lt ↦
              let cut =
                append_split chunk (concat chunks) (x ∷ before) (encode_text codec text) bytes
                  (omega (arith, lt)) in
              into cut.0 cut.1 cut.2 lt
        ]
      where
        into :
            (e : List ℕ)
            → chunk ≡ (x ∷ before) ++ e
            → e ++ concat chunks ≡ encode_text codec text
            → length (x ∷ before) < length chunk
            → Ends offset max_chars text
                (read_chunks codec offset max_chars skipped codec.start [] (chunk ∷ chunks))
        into [] c h lt = absurd (omega (arith, lt, ap length c, ap length (append_nil before)))
        into (b ∷ bs) c h lt =
            subst (Ends offset max_chars text)
              (sym (
                ap (λ l. read_chunks codec offset max_chars skipped codec.start [] (l ∷ chunks)) c
                ∙ skip_into skipped codec.start [] (x ∷ before) b bs chunks (omega (arith, sum))
                    sum))
              (feed-Ends ((b ∷ bs) ∷ chunks) codec.start [] text [] refl h
                (AtHead-nil codec laws text) laws.start_holds)
