-- ===== src/Content/Reading/Bounded.antt =====
-- application/content/service.py: `_read_bounded` against the bytes of the whole stream.
use web_access_mcp_server.Base.{
  ℕ, ◌+◌, ◌-◌, ◌≤◌, ◌<◌, ◌≡◌, refl, sym, ap, ◌∙◌, inl, inr, Bool, true, false, List, [], ◌∷◌, ◌++◌,
  take, length, length-append, leb, arith, if◌then◌else◌, All, append_nil, append_assoc, take_all,
  length-take_enough, take-append, take-append_left, concat, le→leb, lt→ltb, lt→leb_false,
  le→ltb_false, le-or-lt,
}
use web_access_mcp_server.Base.Effects.{Result, ok, raised}
use web_access_mcp_server.Content.Reading.{ReadError, input_limit, bounded, read_bounded}

-- the bytes if they fit
unfoldable pub whole_within : ℕ → List ℕ → Result ReadError (List ℕ)
whole_within limit content = if leb (length content) limit then ok content else raised input_limit

too_long :
    (limit : ℕ) (content : List ℕ)
    → limit < length content
    → whole_within limit content ≡ raised input_limit
unfolding whole_within
too_long limit content h = ground arith

fits :
    (limit : ℕ) (content : List ℕ)
    → length content ≤ limit
    → whole_within limit content ≡ ok content
unfolding whole_within
fits limit content h = ground arith

module _ (limit : ℕ) where
  -- The strict loop goes on with the whole of a chunk that fits.
  strict_fits :
      (result chunk : List ℕ) (chunks : List (List ℕ))
      → length result < limit
      → length chunk ≤ limit - length result
      → bounded true limit result (chunk ∷ chunks) ≡ bounded true limit (result ++ chunk) chunks
  unfolding bounded
  strict_fits result chunk chunks lt le =
      rw
        (
          lt→leb_false limit (length result) lt,
          take_all (limit - length result + 1) chunk (omega (arith, le)),
          le→ltb_false limit (length (result ++ chunk))
              (rw (length-append result chunk) (omega (arith, le, lt))),
        )
        (both (leb limit (length (result ++ chunk))))
    where
      both :
          (b : Bool)
          → (if b
              then (if true
                  then bounded true limit (result ++ chunk) chunks
                  else ok (result ++ chunk))
              else bounded true limit (result ++ chunk) chunks)
            ≡ bounded true limit (result ++ chunk) chunks
      both true = refl
      both false = refl

  strict_too_long :
      (result chunk : List ℕ) (chunks : List (List ℕ))
      → length result < limit
      → limit - length result < length chunk
      → bounded true limit result (chunk ∷ chunks) ≡ raised input_limit
  unfolding bounded
  strict_too_long result chunk chunks lt more =
      rw
        (
          lt→leb_false limit (length result) lt,
          lt→ltb limit (length (result ++ take (limit - length result + 1) chunk)) (
              rw
                (
                  length-append result (take (limit - length result + 1) chunk),
                  length-take_enough (limit - length result + 1) chunk (omega (arith, more)),
                )
                (omega (arith, lt))),
        )
        refl

  full :
      (result chunk : List ℕ) (chunks : List (List ℕ))
      → limit ≤ length result
      → bounded true limit result (chunk ∷ chunks) ≡ raised input_limit
  unfolding bounded
  full result chunk chunks le = rw (le→leb limit (length result) le) refl

  whole_too_long :
      (result chunk : List ℕ) (chunks : List (List ℕ))
      → limit < length result + length chunk
      → whole_within limit (result ++ (chunk ++ concat chunks)) ≡ raised input_limit
  whole_too_long result chunk chunks lt = too_long limit (result ++ (chunk ++ concat chunks)) (
      rw (length-append result (chunk ++ concat chunks), length-append chunk (concat chunks))
        (omega (arith, lt)))

  bounded-whole :
      (result : List ℕ) (chunks : List (List ℕ))
      → length result ≤ limit
      → All (λ c. 1 ≤ length c) chunks
      → bounded true limit result chunks ≡ whole_within limit (result ++ concat chunks)
  unfolding bounded
  bounded-whole result [] le pieces =
      sym (fits limit result le) ∙ ap (whole_within limit) (sym (append_nil result))
  bounded-whole result (chunk ∷ chunks) le pieces = elim (le-or-lt limit (length result)) [
    | inl e ↦
        full result chunk chunks e
        ∙ sym (whole_too_long result chunk chunks (omega (arith, e, pieces.0)))
    | inr lt ↦ elim (le-or-lt (length chunk) (limit - length result)) [
      | inl small ↦
          strict_fits result chunk chunks lt small
          ∙ bounded-whole (result ++ chunk) chunks
              (rw (length-append result chunk) (omega (arith, small, lt))) pieces.1
          ∙ ap (whole_within limit) (append_assoc result chunk (concat chunks))
      | inr large ↦
          strict_too_long result chunk chunks lt large
          ∙ sym (whole_too_long result chunk chunks (omega (arith, large, lt)))
    ]
  ]

  -- A sample that is full, or that a chunk fills, is returned at once.
  sample_full :
      (result chunk : List ℕ) (chunks : List (List ℕ))
      → limit ≤ length result
      → bounded false limit result (chunk ∷ chunks) ≡ ok result
  unfolding bounded
  sample_full result chunk chunks le = rw (le→leb limit (length result) le) refl

  sample_filled :
      (result chunk : List ℕ) (chunks : List (List ℕ))
      → length result < limit
      → limit - length result ≤ length chunk
      → bounded false limit result (chunk ∷ chunks)
        ≡ ok (result ++ take (limit - length result) chunk)
  unfolding bounded
  sample_filled result chunk chunks lt le =
      rw
        (
          lt→leb_false limit (length result) lt,
          plus_zero,
          le→ltb_false limit (length (result ++ take (limit - length result) chunk))
              (omega (arith, exact)),
          le→leb limit (length (result ++ take (limit - length result) chunk))
              (omega (arith, exact)),
        )
        refl
    where
      plus_zero : limit - length result + 0 ≡ limit - length result
      plus_zero = omega arith

      exact : length (result ++ take (limit - length result) chunk) ≡ limit
      exact =
          rw
            (
              length-append result (take (limit - length result) chunk),
              length-take_enough (limit - length result) chunk le,
            )
            (omega (arith, lt))

  sample_goes_on :
      (result chunk : List ℕ) (chunks : List (List ℕ))
      → length chunk < limit - length result
      → bounded false limit result (chunk ∷ chunks) ≡ bounded false limit (result ++ chunk) chunks
  unfolding bounded
  sample_goes_on result chunk chunks lt =
      rw
        (
          lt→leb_false limit (length result) (omega (arith, lt)),
          take_all (limit - length result + 0) chunk (omega (arith, lt)),
          le→ltb_false limit (length (result ++ chunk)) (omega (arith, short)),
          lt→leb_false limit (length (result ++ chunk)) short,
        )
        refl
    where
      short : length (result ++ chunk) < limit
      short = rw (length-append result chunk) (omega (arith, lt))

  bounded-take :
      (result : List ℕ) (chunks : List (List ℕ))
      → length result ≤ limit
      → bounded false limit result chunks ≡ ok (take limit (result ++ concat chunks))
  unfolding bounded
  bounded-take result [] le =
      ap ok (sym (ap (take limit) (append_nil result) ∙ take_all limit result le))
  bounded-take result (chunk ∷ chunks) le = elim (le-or-lt limit (length result)) [
    | inl e ↦
        sample_full result chunk chunks e
        ∙ ap ok (
            sym
              (take-append_left limit result (chunk ++ concat chunks) e ∙ take_all limit result le))
    | inr lt ↦ elim (le-or-lt (limit - length result) (length chunk)) [
      | inl enough ↦
          sample_filled result chunk chunks lt enough
          ∙ ap ok (
              sym (
                take-append limit result (chunk ++ concat chunks) le
                ∙ ap (λ l. result ++ l)
                    (take-append_left (limit - length result) chunk (concat chunks) enough)))
      | inr short ↦
          sample_goes_on result chunk chunks short
          ∙ bounded-take (result ++ chunk) chunks
              (rw (length-append result chunk) (omega (arith, short)))
          ∙ ap (λ l. ok (take limit l)) (append_assoc result chunk (concat chunks))
    ]
  ]

-- A strict read returns the bytes of the whole stream if they are within the limit, and raises
-- otherwise; a read of a sample returns the first bytes, up to the limit. No chunk of an opened
-- stream is empty.
pub read_bounded_iff :
    (limit : ℕ) (chunks : List (List ℕ))
    → All (λ c. 1 ≤ length c) chunks
    → (read_bounded true limit chunks ≡ whole_within limit (concat chunks))
      × (read_bounded false limit chunks ≡ ok (take limit (concat chunks)))
unfolding read_bounded
read_bounded_iff limit chunks pieces =
    (bounded-whole limit [] chunks (omega arith) pieces, bounded-take limit [] chunks (omega arith))
