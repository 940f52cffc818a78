-- ===== src/Content/Reading/Split.antt =====
-- application/content/service.py: bytes cut anywhere, between or inside the encodings of characters.
use web_access_mcp_server.Base.{
  ℕ, ◌≤◌, ◌<◌, ◌≡◌, ◌⊎◌, refl, sym, ap, ◌∙◌, inl, inr, true, false, List, [], ◌∷◌, ◌++◌, length,
  length-append, arith, append_assoc, le-or-lt,
}
use web_access_mcp_server.Base.Effects.{ok}
use web_access_mcp_server.Content.Reading.{Utf8, encode_text}

abbrev tail : List ℕ → List ℕ
tail [] = []
tail (x ∷ xs) = xs

abbrev head : ℕ → List ℕ → ℕ
head n [] = n
head n (x ∷ xs) = x

-- Of two ways to cut the same bytes, the later one cuts what is left of the earlier one.
pub append_split :
    (a b c d : List ℕ)
    → a ++ b ≡ c ++ d
    → length c ≤ length a
    → (e : List ℕ) × (a ≡ c ++ e) × (e ++ b ≡ d)
append_split a b [] d h le = (a, refl, h)
append_split [] b (x ∷ c) d h le = absurd (omega (arith, le))
append_split (y ∷ a) b (x ∷ c) d h le =
    let rest = append_split a b c d (ap tail h) (omega (arith, le)) in
    (rest.0, (λ i. head y (h i) ∷ rest.1 i), rest.2)

module _ (codec : Utf8) where
  pub encode_text-append :
      (u v : List codec.Character)
      → encode_text codec (u ++ v) ≡ encode_text codec u ++ encode_text codec v
  encode_text-append [] v = refl
  encode_text-append (c ∷ u) v =
      ap (λ l. codec.encode c ++ l) (encode_text-append u v)
      ∙ sym (append_assoc (codec.encode c) (encode_text codec u) (encode_text codec v))

  -- bytes that a character's encoding begins with and goes beyond
  abbrev pub Begins : codec.Character → List ℕ → Type 0
  Begins c q = (z : List ℕ) × (codec.encode c ≡ q ++ z) × (1 ≤ length z)

  -- bytes inside the first character of a text
  abbrev pub AtHead : List codec.Character → List ℕ → Type 0
  AtHead [] q = q ≡ []
  AtHead (c ∷ v) q = Begins c q

  -- What the standard library documents of the codec: no character is encoded as nothing; the
  -- incremental decoder returns the characters whose bytes are complete and holds back the others;
  -- and it ends well when it holds nothing back.
  pub record Utf8Laws : Type 1 where
    pub Holds : codec.State → List ℕ → Type 0
    pub encode_some : (c : codec.Character) → 1 ≤ length (codec.encode c)
    pub start_holds : Holds codec.start []
    pub decode_more :
        (s : codec.State) (q b : List ℕ) (u : List codec.Character) (q' : List ℕ)
        → Holds s q
        → q ++ b ≡ encode_text codec u ++ q'
        → (q' ≡ []) ⊎ ((c : codec.Character) × Begins c q')
        → (s' : codec.State) × (codec.decode s b false ≡ ok (u, s')) × Holds s' q'
    pub decode_end :
        (s : codec.State) → Holds s [] → (s' : codec.State) × (codec.decode s [] true ≡ ok ([], s'))

  module _ (laws : Utf8Laws) where
    pub AtHead-nil : (v : List codec.Character) → AtHead v []
    AtHead-nil [] = refl
    AtHead-nil (c ∷ v) = (codec.encode c, refl, laws.encode_some c)

    -- Bytes before a cut are whole characters and the beginning of the next one.
    pub split_text :
        (v : List codec.Character) (p z : List ℕ)
        → p ++ z ≡ encode_text codec v
        → (u v' : List codec.Character) × (q : List ℕ) × (v ≡ u ++ v')
          × (p ≡ encode_text codec u ++ q)
          × (q ++ z ≡ encode_text codec v')
          × AtHead v' q
    split_text [] [] z h = ([], [], [], refl, refl, h, refl)
    split_text [] (x ∷ p) z h = absurd (omega (arith, ap length h))
    split_text (c ∷ v) p z h = elim (le-or-lt (length (codec.encode c)) (length p)) [
      | inl le ↦
          let cut = append_split p z (codec.encode c) (encode_text codec v) h le in
          let rest = split_text v cut.0 z cut.2 in
          (
            c ∷ rest.0,
            rest.1,
            rest.2,
            ap (λ l. c ∷ l) rest.3,
            cut.1
                ∙ ap (λ l. codec.encode c ++ l) rest.4
                ∙ sym (append_assoc (codec.encode c) (encode_text codec rest.0) rest.2),
            rest.5,
            rest.6,
          )
      | inr lt ↦
          let cut =
            append_split (codec.encode c) (encode_text codec v) p z (sym h) (omega (arith, lt)) in
          ([], c ∷ v, p, refl, refl, h, (cut.0, cut.1, longer cut.0 cut.1 lt))
    ]
      where
        longer :
            (e : List ℕ)
            → codec.encode c ≡ p ++ e
            → length p < length (codec.encode c)
            → 1 ≤ length e
        longer e s l = omega (arith, ap length s, length-append p e, l)

    -- Bytes inside the first character that are the whole text: there is no text.
    pub at_end :
        (v : List codec.Character) (q : List ℕ)
        → AtHead v q
        → q ≡ encode_text codec v
        → (v ≡ []) × (q ≡ [])
    at_end [] q h e = (refl, e)
    at_end (c ∷ v) q h e = absurd (
        omega (
          arith,
          ap length e,
          ap length h.1,
          length-append q h.0,
          length-append (codec.encode c) (encode_text codec v),
          h.2,
        ))

    AtHead-Begins :
        (v : List codec.Character) (q : List ℕ)
        → AtHead v q
        → (q ≡ []) ⊎ ((c : codec.Character) × Begins c q)
    AtHead-Begins [] q h = inl h
    AtHead-Begins (c ∷ v) q h = inr (c, h)

    -- One call of the decoder on a chunk of what is left of a text.
    pub decode_step :
        (s : codec.State) (v : List codec.Character) (q b z : List ℕ)
        → laws.Holds s q
        → q ++ (b ++ z) ≡ encode_text codec v
        → (u v' : List codec.Character) × (q' : List ℕ) × (s' : codec.State) × (v ≡ u ++ v')
          × (codec.decode s b false ≡ ok (u, s'))
          × laws.Holds s' q'
          × (q' ++ z ≡ encode_text codec v')
          × AtHead v' q'
    decode_step s v q b z holds h =
        let cut = split_text v (q ++ b) z (append_assoc q b z ∙ h) in
        let next =
          laws.decode_more s q b cut.0 cut.2 holds cut.4 (AtHead-Begins cut.1 cut.2 cut.6) in
        (cut.0, cut.1, cut.2, next.0, cut.3, next.1, next.2, cut.5, cut.6)
