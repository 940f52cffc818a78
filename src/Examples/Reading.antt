-- ===== src/Examples/Reading.antt =====
-- The reads of application/content/service.py on concrete inputs, with a codec of two bytes for each
-- character.
use web_access_mcp_server.Base.{
  ℕ, ◌≤◌, ◌≡◌, ◌⊎◌, inl, inr, refl, ap, ◌∙◌, true, false, Option, none, some, List, [], ◌∷◌, ◌++◌,
  length, length-append, take, concat, All, arith,
}
use web_access_mcp_server.Base.Effects.{ok}
use web_access_mcp_server.Content.Reading.{Utf8, encode_text, read_bounded, read_pages}
use web_access_mcp_server.Content.Reading.Bounded.{whole_within, read_bounded_iff}
use web_access_mcp_server.Content.Reading.Split.{Begins, Utf8Laws}
use web_access_mcp_server.Content.Reading.Pages.{read_pages-text}

-- the bytes held back
abbrev held : Option ℕ → List ℕ
held none = []
held (some b) = b ∷ []

abbrev pairs : List ℕ → List ℕ × Option ℕ
pairs [] = ([], none)
pairs (b ∷ []) = ([], some b)
pairs (b ∷ c ∷ bs) = let (u, s) = pairs bs in (c ∷ u, s)

abbrev pub codec : Utf8
codec = record {
  Character = ℕ;
  State = Option ℕ;
  encode = λ c. 195 ∷ c ∷ [];
  start = none;
  decode = λ s bytes final. ok (pairs (held s ++ bytes));
}

state_of : List ℕ → Option ℕ
state_of [] = none
state_of (b ∷ bs) = some b

pairs_lem : (u q : List ℕ) → length q ≤ 1 → pairs (encode_text codec u ++ q) ≡ (u, state_of q)
unfolding state_of
pairs_lem [] [] h = refl
pairs_lem [] (b ∷ []) h = refl
pairs_lem [] (b ∷ c ∷ q) h = absurd (omega (arith, h))
pairs_lem (c ∷ u) q h = ap (λ (p : List ℕ × Option ℕ). (c ∷ p.0, p.1)) (pairs_lem u q h)

Holds : Option ℕ → List ℕ → Type 0
Holds s q = held s ≡ q

short : (q : List ℕ) → (q ≡ []) ⊎ ((c : ℕ) × Begins codec c q) → length q ≤ 1
short q (inl e) = omega (arith, ap length e)
short q (inr (c, (z, e, h))) = omega (arith, ap length e, length-append q z, h)

held_state : (q : List ℕ) → length q ≤ 1 → held (state_of q) ≡ q
unfolding state_of
held_state [] h = refl
held_state (b ∷ []) h = refl
held_state (b ∷ c ∷ q) h = absurd (omega (arith, h))

pub laws : Utf8Laws codec
unfolding Holds
laws = record {
  Holds = Holds;
  encode_some = λ c. omega arith;
  start_holds = refl;
  decode_more = λ s q b u q' h e at. (
    state_of q',
    ap (λ l. ok (pairs l)) (ap (λ l. l ++ b) h ∙ e) ∙ ap ok (pairs_lem u q' (short q' at)),
    held_state q' (short q' at),
  );
  decode_end = λ s h. (none, ap (λ l. ok (pairs (l ++ []))) h);
}

-- The chunks cut the second character.
abbrev pub chunks : List (List ℕ)
chunks = (195 ∷ 161 ∷ 195 ∷ []) ∷ (162 ∷ 195 ∷ 163 ∷ []) ∷ []

abbrev pub text : List ℕ
text = 161 ∷ 162 ∷ 163 ∷ []

two_pages :
    read_pages codec 4 2 (λ offset. chunks) 0 ≡ some (ok ((161 ∷ 162 ∷ []) ∷ (163 ∷ []) ∷ []))
unfolding read_pages
two_pages = refl

read_pages-text_example :
    (pages : List (List ℕ)) × (read_pages codec 4 2 (λ offset. chunks) 0 ≡ some (ok pages))
    × (concat pages ≡ text)
    × All (λ p. length p ≤ 2) pages
read_pages-text_example =
    read_pages-text codec laws text 2 (λ offset. chunks) (omega arith) (λ o. refl)

read_bounded_iff_example :
    (read_bounded true 5 chunks ≡ whole_within 5 (concat chunks))
    × (read_bounded false 5 chunks ≡ ok (take 5 (concat chunks)))
read_bounded_iff_example = read_bounded_iff 5 chunks (omega arith, (omega arith, tt))
