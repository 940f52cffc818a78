-- ===== src/Search/Providers/Ranks.antt =====
-- What holds of the result items of both adapters: their ranks, and what their constructor takes.
use web_access_mcp_server.Base.{
  ◌≡◌, refl, ℕ, suc, ◌+◌, arith, true, List, [], ◌∷◌, ◌++◌, length, leb, text_length, String,
  Option, none, some, is_some,
}
use web_access_mcp_server.Base.Effects.{ok}
use web_access_mcp_server.Search.Providers.{
  SearchResultItem, Parsed, Platform, web_host, validate_result_item, result_item,
}

-- items whose ranks count up from `n`
abbrev pub Ranked : ℕ → List SearchResultItem → Type 0
Ranked n [] = Unit
Ranked n (item ∷ items) = (item.rank ≡ n) × Ranked (suc n) items

pub Ranked-append :
    (n : ℕ) (items : List SearchResultItem) (item : SearchResultItem)
    → Ranked n items
    → item.rank ≡ n + length items
    → Ranked n (items ++ (item ∷ []))
Ranked-append n [] item h e = (omega (arith, e), tt)
Ranked-append n (x ∷ items) item h e =
    (h.0, Ranked-append (suc n) items item h.1 (omega (arith, e)))

-- the constructor of an item that its validator accepts
pub result_item-valid :
    (item : SearchResultItem) → validate_result_item item ≡ true → result_item item ≡ ok item
unfolding result_item
result_item-valid item h = rw h refl

-- What is stated of a result that is there.
abbrev pub Given {ℓ κ} : {A : Type ℓ} → (A → Type κ) → Option A → Type κ
Given P none = Unit
Given P (some a) = P a

-- a text within a bound
abbrev pub Bounded : ℕ → String → Type 0
Bounded m s = leb (text_length s) m ≡ true

-- the items of a state and the skipped
abbrev pub seen : Parsed → ℕ
seen state = length state.parsed + state.skipped

module _ (platform : Platform) where
  -- a URL with a host and one of the two schemes
  abbrev pub IsWeb : String → Type 0
  IsWeb url = is_some (web_host (platform.urlsplit url)) ≡ true

  -- an item as the public interface has it
  abbrev pub Public : SearchResultItem → Type 0
  Public item = (validate_result_item item ≡ true) × IsWeb item.url
