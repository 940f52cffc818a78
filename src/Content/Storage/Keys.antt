-- ===== src/Content/Storage/Keys.antt =====
-- infrastructure/content/filesystem.py: the keys of the blobs.
use Prim.Native.Char.{Char, code}
use web_access_mcp_server.Base.{
  ℕ, suc, String, ◌≡◌, refl, ap, ◌∙◌, Bool, true, false, ◌&&◌, some, ◌==◌, ==_iff, and_left,
  and_right, append_text, arith,
}
use web_access_mcp_server.Content.Model.{is_hex, is_sha256, hex_text}
use web_access_mcp_server.Content.Storage.{key_parts, parts_of, after, path_for_key, storage_key_of}

refl_test : (n : ℕ) → (n == n) ≡ true
refl_test n = (==_iff n n).1 refl

all_hold :
    (a b c d e f : Bool)
    → a ≡ true
    → b ≡ true
    → c ≡ true
    → d ≡ true
    → e ≡ true
    → f ≡ true
    → (a && b && c && d && e && f) ≡ true
all_hold a b c d e f p q r s t u = ground arith

parts_lem :
    (x y : Char) (s : String)
    → is_sha256 (String.◌∷◌ x (String.◌∷◌ y s)) ≡ true
    → key_parts (String.◌∷◌ x (String.◌∷◌ y (String.◌∷◌ "/" (String.◌∷◌ x (String.◌∷◌ y s)))))
      ≡ some (String.◌∷◌ x (String.◌∷◌ y s))
unfolding key_parts hex_text
parts_lem x y s h = rw (all) refl
  where
    xy : (is_hex (code x) && (is_hex (code y) && hex_text 62 s)) ≡ true
    xy = h

    all :
        (is_hex (code x)
          && is_hex (code y)
          && b'/' == b'/'
          && is_sha256 (String.◌∷◌ x (String.◌∷◌ y s))
          && code x == code x
          && code y == code y)
        ≡ true
    all =
        all_hold (is_hex (code x)) (is_hex (code y)) (b'/' == b'/')
          (is_sha256 (String.◌∷◌ x (String.◌∷◌ y s))) (code x == code x) (code y == code y)
          (and_left (is_hex (code x)) (is_hex (code y) && hex_text 62 s) xy)
          (and_left (is_hex (code y)) (hex_text 62 s)
            (and_right (is_hex (code x)) (is_hex (code y) && hex_text 62 s) xy))
          refl h (refl_test (code x)) (refl_test (code y))

after-append : (p s : String) → after p (append_text p s) ≡ some s
unfolding after
after-append String.[] s = refl
after-append (String.◌∷◌ c p) s = rw (refl_test (code c)) (after-append p s)

no_hex_text : (n : ℕ) → hex_text (suc n) "" ≡ false
unfolding hex_text
no_hex_text n = refl

-- The path of a blob's key is the file of its hash.
pub path_for_key-storage_key_of :
    (sha256 : String) → is_sha256 sha256 ≡ true → path_for_key (storage_key_of sha256) ≡ some sha256
unfolding path_for_key parts_of storage_key_of hex_text
path_for_key-storage_key_of String.[] h = cc (h)
path_for_key-storage_key_of (String.◌∷◌ x String.[]) h =
    cc (and_right (is_hex (code x)) (hex_text 63 "") h, no_hex_text 62)
path_for_key-storage_key_of (String.◌∷◌ x (String.◌∷◌ y s)) h =
    ap parts_of (
      after-append "sha256/"
        (String.◌∷◌ x (String.◌∷◌ y (String.◌∷◌ "/" (String.◌∷◌ x (String.◌∷◌ y s))))))
    ∙ parts_lem x y s h
