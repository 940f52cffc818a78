-- ===== src/Content/Batch/Codes.antt =====
-- application/common/errors.py: the codes that `MachineCode` takes.
use Prim.Native.Char.{code}
use web_access_mcp_server.Base.{
  ◌&&◌, ◌≤◌, ◌⊎◌, leb, text_length, and_left, and_right, leb→le, le→leb, and_both, false, arith, ℕ,
  String, ◌≡◌, refl, true,
}
use web_access_mcp_server.Common.Auth.{AuthenticationFailure, failure_value}
use web_access_mcp_server.Content.Batch.{is_code_char, are_code_chars, is_machine_code}

-- the pattern ^[a-z0-9_]+$ with at most 64 characters
abbrev IsCodeChar : ℕ → Type 0
IsCodeChar n = ((b'a' ≤ n) × (n ≤ b'z')) ⊎ (((b'0' ≤ n) × (n ≤ b'9')) ⊎ (n ≡ b'_'))

abbrev AreCodeChars : String → Type 0
AreCodeChars String.[] = Unit {0}
AreCodeChars (String.◌∷◌ c s) = IsCodeChar (code c) × AreCodeChars s

abbrev pub IsMachineCode : String → Type 0
IsMachineCode s = (1 ≤ text_length s) × ((text_length s ≤ 64) × AreCodeChars s)

is_code_char-IsCodeChar : (n : ℕ) → is_code_char n ≡ true → IsCodeChar n
is_code_char-IsCodeChar n h = ground arith

are_code_chars-AreCodeChars : (s : String) → are_code_chars s ≡ true → AreCodeChars s
are_code_chars-AreCodeChars String.[] h = tt
are_code_chars-AreCodeChars (String.◌∷◌ c s) h = (
  is_code_char-IsCodeChar (code c) (and_left (is_code_char (code c)) (are_code_chars s) h),
  are_code_chars-AreCodeChars s (and_right (is_code_char (code c)) (are_code_chars s) h),
)

pub is_machine_code-IsMachineCode : (s : String) → is_machine_code s ≡ true → IsMachineCode s
is_machine_code-IsMachineCode s h =
    let some_chars = leb 1 (text_length s) in
    let few_chars = leb (text_length s) 64 in
    let both = and_left (some_chars && few_chars) (are_code_chars s) h in
    (
      leb→le 1 (text_length s) (and_left some_chars few_chars both),
      (
        leb→le (text_length s) 64 (and_right some_chars few_chars both),
        are_code_chars-AreCodeChars s (and_right (some_chars && few_chars) (are_code_chars s) h),
      ),
    )

IsCodeChar-is_code_char : (n : ℕ) → IsCodeChar n → is_code_char n ≡ true
IsCodeChar-is_code_char n h = ground arith

AreCodeChars-are_code_chars : (s : String) → AreCodeChars s → are_code_chars s ≡ true
AreCodeChars-are_code_chars String.[] h = refl
AreCodeChars-are_code_chars (String.◌∷◌ c s) h =
    and_both (is_code_char (code c)) (are_code_chars s) (IsCodeChar-is_code_char (code c) h.0)
      (AreCodeChars-are_code_chars s h.1)

-- A text that is refused is no machine code.
pub not_IsMachineCode : (s : String) → is_machine_code s ≡ false → IsMachineCode s → ⊥
not_IsMachineCode s refused h =
    let some_chars = leb 1 (text_length s) in
    let few_chars = leb (text_length s) 64 in
    cc (
      refused,
      and_both (some_chars && few_chars) (are_code_chars s)
          (and_both some_chars few_chars (le→leb 1 (text_length s) h.0)
            (le→leb (text_length s) 64 h.1.0))
          (AreCodeChars-are_code_chars s h.1.1),
    )

-- Each code of `AuthenticationFailure` is a machine code.
pub failure_value-machine : (f : AuthenticationFailure) → is_machine_code (failure_value f) ≡ true
failure_value-machine AuthenticationFailure.missing_credentials = refl
failure_value-machine AuthenticationFailure.invalid_credentials = refl
failure_value-machine AuthenticationFailure.expired_credentials = refl
failure_value-machine AuthenticationFailure.credential_disabled = refl
failure_value-machine AuthenticationFailure.insufficient_scope = refl
failure_value-machine AuthenticationFailure.owner_access_denied = refl
