-- ===== src/Supervisor/Invariant/Tokens.antt =====
-- Random bytes in hexadecimal digits, as the attempts of internal/mirror/session_supervisor.go are made.
use terminal_redeemer.Base.{
  hex_encode, hex_digit, ℕ, ◌+◌, ◌/◌, ◌%◌, ◌<◌, ◌≡◌, refl, true, false, not, List, [], ◌∷◌, Option,
  none, some, arith, All, any, length,
}
use terminal_redeemer.Recovery.Request.{hex_token, is_lower_hex}

-- Sixteen random bytes, where the source of them works.
abbrev pub Random : Option (List ℕ) → Type 0
Random none = Unit
Random (some nonce) = (length nonce ≡ 16) × All (λ b. b < 256) nonce

length-hex_encode : (bs : List ℕ) → length (hex_encode bs) ≡ length bs + length bs
unfolding hex_encode
length-hex_encode [] = refl
length-hex_encode (b ∷ bs) = omega (arith, length-hex_encode bs)

hex_digit_hex : (n : ℕ) → n < 16 → is_lower_hex (hex_digit n) ≡ true
unfolding is_lower_hex
hex_digit_hex n h = ground arith

hex_encode_digits :
    (bs : List ℕ) → All (λ b. b < 256) bs → any (λ c. not (is_lower_hex c)) (hex_encode bs) ≡ false
unfolding hex_encode any
hex_encode_digits [] h = refl
hex_encode_digits (b ∷ bs) (h, hs) = ground (
  arith,
  hex_digit_hex (b / 16) (omega arith),
  hex_digit_hex (b % 16) (omega arith),
  hex_encode_digits bs hs,
)

pub hex_token-hex_encode :
    (nonce : List ℕ) → Random (some nonce) → hex_token (hex_encode nonce) ≡ true
unfolding hex_token
hex_token-hex_encode nonce (e, h) =
    ground (arith, length-hex_encode nonce, hex_encode_digits nonce h)
