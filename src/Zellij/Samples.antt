-- ===== src/Zellij/Samples.antt =====
-- A digest of zeros and its identity; the theorems at this input.
use terminal_redeemer.Base.{ℕ, zero, suc, ◌≡◌, refl, true, List, [], ◌∷◌, some, length, All, arith}
use terminal_redeemer.Zellij.SessionId.{
  IsByte, encode, decode, valid_session_id, digest_id, decode-encode, valid_session_id-digest_id,
}

abbrev zeros : ℕ → List ℕ
zeros zero = []
zeros (suc n) = 0 ∷ zeros n

zeros-All : (n : ℕ) → All IsByte (zeros n)
zeros-All zero = tt
zeros-All (suc n) = (omega arith, zeros-All n)

zeros-length : length (zeros 32) ≡ 32
zeros-length = refl

decode-encode_example : decode (encode (zeros 32)) ≡ some (zeros 32)
decode-encode_example = decode-encode (zeros 32) (zeros-All 32)

valid_session_id-digest_id_example : valid_session_id (digest_id (zeros 32)) ≡ true
valid_session_id-digest_id_example =
    valid_session_id-digest_id (zeros 32) zeros-length (zeros-All 32)
