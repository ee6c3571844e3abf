-- ===== src/Zellij/SessionId.antt =====
-- internal/zellijlive/catalog.go and internal/mirror/session_inventory.go: the identity of one
-- incarnation of a session, a digest in base64 without padding, and the test for one.
use terminal_redeemer.Base.{
  ℕ, ◌+◌, ◌-◌, ◌*◌, ◌/◌, ◌%◌, ◌<◌, ◌≡◌, refl, Bool, true, false, not, ◌&&◌, ◌||◌, ◌==◌, ltb,
  between, if◌then◌else◌, Text, codes, same, List, [], ◌∷◌, ◌++◌, map, Option, none, some, ◌>>=◌,
  length, keep, All, arith,
}
use terminal_redeemer.Base.{strip_prefix, strip_prefix-append}

abbrev pub id_prefix : Text
id_prefix = codes "ses_"

-- The URL alphabet of encoding/base64.
symbol : ℕ → ℕ
symbol v =
    if ltb v 26
    then v + 65
    else if ltb v 52
    then v + 71
    else if ltb v 62
    then v - 4
    else if v == 62
    then b'-'
    else b'_'

symbol_value : ℕ → Option ℕ
symbol_value c =
    if between 65 90 c
    then some (c - 65)
    else if between 97 122 c
    then some (c - 71)
    else if between 48 57 c
    then some (c + 4)
    else if c == b'-'
    then some 62
    else if c == b'_'
    then some 63
    else none

sextets : List ℕ → List ℕ
sextets [] = []
sextets (a ∷ []) = a / 4 ∷ (a % 4) * 16 ∷ []
sextets (a ∷ b ∷ []) = a / 4 ∷ ((a % 4) * 16 + b / 16) ∷ (b % 16) * 4 ∷ []
sextets (a ∷ b ∷ c ∷ s) =
    a / 4 ∷ ((a % 4) * 16 + b / 16) ∷ ((b % 16) * 4 + c / 64) ∷ c % 64 ∷ sextets s

bytes : List ℕ → Option (List ℕ)
bytes [] = some []
bytes (a ∷ []) = none
bytes (a ∷ b ∷ []) = some ((a * 4 + b / 16) ∷ [])
bytes (a ∷ b ∷ c ∷ []) = some ((a * 4 + b / 16) ∷ ((b % 16) * 16 + c / 4) ∷ [])
bytes (a ∷ b ∷ c ∷ d ∷ s) =
    bytes s >>= λ r. some ((a * 4 + b / 16) ∷ ((b % 16) * 16 + c / 4) ∷ ((c % 4) * 64 + d) ∷ r)

symbol_values : Text → Option (List ℕ)
symbol_values [] = some []
symbol_values (c ∷ s) = symbol_value c >>= λ v. symbol_values s >>= λ r. some (v ∷ r)

is_newline : ℕ → Bool
is_newline c = c == 10 || c == 13

-- `base64.RawURLEncoding.EncodeToString`.
unfoldable pub encode : List ℕ → Text
unfolding symbol sextets
encode d = map symbol (sextets d)

-- `base64.RawURLEncoding.DecodeString`: line breaks are skipped, and the bits left over in the
-- last symbol are not looked at.
unfoldable pub decode : Text → Option (List ℕ)
unfolding symbol_value symbol_values bytes is_newline
decode s = symbol_values (keep (λ c. not (is_newline c)) s) >>= bytes

unfoldable pub valid_session_id : Text → Bool
valid_session_id id = elim (strip_prefix id_prefix id) [
  | none ↦ false
  | some rest ↦ elim (decode rest) [
    | none ↦ false
    | some digest ↦ length digest == 32 && same (id_prefix ++ encode digest) id
  ]
]

abbrev pub IsByte : ℕ → Type 0
IsByte b = b < 256

symbol_lem : (v : ℕ) → v < 64 → (symbol_value (symbol v) ≡ some v) × (is_newline (symbol v) ≡ false)
unfolding symbol symbol_value is_newline
symbol_lem v h = (ground arith, ground arith)

symbol_values-map :
    (vs : List ℕ)
    → All (λ v. v < 64) vs
    → symbol_values (keep (λ c. not (is_newline c)) (map symbol vs)) ≡ some vs
unfolding symbol_values keep
symbol_values-map [] h = refl
symbol_values-map (v ∷ vs) h =
    rw ((symbol_lem v h.0).1, (symbol_lem v h.0).0, symbol_values-map vs h.1)

sextets-range : (d : List ℕ) → All IsByte d → All (λ v. v < 64) (sextets d)
unfolding sextets
sextets-range [] h = tt
sextets-range (a ∷ []) h = omega arith
sextets-range (a ∷ b ∷ []) h = omega arith
sextets-range (a ∷ b ∷ c ∷ s) h =
    (omega arith, (omega arith, (omega arith, (omega arith, sextets-range s h.1.1.1))))

bytes-sextets : (d : List ℕ) → All IsByte d → bytes (sextets d) ≡ some d
unfolding bytes sextets
bytes-sextets [] h = refl
bytes-sextets (a ∷ []) h = ground arith
bytes-sextets (a ∷ b ∷ []) h = ground arith
bytes-sextets (a ∷ b ∷ c ∷ s) h = rw (bytes-sextets s h.1.1.1) (ground arith)

-- Decoding gives back the bytes that were encoded.
pub decode-encode : (d : List ℕ) → All IsByte d → decode (encode d) ≡ some d
unfolding decode encode
decode-encode d h = rw (symbol_values-map (sextets d) (sextets-range d h)) (bytes-sextets d h)

-- `SessionID` of catalog.go over the digest of its payload; SHA-256 is a parameter.
unfoldable pub digest_id : List ℕ → Text
digest_id digest = id_prefix ++ encode digest

-- The identity made of any 32 byte digest passes the test that every receiver makes.
pub valid_session_id-digest_id :
    (d : List ℕ) → length d ≡ 32 → All IsByte d → valid_session_id (digest_id d) ≡ true
unfolding valid_session_id digest_id
valid_session_id-digest_id d h b =
    rw (strip_prefix-append id_prefix (encode d), valid_session_id)
      (rw (decode-encode d b) (ground arith))
