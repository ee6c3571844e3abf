-- ===== src/Base/Strings.antt =====
-- What the program uses of Go's packages strings, unicode and utf8, on the bytes of a string.
pub mod Trimming
use Prim.Native.Nat.{ℕ, zero, suc, ◌+◌, ◌/◌, ◌%◌}
use mathlib.Core.Path.{◌≡◌, refl}
use mathlib.Core.Bool.{Bool, true, false, ◌&&◌, ◌||◌}
use mathlib.Core.Option.{Option, none, some}
use native.Mathlib.Omega.{arith}
use mathlib.Core.List.{List, [], ◌∷◌, ◌++◌, reverse}
use terminal_redeemer.Base.Tests.{◌>>=◌, ◌==◌, leb, ltb, if◌then◌else◌}
use terminal_redeemer.Base.Texts.{Text, codes}
use terminal_redeemer.Base.Lists.{length, any}

-- `lo <= b && b <= hi`.
abbrev pub between : ℕ → ℕ → ℕ → Bool
between lo hi b = leb lo b && leb b hi

drop : ℕ → Text → Text
drop zero s = s
drop (suc n) [] = []
drop (suc n) (b ∷ s) = drop n s

ascii_space : ℕ → Bool
ascii_space b = between 9 13 b || b == 32

-- The two and three byte encodings of the white space runes beyond ASCII.
space2 : ℕ → ℕ → Bool
space2 a b = a == 0xc2 && (b == 0x85 || b == 0xa0)

space3 : ℕ → ℕ → ℕ → Bool
space3 a b c =
    (a == 0xe1 && b == 0x9a && c == 0x80)
    || (a == 0xe2 && b == 0x80 && (between 0x80 0x8a c || c == 0xa8 || c == 0xa9 || c == 0xaf))
    || (a == 0xe2 && b == 0x81 && c == 0x9f)
    || (a == 0xe3 && b == 0x80 && c == 0x80)

-- The bytes of the white space rune at the front, 0 if there is none.
front_space : Text → ℕ
unfolding ascii_space space2 space3
front_space [] = 0
front_space (a ∷ []) = if ascii_space a then 1 else 0
front_space (a ∷ b ∷ []) = if ascii_space a then 1 else if space2 a b then 2 else 0
front_space (a ∷ b ∷ c ∷ s) =
    if ascii_space a then 1 else if space2 a b then 2 else if space3 a b c then 3 else 0

-- The same at the back of a string that is given reversed.
back_space : Text → ℕ
unfolding ascii_space space2 space3
back_space [] = 0
back_space (c ∷ []) = if ascii_space c then 1 else 0
back_space (c ∷ b ∷ []) = if ascii_space c then 1 else if space2 b c then 2 else 0
back_space (c ∷ b ∷ a ∷ s) =
    if ascii_space c then 1 else if space2 b c then 2 else if space3 a b c then 3 else 0

-- Drops runes while there are some; the length is fuel enough, since each round drops a byte.
trim_with : (Text → ℕ) → ℕ → Text → Text
unfolding drop
trim_with width zero s = s
trim_with width (suc n) s = elim (width s) [ zero ↦ s | suc w ↦ trim_with width n (drop (suc w) s) ]

-- `strings.TrimSpace`.
unfoldable pub trim_space : Text → Text
unfolding trim_with front_space back_space
trim_space s =
    let left = trim_with front_space (length s) s in
    reverse (trim_with back_space (length left) (reverse left))

lower_byte : ℕ → ℕ
lower_byte b = if between b'A' b'Z' b then b + 32 else b

-- `strings.ToLower` as far as a comparison with an ASCII word sees it: the ASCII letters, and the
-- two other runes whose lower case is ASCII, the Kelvin sign and the dotted capital I.
unfoldable pub to_lower : Text → Text
unfolding lower_byte
to_lower [] = []
to_lower (a ∷ []) = lower_byte a ∷ []
to_lower (a ∷ b ∷ []) =
    if a == 0xc4 && b == 0xb0 then b'i' ∷ [] else lower_byte a ∷ lower_byte b ∷ []
to_lower (a ∷ b ∷ c ∷ s) =
    let plain = lower_byte a ∷ to_lower (b ∷ c ∷ s) in
    let dotted = b'i' ∷ to_lower (c ∷ s) in
    let kelvin = b'k' ∷ to_lower s in
    if a == 0xc4 && b == 0xb0
    then dotted
    else if a == 0xe2 && b == 0x84 && c == 0xaa
    then kelvin
    else plain

-- `strings.IndexFunc(s, unicode.IsControl) >= 0`: the byte 0xc2 only ever leads a rune.
unfoldable pub has_control : Text → Bool
has_control [] = false
has_control (a ∷ []) = ltb a 32 || a == 127
has_control (a ∷ b ∷ s) =
    ltb a 32 || a == 127 || (a == 0xc2 && between 0x80 0x9f b) || has_control (b ∷ s)

continuation : ℕ → Bool
continuation = between 0x80 0xbf

-- The allowed second bytes of a three byte rune and of a four byte rune.
second3 : ℕ → ℕ → Bool
second3 a b =
    (a == 0xe0 && between 0xa0 0xbf b)
    || (a == 0xed && between 0x80 0x9f b)
    || ((between 0xe1 0xec a || between 0xee 0xef a) && between 0x80 0xbf b)

second4 : ℕ → ℕ → Bool
second4 a b =
    (a == 0xf0 && between 0x90 0xbf b)
    || (a == 0xf4 && between 0x80 0x8f b)
    || (between 0xf1 0xf3 a && between 0x80 0xbf b)

-- `utf8.ValidString`.
unfoldable pub valid_utf8 : Text → Bool
unfolding continuation second3 second4
valid_utf8 [] = true
valid_utf8 (a ∷ []) = ltb a 0x80
valid_utf8 (a ∷ b ∷ []) = (ltb a 0x80 && ltb b 0x80) || (between 0xc2 0xdf a && continuation b)
valid_utf8 (a ∷ b ∷ c ∷ []) =
    (ltb a 0x80 && valid_utf8 (b ∷ c ∷ []))
    || (between 0xc2 0xdf a && continuation b && ltb c 0x80)
    || (second3 a b && continuation c)
valid_utf8 (a ∷ b ∷ c ∷ d ∷ s) =
    let one = valid_utf8 (b ∷ c ∷ d ∷ s) in
    let two = valid_utf8 (c ∷ d ∷ s) in
    let three = valid_utf8 (d ∷ s) in
    let four = valid_utf8 s in
    if ltb a 0x80
    then one
    else if between 0xc2 0xdf a
    then (if continuation b then two else false)
    else if second3 a b
    then (if continuation c then three else false)
    else if second4 a b
    then (if continuation c && continuation d then four else false)
    else false

-- `strings.ContainsRune(s, r)` for an ASCII rune.
unfoldable pub contains_byte : ℕ → Text → Bool
unfolding any
contains_byte b = any (λ c. c == b)

-- `strings.CutPrefix`, and `HasPrefix` with `TrimPrefix`: what follows the prefix.
unfoldable pub strip_prefix : Text → Text → Option Text
strip_prefix [] s = some s
strip_prefix (p ∷ ps) [] = none
strip_prefix (p ∷ ps) (c ∷ s) = if p == c then strip_prefix ps s else none

pub strip_prefix-append : (p s : Text) → strip_prefix p (p ++ s) ≡ some s
unfolding strip_prefix
strip_prefix-append [] s = refl
strip_prefix-append (c ∷ p) s = ground (arith, strip_prefix-append p s)

pub strip_prefix_sound : (p s r : Text) → strip_prefix p s ≡ some r → s ≡ p ++ r
unfolding strip_prefix
strip_prefix_sound [] s r h = ground arith
strip_prefix_sound (c ∷ p) [] r h = cc
strip_prefix_sound (c ∷ p) (b ∷ s) r h = ground (arith, strip_prefix_sound p s r)

trims : trim_space (codes " \ta b ") ≡ codes "a b"
unfolding trim_space
trims = refl

trims_wide : trim_space (0xc2 ∷ 0xa0 ∷ b'x' ∷ 0xe2 ∷ 0x80 ∷ 0x8a ∷ []) ≡ b'x' ∷ []
unfolding trim_space
trims_wide = refl

lowers : to_lower (codes "KiTTY") ≡ codes "kitty"
unfolding to_lower
lowers = refl

valid_samples : valid_utf8 (0xe2 ∷ 0x80 ∷ 0x8a ∷ b'x' ∷ []) ≡ true
unfolding valid_utf8
valid_samples = refl

invalid_samples : valid_utf8 (b'x' ∷ b'x' ∷ 0xc2 ∷ b'x' ∷ []) ≡ false
unfolding valid_utf8
invalid_samples = refl

-- `strings.CutSuffix`.
unfoldable pub strip_suffix : Text → Text → Option Text
strip_suffix p s = strip_prefix (reverse p) (reverse s) >>= λ r. some (reverse r)

-- `hex.EncodeToString`.
abbrev pub hex_digit : ℕ → ℕ
hex_digit n = if ltb n 10 then n + 48 else n + 87

unfoldable pub hex_encode : List ℕ → Text
hex_encode [] = []
hex_encode (b ∷ bs) = hex_digit (b / 16) ∷ hex_digit (b % 16) ∷ hex_encode bs
