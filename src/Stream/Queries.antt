-- ===== src/Stream/Queries.antt =====
-- internal/mirror/session_queries.go: the terminal queries that are taken out of the output that
-- precedes readiness.
pub mod Grammar
pub mod Recognition
pub mod Removal
pub mod PreClient
use terminal_redeemer.Base.{
  strip_suffix, ℕ, zero, suc, ◌+◌, Bool, true, false, not, ◌&&◌, ◌||◌, ◌==◌, List, [], ◌∷◌, ◌++◌,
  map, Option, none, some, ◌>>=◌, Text, codes, same, any, length, between, contains_byte,
  strip_prefix, if◌then◌else◌,
}
use mathlib.Core.List.{reverse}
use terminal_redeemer.Stream.Search.{cut_at}

abbrev pub esc : ℕ
esc = 0x1b

abbrev pub bel : ℕ
bel = 0x07

abbrev pub backslash : ℕ
backslash = 0x5c

-- The bytes at the front that pass a test, and the others.
unfoldable pub span : (ℕ → Bool) → Text → Text × Text
span p [] = ([], [])
span p (b ∷ s) = let (l, r) = span p s in if p b then (b ∷ l, r) else ([], b ∷ s)

-- `strings.Trim(s, "0123456789") == ""`.
abbrev all_digits : Text → Bool
all_digits s = not (any (λ c. not (between b'0' b'9' c)) s)

abbrev is_number : Option Text → Bool
is_number none = false
is_number (some s) = not (same s []) && all_digits s

unfoldable pub osc_query : Text → Bool
unfolding strip_suffix
osc_query payload =
    same payload (codes "10;?")
    || same payload (codes "11;?")
    || same payload (codes "12;?")
    || is_number (strip_prefix (codes "4;") payload >>= strip_suffix (codes ";?"))

abbrev csi_queries : List Text
csi_queries =
    codes "6n"
    ∷ codes "?6n"
    ∷ codes "5n"
    ∷ codes "c"
    ∷ codes "0c"
    ∷ codes ">c"
    ∷ codes ">0c"
    ∷ codes "=c"
    ∷ codes "=0c"
    ∷ codes ">q"
    ∷ codes ">0q"
    ∷ codes "?u"
    ∷ codes "14t"
    ∷ codes "16t"
    ∷ codes "18t"
    ∷ []

-- The test of a whole control sequence, its introducer left off.
unfoldable pub csi_query : Text → Bool
unfolding strip_suffix
csi_query body =
    any (same body) csi_queries
    || is_number (strip_prefix (codes "?") body >>= strip_suffix (codes "$p"))

abbrev pub is_parameter : ℕ → Bool
is_parameter = between 0x30 0x3f

abbrev pub is_intermediate : ℕ → Bool
is_intermediate = between 0x20 0x2f

abbrev pub is_final : ℕ → Bool
is_final = between 0x40 0x7e

-- The body of the control sequence that the text begins with.
unfoldable pub csi_end : Text → Text → Option Text
csi_end body [] = none
csi_end body (f ∷ s) = if is_final f then some (body ++ f ∷ []) else none

unfoldable pub csi_body : Text → Option Text
unfolding csi_end span
csi_body s =
    let (parameters, s₁) = span is_parameter s in
    let (intermediates, s₂) = span is_intermediate s₁ in csi_end (parameters ++ intermediates) s₂

-- Lengths count the two bytes before the text too; 0 is no query.
unfoldable pub csi_query_length : Text → ℕ
unfolding csi_body
csi_query_length s = elim (csi_body s) [
  | none ↦ 0
  | some body ↦ if csi_query body then length body + 2 else 0
]

abbrev starts_with_backslash : Text → Bool
starts_with_backslash [] = false
starts_with_backslash (c ∷ s) = c == backslash

abbrev pub prepend : ℕ → Option (Text × ℕ) → Option (Text × ℕ)
prepend b none = none
prepend b (some (payload, n)) = some (b ∷ payload, suc n)

-- The payload up to the terminator, and the length of both.
unfoldable pub string_sequence : Bool → Text → Option (Text × ℕ)
string_sequence osc [] = none
string_sequence osc (b ∷ s) =
    let rest = prepend b (string_sequence osc s) in
    if osc && b == bel
    then some ([], 1)
    else if b == esc
    then (if starts_with_backslash s then some ([], 2) else none)
    else rest

-- The pieces of a text between commas.
unfoldable pub split_byte : ℕ → Text → List Text
split_byte sep [] = [] ∷ []
split_byte sep (b ∷ s) = elim (split_byte sep s) [
  | [] ↦ [] ∷ []
  | p ∷ ps ↦ if b == sep then [] ∷ p ∷ ps else (b ∷ p) ∷ ps
]

-- `G`, keys with `a=q` among them, and what follows a semicolon.
unfoldable pub graphics_query : Text → Bool
unfolding span split_byte
graphics_query payload = elim (strip_prefix (codes "G") payload) [
  | none ↦ false
  | some s ↦ any (λ key. same key (codes "a=q")) (split_byte b',' (span (λ c. not (c == b';')) s).0)
]

abbrev has_prefix : Text → Text → Bool
has_prefix p s = elim (strip_prefix p s) [ none ↦ false | some _ ↦ true ]

abbrev pub capability_query : Text → Bool
capability_query = has_prefix (codes "+q")

unfoldable pub string_query_length : Bool → (Text → Bool) → Text → ℕ
unfolding string_sequence
string_query_length osc query s = elim (string_sequence osc s) [
  | none ↦ 0
  | some (payload, n) ↦ if query payload then n + 2 else 0
]

-- The cases by the byte behind the escape.
unfoldable pub query_length_at : ℕ → Text → ℕ
unfolding csi_query_length string_query_length osc_query graphics_query
query_length_at c s =
    if c == b'['
    then csi_query_length s
    else if c == b']'
    then string_query_length true osc_query s
    else if c == b'P'
    then string_query_length false capability_query s
    else if c == b'_'
    then string_query_length false graphics_query s
    else 0

unfoldable pub terminal_query_length : Text → ℕ
unfolding query_length_at
terminal_query_length [] = 0
terminal_query_length (e ∷ []) = 0
terminal_query_length (e ∷ c ∷ s) = query_length_at c s

-- The loop, with the number of bytes that `i += n` has still to pass.
unfoldable pub strip_from : ℕ → Text → Text
unfolding terminal_query_length
strip_from skip [] = []
strip_from (suc skip) (b ∷ s) = strip_from skip s
strip_from zero (b ∷ s) = elim (if b == esc then terminal_query_length (b ∷ s) else 0) [
  | zero ↦ b ∷ strip_from zero s
  | suc n ↦ strip_from n s
]

unfoldable pub strip_terminal_queries : Text → Text
unfolding strip_from
strip_terminal_queries s = if not (contains_byte esc s) then s else strip_from zero s

abbrev pub client_start : Text
client_start = esc ∷ codes "[?1049h"

unfoldable pub strip_pre_client_queries : Text → Text
unfolding strip_terminal_queries cut_at
strip_pre_client_queries s = elim (cut_at client_start s) [
  | none ↦ strip_terminal_queries s
  | some (before, rest) ↦
      let head = strip_terminal_queries before in
      if length head == length before then s else head ++ rest
]
