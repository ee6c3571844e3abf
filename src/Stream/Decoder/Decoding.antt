-- ===== src/Stream/Decoder/Decoding.antt =====
-- The decoding that session_stream.go makes of a text, as a relation.
use terminal_redeemer.Base.{
  ℕ, ◌≤◌, ◌<◌, ◌≡◌, ap, ◌∙◌, ◌≢◌, List, [], ◌∷◌, ◌++◌, Text, length, arith,
}
use mathlib.Core.List.{append_assoc}
use terminal_redeemer.Stream.Decoder.Markers.{Lacks, Plain, marker_whole}
use terminal_redeemer.Stream.Decoder.{marker_end, marker_prefix, attachment_marker, marker_limit}

-- How a text falls into output, markers and what is pending at its end: a byte goes out only where no
-- valid marker begins; where one begins, it is taken; and what only begins like a marker goes out up to
-- its end.
pub data Decoded : Text → Text → List (Text × Text) → Text → Type 0 where
  waits : (s : Text) → Decoded s [] [] s
  byte :
      {s out : Text} {ms : List (Text × Text)} {p : Text} (b : ℕ)
      → Plain (b ∷ s)
      → Decoded s out ms p
      → Decoded (b ∷ s) (b ∷ out) ms p
  malformed :
      {t s out : Text} {ms : List (Text × Text)} {p : Text} (body : Text)
      → Plain t
      → Lacks marker_end body
      → length body < marker_limit
      → t ≡ (body ++ marker_end ∷ []) ++ s
      → (r : Text) × (t ≡ marker_prefix ++ r)
      → Decoded s out ms p
      → Decoded t ((body ++ marker_end ∷ []) ++ out) ms p
  marker :
      {t s out : Text} {ms : List (Text × Text)} {p : Text} (token event : Text)
      → attachment_marker token event ≢ []
      → t ≡ attachment_marker token event ++ s
      → Decoded s out ms p
      → Decoded t out ((token, event) ∷ ms) p

-- At no place of the first part a valid marker begins.
abbrev pub Plains : Text → Text → Type 0
Plains [] s = Unit
Plains (b ∷ l) s = Plain (b ∷ (l ++ s)) × Plains l s

pub Decoded-bytes :
    (l : Text) {s out p : Text} {ms : List (Text × Text)}
    → Plains l s
    → Decoded s out ms p
    → Decoded (l ++ s) (l ++ out) ms p
Decoded-bytes [] n d = d
Decoded-bytes (b ∷ l) n d = byte b n.0 (Decoded-bytes l n.1 d)

-- A marker begins with the prefix.
marker_prefixed :
    (token event : Text)
    → attachment_marker token event ≢ []
    → (r : Text) × (attachment_marker token event ≡ marker_prefix ++ r)
marker_prefixed token event n =
    let w = marker_whole token event n in (token ++ (b':' ∷ (event ++ marker_end ∷ [])), w.2)

-- Before the first prefix no marker begins.
pub before-Plains :
    (l t : Text)
    → ((k r : Text) → l ++ t ≡ k ++ (marker_prefix ++ r) → length l ≤ length k)
    → Plains l t
before-Plains [] t f = tt
before-Plains (b ∷ l) t f = (
  λ token event rest n e.
      let (r, q) = marker_prefixed token event n in
      let h = f [] (r ++ rest) (e ∙ ap (λ x. x ++ rest) q ∙ append_assoc marker_prefix r rest) in
      absurd (omega (arith, h)),
  before-Plains l t (λ k r e. let h = f (b ∷ k) r (ap (λ x. b ∷ x) e) in omega (arith, h)),
)
