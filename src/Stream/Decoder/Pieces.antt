-- ===== src/Stream/Decoder/Pieces.antt =====
-- How session_stream.go cuts a text into output, markers and what is pending.
use terminal_redeemer.Base.{
  any, false, ℕ, zero, suc, ◌-◌, ◌≤◌, ◌<◌, ◌≡◌, refl, sym, subst, ap, by_test, ◌∙◌, ◌≢◌, inl, inr,
  Bool, true, not, ◌&&◌, [], ◌∷◌, ◌++◌, Option, none, some, Text, same, length, length-append, ltb,
  leb, ◌==◌, arith, Option-cases,
}
use mathlib.Core.List.{append_assoc}
use mathlib.Core.Path.{ap₂}
use terminal_redeemer.Stream.Search.{prepend_part}
use terminal_redeemer.Stream.Decoder.Markers.{Lacks, Plain, marker-Reads, marker-cut}
use terminal_redeemer.Stream.Decoder.{
  marker_end, marker_prefix, attachment_marker, cut_byte, take, drop, keep_size, Piece, incomplete,
  takes, first_byte, read_marker, read_piece, marker_limit,
}

pub take-drop : (n : ℕ) (s : Text) → s ≡ take n s ++ drop n s
unfolding take drop
take-drop zero s = refl
take-drop (suc n) [] = refl
take-drop (suc n) (b ∷ s) = ap (λ t. b ∷ t) (take-drop n s)

pub length-drop : (n : ℕ) (s : Text) → length (drop n s) ≡ length s - n
unfolding drop
length-drop zero s = omega arith
length-drop (suc n) [] = omega arith
length-drop (suc n) (b ∷ s) = omega (arith, length-drop n s)

pub keep_size_le : (n : ℕ) (s : Text) → keep_size n s ≤ n
unfolding keep_size
keep_size_le zero s = omega arith
keep_size_le (suc n) s = ground (arith, keep_size_le n s)

pub cut_byte_sound : (c : ℕ) (s l r : Text) → cut_byte c s ≡ some (l, r) → s ≡ l ++ c ∷ r
unfolding cut_byte
cut_byte_sound c [] l r e = absurd (cc)
cut_byte_sound c (b ∷ s) l r e =
    by_test F (b == c) (some ([], s)) (prepend_part b (cut_byte c s)) (λ t k. ground (arith, t, k))
      (λ t k. later (cut_byte c s) (cut_byte_sound c s) k) e
  where
    F : Option (Text × Text) → Type 0
    F o = o ≡ some (l, r) → b ∷ s ≡ l ++ c ∷ r

    later :
        (o : Option (Text × Text))
        → ((l' r' : Text) → o ≡ some (l', r') → s ≡ l' ++ c ∷ r')
        → prepend_part b o ≡ some (l, r)
        → b ∷ s ≡ l ++ c ∷ r
    later none f k = cc
    later (some (l', r')) f k = ap (λ t. b ∷ t) (f l' r' refl) ∙ cc

later-Lacks :
    (c b : ℕ) (l r : Text) (o : Option (Text × Text))
    → (b == c) ≡ false
    → ((l' r' : Text) → o ≡ some (l', r') → Lacks c l')
    → prepend_part b o ≡ some (l, r)
    → Lacks c l
unfolding any
later-Lacks c b l r none n f k = absurd (cc)
later-Lacks c b l r (some (l', r')) n f k =
    let g = f l' r' refl in let e : b ∷ l' ≡ l = cc in subst (Lacks c) e (ground (arith, n, g))

cut_byte-Lacks : (c : ℕ) (s l r : Text) → cut_byte c s ≡ some (l, r) → Lacks c l
unfolding cut_byte any
cut_byte-Lacks c [] l r = λ e. absurd (cc)
cut_byte-Lacks c (b ∷ s) l r =
    by_test (λ (o : Option (Text × Text)). o ≡ some (l, r) → Lacks c l) (b == c) (some ([], s))
      (prepend_part b (cut_byte c s)) (λ t k. let e : [] ≡ l = cc in subst (Lacks c) e refl)
      (λ t k. later-Lacks c b l r (cut_byte c s) t (cut_byte-Lacks c s) k)

-- What goes out in one round although it begins like a marker: one byte, or all up to an end.
pub data Unmarked (s rest : Text) : Text → Type 0 where
  one : (b : ℕ) → s ≡ b ∷ rest → Plain s → Unmarked s rest (b ∷ [])
  whole :
      (body : Text)
      → s ≡ (body ++ marker_end ∷ []) ++ rest
      → Lacks marker_end body
      → length body < marker_limit
      → Plain s
      → Unmarked s rest (body ++ marker_end ∷ [])

-- What a piece takes from the front.
abbrev pub Taken : Bool → Text → Piece → Type 0
Taken eof s incomplete = (length s < marker_limit) × (eof ≡ true → s ≡ [])
Taken eof s (takes out none rest) = Unmarked s rest out
Taken eof s (takes out (some (token, event)) rest) =
    (out ≡ []) × (s ≡ attachment_marker token event ++ rest) × (attachment_marker token event ≢ [])

pub Unmarked-parts :
    {s rest out : Text} → Unmarked s rest out → (s ≡ out ++ rest) × (0 < length out)
Unmarked-parts (one b e n) = (e, omega arith)
Unmarked-parts (whole body e k h n) = (e, omega (arith, length-append body (marker_end ∷ [])))

first_byte-Taken : (eof : Bool) (s : Text) → Plain s → Taken eof s (first_byte s)
unfolding first_byte
first_byte-Taken eof [] n = (omega arith, λ _. refl)
first_byte-Taken eof (b ∷ s) n = one b refl n

pub marked-Taken :
    (eof : Bool) (s body rest token event : Text)
    → s ≡ body ++ marker_end ∷ rest
    → attachment_marker token event ≡ body ++ marker_end ∷ []
    → Taken eof s (takes [] (some (token, event)) rest)
marked-Taken eof s body rest token event e m = (
  refl,
  e ∙ sym (append_assoc body (marker_end ∷ []) rest) ∙ ap (λ t. t ++ rest) (sym m),
  λ n. no_end body (sym m ∙ n),
)
  where
    no_end : (body : Text) → body ++ marker_end ∷ [] ≢ []
    no_end [] n = cc
    no_end (b ∷ body) n = cc

-- No marker begins where the first end is missing, or is not that of a marker.
unended-Plain : (s : Text) → cut_byte marker_end s ≡ none → Plain s
unended-Plain s q token event rest n e =
    let c = marker-cut token event rest s (marker-Reads token event n) e in cc

ended-Plain :
    (s body rest₁ : Text)
    → cut_byte marker_end s ≡ some (body, rest₁)
    → ((token event : Text) (n : attachment_marker token event ≢ [])
        → (marker-Reads token event n).body ≡ body
        → ⊥)
    → Plain s
ended-Plain s body rest₁ q f token event rest n e =
    f token event n
      (bodies (sym (marker-cut token event rest s (marker-Reads token event n) e) ∙ q))
  where
    bodies : {a b c d : Text} → ◌≡◌ {A = Option (Text × Text)} (some (a, b)) (some (c, d)) → a ≡ c
    bodies h = cc

long-Plain :
    (s body rest : Text)
    → cut_byte marker_end s ≡ some (body, rest)
    → leb marker_limit (length body) ≡ true
    → Plain s
long-Plain s body rest q h = ended-Plain s body rest q (λ token event n b.
    let w = (marker-Reads token event n).short in let e = ap length b in ground (arith, w, h, e))

same_parts :
    {a b c d : Text}
    → ◌≡◌ {A = Option (Text × Text)} (some (a, b)) (some (c, d))
    → (a ≡ c) × (b ≡ d)
same_parts h = (cc, cc)

-- What is read of a marker is read of every text with its body.
parts_of :
    (body token event : Text) (n : attachment_marker token event ≢ [])
    → (marker-Reads token event n).body ≡ body
    → cut_byte b':' (drop (length marker_prefix) body) ≡ some (token, event)
parts_of body token event n b =
    sym (ap (λ x. cut_byte b':' (drop (length marker_prefix) x)) b)
    ∙ (marker-Reads token event n).parts

no_parts-Plain :
    (s body rest : Text)
    → cut_byte marker_end s ≡ some (body, rest)
    → cut_byte b':' (drop (length marker_prefix) body) ≡ none
    → Plain s
no_parts-Plain s body rest q u =
    ended-Plain s body rest q
      (λ token event n b. let p = parts_of body token event n b in absurd (cc))

unlike-Plain :
    (s body rest token event : Text)
    → cut_byte marker_end s ≡ some (body, rest)
    → cut_byte b':' (drop (length marker_prefix) body) ≡ some (token, event)
    → attachment_marker token event ≢ body ++ marker_end ∷ []
    → Plain s
unlike-Plain s body rest token event q u d = ended-Plain s body rest q (λ tk ev n b.
    let p = same_parts (sym u ∙ parts_of body tk ev n b) in
    d (
      ap₂ attachment_marker p.0 p.1
      ∙ (marker-Reads tk ev n).whole
      ∙ ap (λ x. x ++ marker_end ∷ []) b))

read_marker-Taken :
    (eof : Bool) (s body rest : Text)
    → cut_byte marker_end s ≡ some (body, rest)
    → length body < marker_limit
    → Taken eof s (read_marker body rest)
unfolding read_marker
read_marker-Taken eof s body rest q h =
    elim (Option-cases (cut_byte b':' (drop (length marker_prefix) body))) [
      | inl u ↦ rw (u, read_marker) (unmarked (no_parts-Plain s body rest q u))
      | inr ((token, event), u) ↦
          rw (u, read_marker)
            (by_test (Taken eof s) (same (attachment_marker token event) (body ++ marker_end ∷ []))
              (takes [] (some (token, event)) rest) (takes (body ++ marker_end ∷ []) none rest)
              (λ t.
                marked-Taken eof s body rest token event (cut_byte_sound marker_end s body rest q)
                  (same_eq _ _ t))
              (λ t. unmarked (unlike-Plain s body rest token event q u (same_ne _ _ t))))
    ]
  where
    same_eq : (a b : Text) → same a b ≡ true → a ≡ b
    same_eq a b t = ground (arith, t)

    same_ne : (a b : Text) → same a b ≡ false → a ≢ b
    same_ne a b t e = ground (arith, t, e)

    unmarked : Plain s → Unmarked s rest (body ++ marker_end ∷ [])
    unmarked =
        whole body
          (cut_byte_sound marker_end s body rest q ∙ sym (append_assoc body (marker_end ∷ []) rest))
          (cut_byte-Lacks marker_end s body rest q) h

pub read_piece-Taken : (eof : Bool) (s : Text) → Taken eof s (read_piece eof s)
unfolding read_piece
read_piece-Taken eof s = elim (Option-cases (cut_byte marker_end s)) [
  | inl q ↦
      rw (q, read_piece)
        (by_test (Taken eof s) (ltb (length s) marker_limit && not eof) incomplete (first_byte s)
          (λ t. (ground (arith, t), λ f. absurd (ground (arith, t, f))))
          (λ _. first_byte-Taken eof s (unended-Plain s q)))
  | inr ((body, rest), q) ↦
      rw (q, read_piece)
        (by_test (Taken eof s) (leb marker_limit (length body)) (first_byte s)
          (read_marker body rest) (λ t. first_byte-Taken eof s (long-Plain s body rest q t))
          (λ t. read_marker-Taken eof s body rest q (ground (arith, t))))
]
