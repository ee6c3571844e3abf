-- ===== src/Stream/Queries/Removal.antt =====
-- What `stripTerminalQueries` of internal/mirror/session_queries.go takes out, by the grammar.
use terminal_redeemer.Base.{
  ℕ, zero, suc, ◌≤◌, ◌≡◌, refl, sym, ap, subst, by_test, ◌∙◌, ◌≢◌, ◌⊎◌, inl, inr, false, not, ◌==◌,
  [], ◌∷◌, ◌++◌, Text, codes, length, length-append, arith, if◌then◌else◌, any, contains_byte,
}
use mathlib.Core.Path.{ap₂}
use terminal_redeemer.Stream.Queries.{
  esc, csi_body, csi_end, span, csi_query_length, query_length_at, terminal_query_length,
  strip_from, strip_terminal_queries,
}
use terminal_redeemer.Stream.Queries.Grammar.{Query, control, colour, capability, graphics}
use terminal_redeemer.Stream.Queries.Recognition.{
  Found, terminal_query_length_sound, terminal_query_length_complete,
}

-- The text without its queries, from the left: a query at the front goes as a whole, and a byte stays
-- only where no query begins.
pub data Stripped : Text → Text → Type 0 where
  done : Stripped [] []
  drops : {t out : Text} (q s : Text) → Query q → t ≡ q ++ s → Stripped s out → Stripped t out
  keeps :
      {s out : Text} (b : ℕ)
      → ((q rest : Text) → Query q → b ∷ s ≢ q ++ rest)
      → Stripped s out
      → Stripped (b ∷ s) (b ∷ out)

strip_from-skip : (q s : Text) → strip_from (length q) (q ++ s) ≡ strip_from zero s
unfolding strip_from
strip_from-skip [] s = refl
strip_from-skip (b ∷ q) s = strip_from-skip q s

front : Text → ℕ
front [] = 0
front (b ∷ s) = b

Query-esc : (q : Text) → Query q → (r : Text) × (q ≡ esc ∷ r)
Query-esc _ (control s q) = (b'[' ∷ s, refl)
Query-esc _ (colour s q) = (b']' ∷ s, refl)
Query-esc _ (capability s q) = (b'P' ∷ s, refl)
Query-esc _ (graphics s q) = (b'_' ∷ s, refl)

nothing_here :
    (b : ℕ) (s q rest : Text)
    → (if b == esc then terminal_query_length (b ∷ s) else 0) ≡ 0
    → Query q
    → b ∷ s ≢ q ++ rest
nothing_here b s q rest h p e =
    let (r, shape) = Query-esc q p in
    let e' : b ∷ s ≡ esc ∷ (r ++ rest) = e ∙ ap (λ t. t ++ rest) shape in
    let b_esc : b ≡ esc = cc in
    let n : terminal_query_length (b ∷ s) ≡ length q =
      ap terminal_query_length e ∙ terminal_query_length_complete q rest p in
    let k : length q ≡ suc (length r) = ap length shape in ground (arith, b_esc, n, k, h)

strip_step :
    (b : ℕ) (s : Text) (n : ℕ)
    → (if b == esc then terminal_query_length (b ∷ s) else 0) ≡ suc n
    → Found (b ∷ s) (suc n)
strip_step b s n =
    by_test (λ m. m ≡ suc n → Found (b ∷ s) (suc n)) (b == esc) (terminal_query_length (b ∷ s)) 0
      (λ t.
        let e : esc ≡ b = ground arith in
        subst (λ c. terminal_query_length (c ∷ s) ≡ suc n → Found (c ∷ s) (suc n)) e
          (terminal_query_length_sound s n))
      (λ _ h. absurd (cc))

ℕ-cases : (k : ℕ) → (k ≡ 0) ⊎ ((n : ℕ) × (k ≡ suc n))
ℕ-cases zero = inl refl
ℕ-cases (suc n) = inr (n, refl)

strip_from_query :
    (b : ℕ) (s : Text) (n : ℕ) (f : Found (b ∷ s) (suc n)) → strip_from n s ≡ strip_from zero f.rest
unfolding strip_from
strip_from_query b s n f = ap₂ strip_from (sym f.size) f.parts ∙ strip_from-skip f.query f.rest

strip_from-Stripped : (bound : ℕ) (s : Text) → length s ≤ bound → Stripped s (strip_from zero s)
unfolding strip_from
strip_from-Stripped bound [] h = done
strip_from-Stripped zero (b ∷ s) h = absurd (omega arith)
strip_from-Stripped (suc bound) (b ∷ s) h =
    elim (ℕ-cases (if b == esc then terminal_query_length (b ∷ s) else 0)) [
      | inl e ↦
          rw (e, strip_from)
            (keeps b (λ q rest. nothing_here b s q rest e)
              (strip_from-Stripped bound s (omega arith)))
      | inr (n, e) ↦
          rw (e, strip_from)
            (let f = strip_step b s n e in
              subst (Stripped (b ∷ s)) (sym (strip_from_query b s n f)) (
                drops f.query f.rest f.is f.parts (
                  strip_from-Stripped bound f.rest
                    (omega (arith, h, f.size, ap length f.parts, length-append f.query f.rest)))))
    ]

no_escape : (s q rest : Text) → contains_byte esc s ≡ false → Query q → s ≢ q ++ rest
unfolding contains_byte any
no_escape [] q rest h p e =
    let (r, shape) = Query-esc q p in
    let e' : ◌≡◌ {A = Text} [] (esc ∷ (r ++ rest)) = e ∙ ap (λ t. t ++ rest) shape in cc
no_escape (b ∷ s) q rest h p e =
    let (r, shape) = Query-esc q p in
    let e' : b ∷ s ≡ esc ∷ (r ++ rest) = e ∙ ap (λ t. t ++ rest) shape in
    let b_esc : b ≡ esc = cc in ground (arith, b_esc, h)

untouched-Stripped : (s : Text) → contains_byte esc s ≡ false → Stripped s s
unfolding contains_byte any
untouched-Stripped [] h = done
untouched-Stripped (b ∷ s) h =
    keeps b (λ q rest p. no_escape (b ∷ s) q rest h p) (untouched-Stripped s (ground arith))

-- From the left, exactly the complete queries are taken out, each as a whole, and every other byte is
-- kept, in its order.
pub strip_terminal_queries-Stripped : (s : Text) → Stripped s (strip_terminal_queries s)
unfolding strip_terminal_queries
strip_terminal_queries-Stripped s =
    by_test (Stripped s) (not (contains_byte esc s)) s (strip_from zero s)
      (λ t. untouched-Stripped s (ground arith))
      (λ _. strip_from-Stripped (length s) s (omega arith))

strip_from-esc :
    (r rest : Text) (n : ℕ)
    → terminal_query_length (esc ∷ r ++ rest) ≡ suc n
    → strip_from zero (esc ∷ r ++ rest) ≡ strip_from n (r ++ rest)
unfolding strip_from
strip_from-esc r rest n e = rw (e, strip_from) refl

strip_from_drops : (q rest : Text) → Query q → strip_from zero (q ++ rest) ≡ strip_from zero rest
strip_from_drops q rest p =
    let (r, e) = Query-esc q p in
    ap (λ t. strip_from zero (t ++ rest)) e
    ∙ strip_from-esc r rest (length r) (
        ap (λ t. terminal_query_length (t ++ rest)) (sym e)
        ∙ terminal_query_length_complete q rest p
        ∙ ap length e)
    ∙ strip_from-skip r rest

nested_start :
    (r : Text)
    → strip_terminal_queries (esc ∷ b'[' ∷ esc ∷ r) ≡ esc ∷ b'[' ∷ strip_from zero (esc ∷ r)
unfolding strip_terminal_queries strip_from contains_byte any terminal_query_length query_length_at
    csi_query_length csi_body csi_end span
nested_start r = refl

plain_tail : strip_from zero (codes "6n") ≡ codes "6n"
unfolding strip_from
plain_tail = refl

-- A query between the introducer of a control sequence and the bytes `6n` goes, and what it parted
-- becomes a query.
pub strip_terminal_queries_nested :
    (q : Text)
    → Query q
    → strip_terminal_queries (esc ∷ b'[' ∷ (q ++ codes "6n")) ≡ esc ∷ codes "[6n"
strip_terminal_queries_nested q p =
    let (r, e) = Query-esc q p in
    ap (λ t. strip_terminal_queries (esc ∷ b'[' ∷ (t ++ codes "6n"))) e
    ∙ nested_start (r ++ codes "6n")
    ∙ ap (λ t. esc ∷ b'[' ∷ strip_from zero (t ++ codes "6n")) (sym e)
    ∙ ap (λ t. esc ∷ b'[' ∷ t) (strip_from_drops q (codes "6n") p ∙ plain_tail)
