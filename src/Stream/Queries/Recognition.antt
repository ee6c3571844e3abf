-- ===== src/Stream/Queries/Recognition.antt =====
-- The parsers of internal/mirror/session_queries.go against the grammar of queries.
use terminal_redeemer.Base.{
  ℕ, suc, ◌+◌, ◌≡◌, refl, sym, ap, subst, by_test, ◌∙◌, inl, inr, Bool, true, false, ◌==◌, [], ◌∷◌,
  ◌++◌, some, Text, length, length-append, arith, Option-cases,
}
use mathlib.Core.List.{append_assoc}
use terminal_redeemer.Stream.Queries.{
  esc, csi_query, csi_body, csi_query_length, string_sequence, string_query_length, osc_query,
  graphics_query, capability_query, query_length_at, terminal_query_length,
}
use terminal_redeemer.Stream.Queries.Grammar.{
  StringQuery, ControlQuery, Query, control, colour, capability, graphics, string_sequence_sound,
  string_sequence_complete, csi_body_sound, csi_body_complete,
}

-- A text begins with a query of a kind, of a known length.
pub record Begins (P : Text → Type 0) (s : Text) (n : ℕ) : Type 0 where
  pub query : Text
  pub rest : Text
  pub is : P query
  pub parts : s ≡ query ++ rest
  pub size : length query + 2 ≡ n

pub string_query_length_sound :
    (osc : Bool) (query : Text → Bool) (s : Text) (n : ℕ)
    → string_query_length osc query s ≡ suc n
    → Begins (StringQuery osc query) s (suc n)
unfolding string_query_length
string_query_length_sound osc query s n = elim (Option-cases (string_sequence osc s)) [
  | inl e ↦ rw (e, string_query_length) (λ h. absurd (cc))
  | inr ((payload, k), e) ↦
      rw (e, string_query_length)
        (by_test (λ m. m ≡ suc n → Begins (StringQuery osc query) s (suc n)) (query payload) (k + 2)
          0
          (λ asks h.
            let f = string_sequence_sound osc s payload k e in
            record {
              query = payload ++ f.ending;
              rest = f.rest;
              is = record {
                payload = payload;
                ending = f.ending;
                plain = f.plain;
                ends = f.ends;
                asks = asks;
                whole = refl;
              };
              parts = f.parts ∙ sym (append_assoc payload f.ending f.rest);
              size = omega (arith, length-append payload f.ending, f.size, h);
            })
          (λ _ h. absurd (cc)))
]

pub csi_query_length_sound :
    (s : Text) (n : ℕ) → csi_query_length s ≡ suc n → Begins ControlQuery s (suc n)
unfolding csi_query_length
csi_query_length_sound s n = elim (Option-cases (csi_body s)) [
  | inl e ↦ rw (e, csi_query_length) (λ h. absurd (cc))
  | inr (body, e) ↦
      rw (e, csi_query_length)
        (by_test (λ m. m ≡ suc n → Begins ControlQuery s (suc n)) (csi_query body) (length body + 2)
          0
          (λ asks h.
            let f = csi_body_sound s body e in
            record { query = body; rest = f.rest; is = f.query asks; parts = f.parts; size = h })
          (λ _ h. absurd (cc)))
]

-- The same of a whole query, introducer included.
pub record Found (s : Text) (n : ℕ) : Type 0 where
  pub query : Text
  pub rest : Text
  pub is : Query query
  pub parts : s ≡ query ++ rest
  pub size : length query ≡ n

pub introduced :
    (c d : ℕ) (P : Text → Type 0) (s : Text) (n : ℕ)
    → ((q : Text) → P q → Query (esc ∷ d ∷ q))
    → (c == d) ≡ true
    → Begins P s n
    → Found (esc ∷ c ∷ s) n
introduced c d P s n make e b = record {
  query = esc ∷ d ∷ b.query;
  rest = b.rest;
  is = make b.query b.is;
  parts =
      ap (λ t. esc ∷ c ∷ t) b.parts ∙ ap (λ (k : ℕ). esc ∷ k ∷ (b.query ++ b.rest)) (ground arith);
  size = omega (arith, b.size);
}

pub query_length_at_sound :
    (c : ℕ) (s : Text) (n : ℕ) → query_length_at c s ≡ suc n → Found (esc ∷ c ∷ s) (suc n)
unfolding query_length_at
query_length_at_sound c s n =
    by_test F (c == b'[') _ _
      (λ e h. introduced c b'[' ControlQuery s (suc n) control e (csi_query_length_sound s n h))
      (λ _.
        by_test F (c == b']') _ _
          (λ e h.
            introduced c b']' _ s (suc n) colour e (string_query_length_sound true osc_query s n h))
          (λ _.
            by_test F (c == b'P') _ _
              (λ e h.
                introduced c b'P' _ s (suc n) capability e
                  (string_query_length_sound false capability_query s n h))
              (λ _.
                by_test F (c == b'_') _ _
                  (λ e h.
                    introduced c b'_' _ s (suc n) graphics e
                      (string_query_length_sound false graphics_query s n h))
                  (λ _ h. absurd (cc)))))
  where
    F : ℕ → Type 0
    F m = m ≡ suc n → Found (esc ∷ c ∷ s) (suc n)

pub terminal_query_length_sound :
    (s : Text) (n : ℕ) → terminal_query_length (esc ∷ s) ≡ suc n → Found (esc ∷ s) (suc n)
unfolding terminal_query_length
terminal_query_length_sound [] n h = absurd (cc)
terminal_query_length_sound (c ∷ s) n h = query_length_at_sound c s n h

pub string_run :
    (osc : Bool) (query : Text → Bool) (s rest payload : Text) (n : ℕ)
    → string_sequence osc (s ++ rest) ≡ some (payload, n)
    → query payload ≡ true
    → string_query_length osc query (s ++ rest) ≡ n + 2
unfolding string_query_length
string_run osc query s rest payload n e q = rw (e, string_query_length, q) refl

pub string_query_length_complete :
    (osc : Bool) (query : Text → Bool) (s rest : Text)
    → StringQuery osc query s
    → string_query_length osc query (s ++ rest) ≡ length s + 2
unfolding string_query_length
string_query_length_complete osc query s rest q =
    string_run osc query s rest q.payload (length q.payload + length q.ending) found q.asks
    ∙ omega (arith, length-append q.payload q.ending, ap length q.whole)
  where
    found : string_sequence osc (s ++ rest) ≡ some (q.payload, length q.payload + length q.ending)
    found =
        ap (λ t. string_sequence osc (t ++ rest)) q.whole
        ∙ ap (string_sequence osc) (append_assoc q.payload q.ending rest)
        ∙ string_sequence_complete osc q.payload q.ending rest q.plain q.ends

pub csi_query_length_complete :
    (s rest : Text) → ControlQuery s → csi_query_length (s ++ rest) ≡ length s + 2
unfolding csi_query_length
csi_query_length_complete s rest q =
    rw
      (
        csi_body_complete s rest q,
        csi_query_length,
        subst (λ t. csi_query t ≡ true) (sym q.whole) q.asks,
      )
      refl

pub terminal_query_length_complete :
    (q rest : Text) → Query q → terminal_query_length (q ++ rest) ≡ length q
unfolding terminal_query_length query_length_at
terminal_query_length_complete _ rest (control s q) =
    omega (arith, csi_query_length_complete s rest q)
terminal_query_length_complete _ rest (colour s q) =
    omega (arith, string_query_length_complete true osc_query s rest q)
terminal_query_length_complete _ rest (capability s q) =
    omega (arith, string_query_length_complete false capability_query s rest q)
terminal_query_length_complete _ rest (graphics s q) =
    omega (arith, string_query_length_complete false graphics_query s rest q)
