-- ===== src/Stream/Queries/PreClient.antt =====
-- The output before readiness, in which a client of the session may have started.
use terminal_redeemer.Base.{
  ◌<◌, ◌≡◌, refl, sym, ap, subst, by_test, ◌∙◌, ◌≢◌, ◌⊎◌, inl, inr, ◌==◌, [], ◌∷◌, ◌++◌, Text,
  length, length-append, arith, Option-cases,
}
use terminal_redeemer.Stream.Search.{cut_at, First, cut_at-none, cut_at-some}
use terminal_redeemer.Stream.Queries.{
  client_start, strip_terminal_queries, strip_pre_client_queries,
}
use terminal_redeemer.Stream.Queries.Grammar.{Query, control, colour, capability, graphics}
use terminal_redeemer.Stream.Queries.Removal.{
  Stripped, done, drops, keeps, strip_terminal_queries-Stripped,
}

Query-positive : (q : Text) → Query q → 0 < length q
Query-positive _ (control s q) = omega arith
Query-positive _ (colour s q) = omega arith
Query-positive _ (capability s q) = omega arith
Query-positive _ (graphics s q) = omega arith

-- Nothing was taken out, or the text is shorter.
Stripped-length : {s out : Text} → Stripped s out → (out ≡ s) ⊎ (length out < length s)
Stripped-length done = inl refl
Stripped-length {out = out} (drops q s p e r) = inr (elim (Stripped-length r) [
  | inl x ↦ omega (arith, Query-positive q p, ap length e, length-append q s, ap length x)
  | inr x ↦ omega (arith, Query-positive q p, ap length e, length-append q s, x)
])
Stripped-length (keeps b f r) = elim (Stripped-length r) [
  | inl x ↦ inl (ap (λ t. b ∷ t) x)
  | inr x ↦ inr (omega (arith, x))
]

-- The output before readiness without the queries that no client made.
pub data PreClient (s : Text) : Text → Type 0 where
  no_client :
      (out : Text)
      → ((l r : Text) → s ≢ l ++ (client_start ++ r))
      → Stripped s out
      → PreClient s out
  from_client :
      (before rest kept : Text)
      → First client_start s before rest
      → Stripped before kept
      → PreClient s (kept ++ rest)

whole_kept :
    (before rest : Text)
    → length (strip_terminal_queries before) ≡ length before
    → strip_terminal_queries before ≡ before
whole_kept before rest e = elim (Stripped-length (strip_terminal_queries-Stripped before)) [
  | inl x ↦ x
  | inr x ↦ absurd (omega (arith, x, e))
]

start_is : client_start ≢ []
start_is e = cc

-- Up to the first start of a client, exactly the complete queries are taken out; what the client
-- writes from there on is kept as it is. Without a client, this holds of the whole.
pub strip_pre_client_queries-PreClient : (s : Text) → PreClient s (strip_pre_client_queries s)
unfolding strip_pre_client_queries
strip_pre_client_queries-PreClient s = elim (Option-cases (cut_at client_start s)) [
  | inl e ↦
      rw (e, strip_pre_client_queries)
        (no_client (strip_terminal_queries s) (λ l r. cut_at-none client_start s l r start_is e)
          (strip_terminal_queries-Stripped s))
  | inr ((before, rest), e) ↦
      rw (e, strip_pre_client_queries)
        (let f = cut_at-some client_start s before rest start_is e in
          let out =
            from_client before rest (strip_terminal_queries before) f
              (strip_terminal_queries-Stripped before) in
          by_test (PreClient s) (length (strip_terminal_queries before) == length before) s
            (strip_terminal_queries before ++ rest)
            (λ t.
              subst (PreClient s)
                (ap (λ u. u ++ rest) (whole_kept before rest (ground arith)) ∙ sym f.parts) out)
            (λ _. out))
]
