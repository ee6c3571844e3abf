-- ===== src/Stream/Search.antt =====
-- The search for a byte sequence in what has come, and what it finds.
use terminal_redeemer.Base.{
  ℕ, suc, ◌≤◌, ◌≡◌, refl, sym, ap, ◌∙◌, ◌≢◌, inl, inr, [], ◌∷◌, ◌++◌, Option, none, some, Text,
  length, arith, strip_prefix, strip_prefix-append, strip_prefix_sound, Option-cases,
}
use mathlib.Core.Path.{subst₂}

abbrev pub prepend_part : ℕ → Option (Text × Text) → Option (Text × Text)
prepend_part b none = none
prepend_part b (some (l, r)) = some (b ∷ l, r)

-- `bytes.Index` with the slices before it and from it on.
unfoldable pub cut_at : Text → Text → Option (Text × Text)
cut_at pattern [] = elim (strip_prefix pattern []) [ none ↦ none | some _ ↦ some ([], []) ]
cut_at pattern (b ∷ s) = elim (strip_prefix pattern (b ∷ s)) [
  | some _ ↦ some ([], b ∷ s)
  | none ↦ prepend_part b (cut_at pattern s)
]

-- The first place where the pattern stands.
pub record First (p s l t : Text) : Type 0 where
  pub rest : Text
  pub parts : s ≡ l ++ t
  pub here : t ≡ p ++ rest
  pub first : (k r : Text) → s ≡ k ++ (p ++ r) → length l ≤ length k

nothing_before :
    (p : Text) (b : ℕ) (s k r : Text)
    → strip_prefix p (b ∷ s) ≡ none
    → b ∷ s ≡ k ++ (p ++ r)
    → (j : Text) × (length k ≡ suc (length j)) × (s ≡ j ++ (p ++ r))
nothing_before p b s [] r h e =
    absurd (clash (strip_prefix-append p r) (ap (strip_prefix p) (sym e)) h)
  where
    clash :
        strip_prefix p (p ++ r) ≡ some r
        → strip_prefix p (p ++ r) ≡ strip_prefix p (b ∷ s)
        → strip_prefix p (b ∷ s) ≡ none
        → ⊥
    clash x y z = cc
nothing_before p b s (c ∷ k) r h e = (k, refl, cc)

empty_parts : (p k r : Text) → p ≢ [] → [] ≢ k ++ (p ++ r)
empty_parts [] k r n e = n refl
empty_parts (c ∷ p) [] r n e = cc
empty_parts (c ∷ p) (b ∷ k) r n e = cc

prefix_of_empty : (p : Text) → p ≢ [] → strip_prefix p [] ≡ none
unfolding strip_prefix
prefix_of_empty [] n = absurd (n refl)
prefix_of_empty (c ∷ p) n = refl

cut_at_empty : (p : Text) → p ≢ [] → cut_at p [] ≡ none
unfolding cut_at
cut_at_empty p n = rw (prefix_of_empty p n, cut_at) refl

cut_at_here :
    (p s r : Text) (b : ℕ) → strip_prefix p (b ∷ s) ≡ some r → cut_at p (b ∷ s) ≡ some ([], b ∷ s)
unfolding cut_at
cut_at_here p s r b e = rw (e, cut_at) refl

cut_at_later :
    (p s : Text) (b : ℕ)
    → strip_prefix p (b ∷ s) ≡ none
    → cut_at p (b ∷ s) ≡ prepend_part b (cut_at p s)
unfolding cut_at
cut_at_later p s b e = rw (e, cut_at) refl

-- Where nothing is found, the pattern stands nowhere.
pub cut_at-none : (p s k r : Text) → p ≢ [] → cut_at p s ≡ none → s ≢ k ++ (p ++ r)
cut_at-none p [] k r n h e = empty_parts p k r n e
cut_at-none p (b ∷ s) k r n h e = elim (Option-cases (strip_prefix p (b ∷ s))) [
  | inr (x, q) ↦ absurd (let y = cut_at_here p s x b q in cc)
  | inl q ↦
      let (j, size, e') = nothing_before p b s k r q e in
      cut_at-none p s j r n (tail_none (cut_at p s) (sym (cut_at_later p s b q) ∙ h)) e'
]
  where
    tail_none : (o : Option (Text × Text)) → prepend_part b o ≡ none → o ≡ none
    tail_none none w = refl
    tail_none (some _) w = absurd (cc)

pair_parts :
    (a b c d : Text)
    → ◌≡◌ {A = Option (Text × Text)} (some (a, b)) (some (c, d))
    → (c ≡ a) × (d ≡ b)
pair_parts a b c d e = (cc, cc)

found_later :
    (p s l t : Text) (b : ℕ) (o : Option (Text × Text))
    → strip_prefix p (b ∷ s) ≡ none
    → ((l' t' : Text) → o ≡ some (l', t') → First p s l' t')
    → prepend_part b o ≡ some (l, t)
    → First p (b ∷ s) l t
found_later p s l t b none q f h = absurd (cc)
found_later p s l t b (some (l', t')) q f h =
    let (x, y) = pair_parts (b ∷ l') t' l t h in
    let g = f l' t' refl in
    subst₂ (First p (b ∷ s)) (sym x) (sym y) (record {
      rest = g.rest;
      parts = ap (λ u. b ∷ u) g.parts;
      here = g.here;
      first = λ k r e.
          let (j, size, e') = nothing_before p b s k r q e in omega (arith, size, g.first j r e');
    })

-- What is found is the first place.
pub cut_at-some : (p s l t : Text) → p ≢ [] → cut_at p s ≡ some (l, t) → First p s l t
cut_at-some p [] l t n h = absurd (let e = cut_at_empty p n in cc)
cut_at-some p (b ∷ s) l t n h = elim (Option-cases (strip_prefix p (b ∷ s))) [
  | inr (r, q) ↦
      let (x, y) = pair_parts [] (b ∷ s) l t (sym (cut_at_here p s r b q) ∙ h) in
      subst₂ (First p (b ∷ s)) (sym x) (sym y) (record {
        rest = r;
        parts = refl;
        here = strip_prefix_sound p (b ∷ s) r q;
        first = λ k r' e. omega arith;
      })
  | inl q ↦
      found_later p s l t b (cut_at p s) q (λ l' t'. cut_at-some p s l' t' n)
        (sym (cut_at_later p s b q) ∙ h)
]
