-- ===== src/Resume/Selection/Newest.antt =====
-- The loop of `Select` in internal/resume/planner.go over the checkpoints.
use terminal_redeemer.Base.{
  ◌≤◌, ◌<◌, ◌≡◌, refl, ap, ◌∙◌, ◌⊎◌, inl, inr, Bool, true, false, List, [], ◌∷◌, Option, none, some,
  All, In, arith, by_test, Bool-cases, ltb,
}
use terminal_redeemer.Model.{Checkpoint}
use terminal_redeemer.Resume.Selection.{newer, newest}

-- A newest eligible one is chosen, and none only where there is no eligible one.
abbrev pub IsNewest : (Checkpoint → Bool) → List Checkpoint → Option Checkpoint → Type 0
IsNewest p cs none = All (λ c. p c ≡ false) cs
IsNewest p cs (some b) =
    In b cs × (p b ≡ true) × All (λ c. p c ≡ true → c.observed_at ≤ b.observed_at) cs

-- The best of those seen so far and those to come.
abbrev Leads :
    (Checkpoint → Bool) → Option Checkpoint → List Checkpoint → Option Checkpoint → Type 0
Leads p none cs r = IsNewest p cs r
Leads p (some b) cs none = ⊥
Leads p (some b) cs (some r) =
    ((r ≡ b) ⊎ (In r cs × (p r ≡ true)))
    × (b.observed_at ≤ r.observed_at)
    × All (λ c. p c ≡ true → c.observed_at ≤ r.observed_at) cs

weaker :
    (r c : Checkpoint) (p : Checkpoint → Bool) (cs : List Checkpoint) (b : Checkpoint)
    → (r ≡ b) ⊎ (In r cs × (p r ≡ true))
    → (r ≡ b) ⊎ (In r (c ∷ cs) × (p r ≡ true))
weaker r c p cs b (inl e) = inl e
weaker r c p cs b (inr m) = inr (inr m.0, m.1)

Leads-skip :
    (p : Checkpoint → Bool) (best : Option Checkpoint) (c : Checkpoint) (cs : List Checkpoint)
    (r : Option Checkpoint)
    → p c ≡ false
    → Leads p best cs r
    → Leads p best (c ∷ cs) r
Leads-skip p none c cs none h l = (h, l)
Leads-skip p none c cs (some r) h l = (inr l.0, l.1, ((λ t. cc), l.2))
Leads-skip p (some b) c cs none h l = l
Leads-skip p (some b) c cs (some r) h l = (weaker r c p cs b l.0, l.1, ((λ t. cc), l.2))

chosen :
    (p : Checkpoint → Bool) (c r : Checkpoint) (cs : List Checkpoint)
    → p c ≡ true
    → (r ≡ c) ⊎ (In r cs × (p r ≡ true))
    → In r (c ∷ cs) × (p r ≡ true)
chosen p c r cs h (inl e) = (inl e, ap p e ∙ h)
chosen p c r cs h (inr m) = (inr m.0, m.1)

Leads-take :
    (p : Checkpoint → Bool) (best : Option Checkpoint) (c : Checkpoint) (cs : List Checkpoint)
    (r : Option Checkpoint)
    → p c ≡ true
    → Leads p (newer best c) cs r
    → Leads p best (c ∷ cs) r
unfolding newer
Leads-take p none c cs none h l = absurd l
Leads-take p none c cs (some r) h l = let m = chosen p c r cs h l.0 in (m.0, m.1, ((λ _. l.1), l.2))
Leads-take p (some b) c cs none h l =
    by_test (λ x. Leads p x cs none → ⊥) (ltb b.observed_at c.observed_at) (some c) (some b)
      (λ _ x. x) (λ _ x. x) l
Leads-take p (some b) c cs (some r) h l =
    by_test (λ x. Leads p x cs (some r) → Leads p (some b) (c ∷ cs) (some r))
      (ltb b.observed_at c.observed_at) (some c) (some b)
      (λ t x. (inr (chosen p c r cs h x.0), omega (arith, x.1, order t), ((λ _. x.1), x.2)))
      (λ f x. (weaker r c p cs b x.0, x.1, ((λ _. omega (arith, x.1, stays f)), x.2))) l
  where
    order : ltb b.observed_at c.observed_at ≡ true → b.observed_at < c.observed_at
    order t = ground arith

    stays : ltb b.observed_at c.observed_at ≡ false → c.observed_at ≤ b.observed_at
    stays f = ground arith

newest-Leads :
    (p : Checkpoint → Bool) (best : Option Checkpoint) (cs : List Checkpoint)
    → Leads p best cs (newest p best cs)
unfolding newest
newest-Leads p none [] = tt
newest-Leads p (some b) [] = (inl refl, omega arith, tt)
newest-Leads p best (c ∷ cs) = elim (Bool-cases (p c)) [
  | inl t ↦
      rw t
        (Leads-take p best c cs (newest p (newer best c) cs) t (newest-Leads p (newer best c) cs))
  | inr f ↦ rw f (Leads-skip p best c cs (newest p best cs) f (newest-Leads p best cs))
]

pub newest-IsNewest :
    (p : Checkpoint → Bool) (cs : List Checkpoint) → IsNewest p cs (newest p none cs)
newest-IsNewest p cs = newest-Leads p none cs
