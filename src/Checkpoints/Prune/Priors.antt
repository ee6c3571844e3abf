-- ===== src/Checkpoints/Prune/Priors.antt =====
-- `Prune` of internal/checkpoints/store.go: which names its first two loops protect.
use terminal_redeemer.Base.{
  ◌≤◌, ◌≡◌, refl, sym, ap, subst, ◌∙◌, ◌≢◌, ◌⊎◌, inl, inr, true, false, ◌&&◌, List, [], ◌∷◌, Text,
  same, seen, any, In, arith, by_test,
}
use terminal_redeemer.Model.{Checkpoint}
use terminal_redeemer.Checkpoints.Directory.{Candidate}
use terminal_redeemer.Checkpoints.Prune.{displaces, offer_prior, Protection, protect, names_of}

-- The one is of the same host and profile as the other, and not older.
abbrev pub Covers : Checkpoint → Checkpoint → Type 0
Covers d c = (d.host ≡ c.host) × (d.profile ≡ c.profile) × (c.observed_at ≤ d.observed_at)

-- One of the candidates covers the checkpoint.
abbrev pub Covered : Checkpoint → List Candidate → Type 0
Covered c [] = ⊥
Covered c ((_, d) ∷ ps) = Covers d c ⊎ Covered c ps

pub Covered-In :
    (c : Checkpoint) (ps : List Candidate)
    → Covered c ps
    → (x : Candidate) × (In x ps × Covers x.1 c)
Covered-In c [] h = absurd h
Covered-In c ((name, d) ∷ ps) (inl h) = ((name, d), (inl refl, h))
Covered-In c ((name, d) ∷ ps) (inr h) = let (x, (m, k)) = Covered-In c ps h in (x, (inr m, k))

offer_prior-Covered :
    (name : Text) (c : Checkpoint) (ps : List Candidate) → Covered c (offer_prior (name, c) ps)
unfolding offer_prior displaces
offer_prior-Covered name c [] = inl (refl, refl, ground arith)
offer_prior-Covered name c ((best, b) ∷ ps) =
    by_test (Covered c) (same b.host c.host && same b.profile c.profile) _ _
      (λ i.
        by_test (Covered c) (displaces c b) _ _ (λ _. inl (refl, refl, ground arith))
          (λ f. inl (ground arith, ground arith, ground arith)))
      (λ _. inr (offer_prior-Covered name c ps))

offer_prior_keeps :
    (name : Text) (c a : Checkpoint) (ps : List Candidate)
    → Covered a ps
    → Covered a (offer_prior (name, c) ps)
unfolding offer_prior displaces
offer_prior_keeps name c a [] h = absurd h
offer_prior_keeps name c a ((best, b) ∷ ps) (inl h) =
    by_test (Covered a) (same b.host c.host && same b.profile c.profile) _ _
      (λ i.
        by_test (Covered a) (displaces c b) _ _
          (λ t. inl (ground (arith, h), ground (arith, h), ground (arith, h))) (λ _. inl h))
      (λ _. inl h)
offer_prior_keeps name c a ((best, b) ∷ ps) (inr h) =
    by_test (Covered a) (same b.host c.host && same b.profile c.profile) _ _
      (λ i. by_test (Covered a) (displaces c b) _ _ (λ _. inr h) (λ _. inr h))
      (λ _. inr (offer_prior_keeps name c a ps h))

offer_prior_sound :
    (name : Text) (c : Checkpoint) (ps : List Candidate) (x : Candidate)
    → In x (offer_prior (name, c) ps)
    → (x ≡ (name, c)) ⊎ In x ps
unfolding offer_prior
offer_prior_sound name c [] x m = m
offer_prior_sound name c ((best, b) ∷ ps) x m =
    by_test (λ l. In x l → (x ≡ (name, c)) ⊎ In x ((best, b) ∷ ps))
      (same b.host c.host && same b.profile c.profile) _ _
      (λ _.
        by_test (λ l. In x l → (x ≡ (name, c)) ⊎ In x ((best, b) ∷ ps)) (displaces c b) _ _
          (λ _. new) (λ _ k. inr k))
      (λ _. deep (offer_prior_sound name c ps x)) m
  where
    new : In x ((name, c) ∷ ps) → (x ≡ (name, c)) ⊎ In x ((best, b) ∷ ps)
    new (inl e) = inl e
    new (inr k) = inr (inr k)

    later : (x ≡ (name, c)) ⊎ In x ps → (x ≡ (name, c)) ⊎ In x ((best, b) ∷ ps)
    later (inl e) = inl e
    later (inr k) = inr (inr k)

    deep :
        (In x (offer_prior (name, c) ps) → (x ≡ (name, c)) ⊎ In x ps)
        → In x ((best, b) ∷ offer_prior (name, c) ps)
        → (x ≡ (name, c)) ⊎ In x ((best, b) ∷ ps)
    deep before (inl e) = inr (inl e)
    deep before (inr k) = later (before k)

module _ (boot : Text) where
  protect_keeps-current :
      (name : Text) (cs : List Candidate) (p : Protection)
      → seen name p.current ≡ true
      → seen name (protect boot cs p).current ≡ true
  unfolding protect any
  protect_keeps-current name [] p h = h
  protect_keeps-current name ((n, c) ∷ cs) p h = protect_keeps-current name cs _ (
      by_test (λ (q : Protection). seen name q.current ≡ true) (same c.boot_id boot) _ _
        (λ _. ground (arith, h)) (λ _. h))

  pub protect-current :
      (name : Text) (c : Checkpoint) (cs : List Candidate) (p : Protection)
      → In (name, c) cs
      → c.boot_id ≡ boot
      → seen name (protect boot cs p).current ≡ true
  unfolding protect any
  protect-current name c [] p m h = absurd m
  protect-current name c ((n, d) ∷ cs) p (inl e) h = protect_keeps-current name cs _ (
      by_test (λ (q : Protection). seen name q.current ≡ true) (same d.boot_id boot) _ _
        (λ _. let q : name ≡ n = ap (λ x. x.0) e in ground arith)
        (λ f. let q : c.boot_id ≡ d.boot_id = ap (λ x. x.1.boot_id) e in ground arith))
  protect-current name c (x ∷ cs) p (inr m) h = protect-current name c cs _ m h

  protect_keeps-Covered :
      (a : Checkpoint) (cs : List Candidate) (p : Protection)
      → Covered a p.priors
      → Covered a (protect boot cs p).priors
  unfolding protect
  protect_keeps-Covered a [] p h = h
  protect_keeps-Covered a ((n, c) ∷ cs) p h = protect_keeps-Covered a cs _ (
      by_test (λ (q : Protection). Covered a q.priors) (same c.boot_id boot) _ _ (λ _. h)
        (λ _. offer_prior_keeps n c a p.priors h))

  pub protect-Covered :
      (name : Text) (c : Checkpoint) (cs : List Candidate) (p : Protection)
      → In (name, c) cs
      → c.boot_id ≢ boot
      → Covered c (protect boot cs p).priors
  unfolding protect
  protect-Covered name c [] p m h = absurd m
  protect-Covered name c ((n, d) ∷ cs) p (inl e) h =
      let q : c ≡ d = ap (λ x. x.1) e in
      protect_keeps-Covered c cs _ (
        by_test (λ (q : Protection). Covered c q.priors) (same d.boot_id boot) _ _
          (λ t. absurd (h (ap (λ x. x.boot_id) q ∙ equal d.boot_id t)))
          (λ _.
            subst (λ x. Covered x (offer_prior (n, d) p.priors)) (sym q)
              (offer_prior-Covered n d p.priors)))
    where
      equal : (b : Text) → same b boot ≡ true → b ≡ boot
      equal b t = ground arith
  protect-Covered name c (x ∷ cs) p (inr m) h = protect-Covered name c cs _ m h

  -- A candidate of another boot.
  abbrev pub Prior : List Candidate → Candidate → Type 0
  Prior cs x = In x cs × (x.1.boot_id ≢ boot)

  earlier : (x y : Candidate) (cs : List Candidate) → Prior cs x → Prior (y ∷ cs) x
  earlier x y cs h = (inr h.0, h.1)

  pub protect_sound :
      (cs : List Candidate) (p : Protection) (x : Candidate)
      → In x (protect boot cs p).priors
      → In x p.priors ⊎ Prior cs x
  unfolding protect
  protect_sound [] p x m = inl m
  protect_sound ((n, c) ∷ cs) p x m =
      cases
        (by_test (λ q. (In x q.priors ⊎ Prior cs x) → In x p.priors ⊎ Prior ((n, c) ∷ cs) x)
          (same c.boot_id boot) (record p { current = n ∷ p.current })
          (record p { priors = offer_prior (n, c) p.priors }) (λ _. old) (λ f. new f))
        (protect_sound cs _ x m)
    where
      cases : {A B : Type 0} → (A → B) → A → B
      cases f a = f a

      old : In x p.priors ⊎ Prior cs x → In x p.priors ⊎ Prior ((n, c) ∷ cs) x
      old (inl k) = inl k
      old (inr h) = inr (earlier x (n, c) cs h)

      offered :
          same c.boot_id boot ≡ false
          → (x ≡ (n, c)) ⊎ In x p.priors
          → In x p.priors ⊎ Prior ((n, c) ∷ cs) x
      offered f (inl e) =
          inr
            (inl e, λ q. let r : x.1.boot_id ≡ c.boot_id = ap (λ y. y.1.boot_id) e in ground arith)
      offered f (inr k) = inl k

      new :
          same c.boot_id boot ≡ false
          → In x (offer_prior (n, c) p.priors) ⊎ Prior cs x
          → In x p.priors ⊎ Prior ((n, c) ∷ cs) x
      new f (inl k) = offered f (offer_prior_sound n c p.priors x k)
      new f (inr h) = inr (earlier x (n, c) cs h)

pub seen-names_of : (x : Candidate) (ps : List Candidate) → In x ps → seen x.0 (names_of ps) ≡ true
unfolding any
seen-names_of x [] m = absurd m
seen-names_of x ((n, c) ∷ ps) (inl e) = let q : x.0 ≡ n = ap (λ y. y.0) e in ground arith
seen-names_of x ((n, c) ∷ ps) (inr m) = ground (arith, seen-names_of x ps m)
