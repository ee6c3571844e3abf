-- ===== src/Checkpoints/Prune/Removal.antt =====
-- `Prune` of internal/checkpoints/store.go: what its removal loop leaves in the directory.
use terminal_redeemer.Base.{
  ℕ, ◌+◌, ◌≡◌, sym, ap, subst, ◌∙◌, ◌≢◌, ◌⊎◌, inl, inr, Bool, true, false, not, ◌||◌, List, [], ◌∷◌,
  Option, none, some, Text, same, seen, any, ltb, In, Distinct, keys, del, arith, by_test,
}
use terminal_redeemer.Model.{Checkpoint}
use terminal_redeemer.Checkpoints.{Codec}
use terminal_redeemer.Checkpoints.Directory.{
  Node, Files, Candidate, candidate, candidates, add_candidate,
}
use terminal_redeemer.Checkpoints.Prune.{Pruned, remove_expired, sync_removed}

abbrev pub Entry : Type 0
Entry = Text × Node

pub In-del_ne :
    (name : Text) (x : Entry) (files : Files) → In x files → name ≢ x.0 → In x (del name files)
unfolding del
In-del_ne name x [] m h = m
In-del_ne name x ((n, node) ∷ files) (inl e) h =
    by_test (In x) (same n name) _ _
      (λ t. absurd (h (let q : x.0 ≡ n = ap (λ y. y.0) e in ground arith))) (λ _. inl e)
In-del_ne name x ((n, node) ∷ files) (inr m) h =
    by_test (In x) (same n name) _ _ (λ _. m) (λ _. inr (In-del_ne name x files m h))

del-In : (name : Text) (x : Entry) (files : Files) → In x (del name files) → In x files
unfolding del
del-In name x [] m = m
del-In name x ((n, node) ∷ files) m =
    by_test (λ l. In x l → In x ((n, node) ∷ files)) (same n name) _ _ (λ _ k. inr k)
      (λ _. deep (del-In name x files)) m
  where
    deep :
        (In x (del name files) → In x files)
        → In x ((n, node) ∷ del name files)
        → In x ((n, node) ∷ files)
    deep f (inl e) = inl e
    deep f (inr k) = inr (f k)

-- No candidate of the name is removed.
abbrev pub Spared : (Text → Bool) → ℕ → Text → List Candidate → Type 0
Spared kept cutoff name cs =
    (c : Checkpoint) → In (name, c) cs → (kept name || not (ltb c.observed_at cutoff)) ≡ true

pub remove_expired-Spared :
    (removable kept : Text → Bool) (cutoff : ℕ) (cs : List Candidate) (files : Files) (n : ℕ)
    (x : Entry)
    → Spared kept cutoff x.0 cs
    → In x files
    → In x (remove_expired removable kept cutoff cs files n).files
unfolding remove_expired
remove_expired-Spared removable kept cutoff [] files n x h m = m
remove_expired-Spared removable kept cutoff ((name, c) ∷ cs) files n x h m =
    let tail : Spared kept cutoff x.0 cs = λ d k. h d (inr k) in
    by_test (λ (r : Pruned). In x r.files) (kept name || not (ltb c.observed_at cutoff)) _ _
      (λ _. remove_expired-Spared removable kept cutoff cs files n x tail m)
      (λ f.
        by_test (λ (r : Pruned). In x r.files) (not (removable name)) _ _ (λ _. m)
          (λ _.
            remove_expired-Spared removable kept cutoff cs (del name files) (n + 1) x tail
              (In-del_ne name x files m (λ e. spared f e (h c)))))
  where
    spared :
        (kept name || not (ltb c.observed_at cutoff)) ≡ false
        → name ≡ x.0
        → (In (x.0, c) ((name, c) ∷ cs) → (kept x.0 || not (ltb c.observed_at cutoff)) ≡ true)
        → ⊥
    spared f e k = let q = k (inl (ap (λ y. (y, c)) (sym e))) in ground (arith, f, q, e)

pub remove_expired-In :
    (removable kept : Text → Bool) (cutoff : ℕ) (cs : List Candidate) (files : Files) (n : ℕ)
    (x : Entry)
    → In x (remove_expired removable kept cutoff cs files n).files
    → In x files
unfolding remove_expired
remove_expired-In removable kept cutoff [] files n x m = m
remove_expired-In removable kept cutoff ((name, c) ∷ cs) files n x m =
    by_test (λ (r : Pruned). In x r.files → In x files)
      (kept name || not (ltb c.observed_at cutoff)) _ _
      (λ _ k. remove_expired-In removable kept cutoff cs files n x k)
      (λ f.
        by_test (λ (r : Pruned). In x r.files → In x files) (not (removable name)) _ _ (λ _ k. k)
          (λ _ k.
            del-In name x files
              (remove_expired-In removable kept cutoff cs (del name files) (n + 1) x k)))
      m

pub sync_removed-files : (syncs : Bool) (p : Pruned) → (sync_removed syncs p).files ≡ p.files
unfolding sync_removed
sync_removed-files syncs p = ground arith

same_entry :
    {A : Type 0} (f : Text → Node → A) (name n : Text) (node k : Node)
    → ◌≡◌ {A = Entry} (name, node) (n, k)
    → f n k ≡ f name node
same_entry f name n node k e = ap (λ x. f x.0 x.1) (sym e)

add_candidate-In :
    (name : Text) (c : Checkpoint) (n : Text) (o : Option Checkpoint) (cs : List Candidate)
    → In (name, c) (add_candidate n o cs)
    → ((name ≡ n) × (o ≡ some c)) ⊎ In (name, c) cs
add_candidate-In name c n none cs m = inr m
add_candidate-In name c n (some d) cs (inl e) = inl (ap (λ x. x.0) e, ap (λ x. some (x.1)) (sym e))
add_candidate-In name c n (some d) cs (inr m) = inr m

In-add_candidate :
    (x : Candidate) (n : Text) (o : Option Checkpoint) (cs : List Candidate)
    → In x cs
    → In x (add_candidate n o cs)
In-add_candidate x n none cs m = m
In-add_candidate x n (some d) cs m = inr m

module _ (J : Codec) where
  pub In-candidates :
      (name : Text) (node : Node) (c : Checkpoint) (files : Files)
      → In (name, node) files
      → candidate J name node ≡ some c
      → In (name, c) (candidates J files)
  unfolding candidates
  In-candidates name node c [] m h = absurd m
  In-candidates name node c ((n, k) ∷ files) (inl e) h =
      subst (λ o. In (name, c) (add_candidate n o (candidates J files)))
        (sym (same_entry (candidate J) name n node k e ∙ h)) (inl (ap (λ x. (x.0, c)) e))
  In-candidates name node c ((n, k) ∷ files) (inr m) h =
      In-add_candidate (name, c) n (candidate J n k) (candidates J files)
        (In-candidates name node c files m h)

  abbrev pub HoldsAt : Text → Checkpoint → Files → Type 0
  HoldsAt name c files = (node : Node) × (In (name, node) files × (candidate J name node ≡ some c))

  pub candidates-In :
      (name : Text) (c : Checkpoint) (files : Files)
      → In (name, c) (candidates J files)
      → HoldsAt name c files
  unfolding candidates
  candidates-In name c [] m = absurd m
  candidates-In name c ((n, k) ∷ files) m =
      either (candidates-In name c files)
        (add_candidate-In name c n (candidate J n k) (candidates J files) m)
    where
      either :
          (In (name, c) (candidates J files) → HoldsAt name c files)
          → ((name ≡ n) × (candidate J n k ≡ some c)) ⊎ In (name, c) (candidates J files)
          → HoldsAt name c ((n, k) ∷ files)
      either f (inl (e, h)) = (k, (inl (ap (λ x. (x, k)) e), ap (λ x. candidate J x k) e ∙ h))
      either f (inr r) = let (node, (i, h)) = f r in (node, (inr i, h))

seen-keys : (x : Entry) (files : Files) → In x files → seen x.0 (keys files) ≡ true
unfolding keys any
seen-keys x [] m = absurd m
seen-keys x ((n, k) ∷ files) (inl e) = let q : x.0 ≡ n = ap (λ y. y.0) e in ground arith
seen-keys x ((n, k) ∷ files) (inr m) = ground (arith, seen-keys x files m)

-- In a directory without repeated names a name has one entry.
pub In_unique :
    (name : Text) (a b : Node) (files : Files)
    → Distinct (keys files)
    → In (name, a) files
    → In (name, b) files
    → a ≡ b
unfolding keys
In_unique name a b [] d m k = absurd m
In_unique name a b ((n, c) ∷ files) d (inl e) (inl f) = ap (λ x. x.1) (e ∙ sym f)
In_unique name a b ((n, c) ∷ files) d (inr m) (inr k) = In_unique name a b files d.1 m k
In_unique name a b ((n, c) ∷ files) d (inl e) (inr k) =
    absurd (let q : name ≡ n = ap (λ x. x.0) e in clash q (seen-keys (name, b) files k) d.0)
  where
    clash : name ≡ n → seen name (keys files) ≡ true → seen n (keys files) ≡ false → ⊥
    clash q t f = cc
In_unique name a b ((n, c) ∷ files) d (inr m) (inl e) =
    absurd (let q : name ≡ n = ap (λ x. x.0) e in clash q (seen-keys (name, a) files m) d.0)
  where
    clash : name ≡ n → seen name (keys files) ≡ true → seen n (keys files) ≡ false → ⊥
    clash q t f = cc
