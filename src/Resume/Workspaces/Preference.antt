-- ===== src/Resume/Workspaces/Preference.antt =====
-- The contract of `ResolveWorkspace`: the name first, then the output with the index, then the index.
use terminal_redeemer.Base.{
  ◌<◌, ◌≡◌, ◌≢◌, ◌↔◌, inl, inr, Bool, true, false, List, [], ◌∷◌, Option, none, some, All, In,
  In-sort_by, sort_by-All, first, first-some, first-none, sort_by, arith, Option-cases, trim_space,
  ℤ, pos_part, neg_part,
}
use terminal_redeemer.Model.{Workspace, WorkspaceRef, workspace_before}
use terminal_redeemer.Resume.Workspaces.{
  name, output_index, index, WorkspaceTarget, workspace_target, by_name, by_output_index, by_index,
  resolve_workspace,
}

abbrev pub IsPositive : ℤ → Type 0
IsPositive i = neg_part i < pos_part i

abbrev pub SameName : WorkspaceRef → Workspace → Type 0
SameName ref w = (trim_space ref.name ≢ []) × (trim_space w.name ≡ trim_space ref.name)

abbrev pub SameIndex : WorkspaceRef → Workspace → Type 0
SameIndex ref w = IsPositive ref.index × (w.index ≡ ref.index)

abbrev pub SamePlace : WorkspaceRef → Workspace → Type 0
SamePlace ref w =
    (trim_space ref.output ≢ []) × (trim_space w.output ≡ trim_space ref.output) × SameIndex ref w

by_name_iff : (ref : WorkspaceRef) (w : Workspace) → (by_name ref w ≡ true) ↔ SameName ref w
unfolding by_name
by_name_iff ref w = ((λ h. ground arith), (λ h. ground arith))

by_output_index_iff :
    (ref : WorkspaceRef) (w : Workspace) → (by_output_index ref w ≡ true) ↔ SamePlace ref w
unfolding by_output_index
by_output_index_iff ref w = ((λ h. ground arith), (λ h. ground arith))

by_index_iff : (ref : WorkspaceRef) (w : Workspace) → (by_index ref w ≡ true) ↔ SameIndex ref w
unfolding by_index
by_index_iff ref w = ((λ h. ground arith), (λ h. ground arith))

-- No current workspace has the property.
abbrev pub Nowhere : (Workspace → Type 0) → List Workspace → Type 0
Nowhere P = All (λ w. ¬ P w)

-- How a reference resolves among the current workspaces.
pub data Resolves (ref : WorkspaceRef) (ws : List Workspace) : Option WorkspaceTarget → Type 0 where
  named :
      (w : Workspace) → In w ws → SameName ref w → Resolves ref ws (some (workspace_target w name))
  placed :
      (w : Workspace)
      → In w ws
      → SamePlace ref w
      → Nowhere (SameName ref) ws
      → Resolves ref ws (some (workspace_target w output_index))
  indexed :
      (w : Workspace)
      → In w ws
      → SameIndex ref w
      → Nowhere (SameName ref) ws
      → Nowhere (SamePlace ref) ws
      → Resolves ref ws (some (workspace_target w index))
  unresolved :
      Nowhere (SameName ref) ws
      → Nowhere (SamePlace ref) ws
      → Nowhere (SameIndex ref) ws
      → Resolves ref ws none

abbrev sorted : List Workspace → List Workspace
sorted = sort_by workspace_before

module _ (p : Workspace → Bool) (P : Workspace → Type 0)
    (iff : (w : Workspace) → (p w ≡ true) ↔ P w) where
  found : (ws : List Workspace) (w : Workspace) → first p (sorted ws) ≡ some w → In w ws × P w
  found ws w e =
      let r = first-some p (sorted ws) w e in (In-sort_by workspace_before w ws r.1, (iff w).0 r.0)

  fails : (ws : List Workspace) → All (λ w. p w ≡ false) ws → Nowhere P ws
  fails [] h = tt
  fails (w ∷ ws) h = ((λ q. clash (p w) ((iff w).1 q) h.0), fails ws h.1)
    where
      clash : (b : Bool) → b ≡ true → b ≡ false → ⊥
      clash b t f = cc

  missing : (ws : List Workspace) → first p (sorted ws) ≡ none → Nowhere P ws
  missing ws e =
      fails ws (sort_by-All (λ w. p w ≡ false) workspace_before ws (first-none p (sorted ws) e))

-- A reference resolves to a current workspace of its name; failing that, to one of its output and
-- index; failing that, to one of its index; and to none only where no workspace fits in any way.
pub resolve_workspace-Resolves :
    (ref : WorkspaceRef) (ws : List Workspace) → Resolves ref ws (resolve_workspace ref ws)
unfolding resolve_workspace
resolve_workspace-Resolves ref ws = elim (Option-cases (first (by_name ref) (sorted ws))) [
  | inr (w, e) ↦
      rw (e, resolve_workspace)
        (let r = found (by_name ref) (SameName ref) (by_name_iff ref) ws w e in named w r.0 r.1)
  | inl n ↦
      rw (n, resolve_workspace)
        (elim (Option-cases (first (by_output_index ref) (sorted ws))) [
          | inr (w, e) ↦ rw e (
              let r =
                found (by_output_index ref) (SamePlace ref) (by_output_index_iff ref) ws w e in
              placed w r.0 r.1 (unnamed n))
          | inl o ↦ rw o (elim (Option-cases (first (by_index ref) (sorted ws))) [
            | inr (w, e) ↦ rw e (
                let r = found (by_index ref) (SameIndex ref) (by_index_iff ref) ws w e in
                indexed w r.0 r.1 (unnamed n) (unplaced o))
            | inl i ↦ rw i (
                unresolved (unnamed n) (unplaced o)
                  (missing (by_index ref) (SameIndex ref) (by_index_iff ref) ws i))
          ])
        ])
]
  where
    unnamed : first (by_name ref) (sorted ws) ≡ none → Nowhere (SameName ref) ws
    unnamed = missing (by_name ref) (SameName ref) (by_name_iff ref) ws

    unplaced : first (by_output_index ref) (sorted ws) ≡ none → Nowhere (SamePlace ref) ws
    unplaced = missing (by_output_index ref) (SamePlace ref) (by_output_index_iff ref) ws
