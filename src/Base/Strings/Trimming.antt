-- ===== src/Base/Strings/Trimming.antt =====
-- `strings.TrimSpace` leaves nothing to trim.
use Prim.Native.Nat.{ℕ, zero, suc, ◌≤◌}
use mathlib.Core.Path.{◌≡◌, refl, sym, ap, subst, ◌∙◌}
use mathlib.Core.List.{
  [], ◌∷◌, ◌++◌, reverse, reverse-append, reverse-cons, reverse-reverse, append_assoc,
}
use mathlib.Core.Logic.{◌⊎◌, inl, inr, ◌≢◌}
use native.Mathlib.Omega.{arith}
use terminal_redeemer.Base.Texts.{Text}
use terminal_redeemer.Base.Lists.{length, length-append}
use terminal_redeemer.Base.Strings.{drop, front_space, back_space, trim_with, trim_space}

ℕ-cases : (n : ℕ) → (n ≡ 0) ⊎ ((k : ℕ) × (n ≡ suc k))
ℕ-cases zero = inl refl
ℕ-cases (suc k) = inr (k, refl)

length-drop_le : (n : ℕ) (s : Text) → length (drop n s) ≤ length s
unfolding drop
length-drop_le zero s = omega arith
length-drop_le (suc n) [] = omega arith
length-drop_le (suc n) (b ∷ s) = omega (arith, length-drop_le n s)

length-drop : (n m : ℕ) (s : Text) → length s ≤ suc m → length (drop (suc n) s) ≤ m
unfolding drop
length-drop n m [] h = omega arith
length-drop n m (b ∷ s) h = omega (arith, h, length-drop_le n s)

-- The text that a trimming leaves ends the given one.
drop-suffix : (n : ℕ) (s : Text) → (p : Text) × (s ≡ p ++ drop n s)
unfolding drop
drop-suffix zero s = ([], refl)
drop-suffix (suc n) [] = ([], refl)
drop-suffix (suc n) (b ∷ s) = let (p, e) = drop-suffix n s in (b ∷ p, ap (λ l. b ∷ l) e)

module _ (width : Text → ℕ) (width_nil : width [] ≡ 0) where
  trim_with-done : (n : ℕ) (s : Text) → width s ≡ 0 → trim_with width n s ≡ s
  unfolding trim_with
  trim_with-done zero s h = refl
  trim_with-done (suc n) s h = rw (h, trim_with) refl

  trim_with-width : (n : ℕ) (s : Text) → length s ≤ n → width (trim_with width n s) ≡ 0
  unfolding trim_with
  trim_with-width zero [] h = width_nil
  trim_with-width zero (b ∷ s) h = absurd (omega (arith, h))
  trim_with-width (suc n) s h = elim (ℕ-cases (width s)) [
    | inl e ↦ rw (e, trim_with) e
    | inr (k, e) ↦ rw (e, trim_with) (trim_with-width n (drop (suc k) s) (length-drop k n s h))
  ]

  trim_with-suffix : (n : ℕ) (s : Text) → (p : Text) × (s ≡ p ++ trim_with width n s)
  unfolding trim_with
  trim_with-suffix zero s = ([], refl)
  trim_with-suffix (suc n) s = elim (ℕ-cases (width s)) [
    | inl e ↦ ([], sym (trim_with-done (suc n) s e))
    | inr (k, e) ↦
        let (p, f) = drop-suffix (suc k) s in
        let (q, g) = trim_with-suffix n (drop (suc k) s) in
        (p ++ q, rw (e, trim_with) (f ∙ ap (λ l. p ++ l) g ∙ sym (append_assoc p q _)))
  ]

front_space-prefix : (p q : Text) → front_space (p ++ q) ≡ 0 → front_space p ≡ 0
unfolding front_space
front_space-prefix [] q h = refl
front_space-prefix (a ∷ []) [] h = h
front_space-prefix (a ∷ []) (b ∷ []) h = ground (arith, h)
front_space-prefix (a ∷ []) (b ∷ c ∷ q) h = ground (arith, h)
front_space-prefix (a ∷ b ∷ []) [] h = h
front_space-prefix (a ∷ b ∷ []) (c ∷ q) h = ground (arith, h)
front_space-prefix (a ∷ b ∷ c ∷ p) q h = h

length-reverse : (s : Text) → length (reverse s) ≡ length s
length-reverse [] = refl
length-reverse (b ∷ s) =
    ap length (reverse-cons b s)
    ∙ omega (arith, length-append (reverse s) (b ∷ []), length-reverse s)

-- What is trimmed has no white space at its ends.
front_space-trim_space : (s : Text) → front_space (trim_space s) ≡ 0
unfolding trim_space
front_space-trim_space s =
    let left = trim_with front_space (length s) s in
    let (p, e) = trim_with-suffix back_space refl (length left) (reverse left) in
    let right = trim_with back_space (length left) (reverse left) in
    let split : left ≡ reverse right ++ reverse p =
      sym (reverse-reverse left) ∙ ap reverse e ∙ reverse-append p right in
    front_space-prefix (reverse right) (reverse p) (
      subst (λ l. front_space l ≡ 0) split
        (trim_with-width front_space refl (length s) s (omega arith)))

back_space-trim_space : (s : Text) → back_space (reverse (trim_space s)) ≡ 0
unfolding trim_space
back_space-trim_space s =
    let left = trim_with front_space (length s) s in
    let right = trim_with back_space (length left) (reverse left) in
    subst (λ l. back_space l ≡ 0) (sym (reverse-reverse right))
      (trim_with-width back_space refl (length left) (reverse left)
        (omega (arith, length-reverse left)))

trimmed_stays : (t : Text) → front_space t ≡ 0 → back_space (reverse t) ≡ 0 → trim_space t ≡ t
unfolding trim_space
trimmed_stays t f b =
    ap (λ l. reverse (trim_with back_space (length l) (reverse l)))
      (trim_with-done front_space refl (length t) t f)
    ∙ ap reverse (trim_with-done back_space refl (length t) (reverse t) b)
    ∙ reverse-reverse t

pub trim_space-trim_space : (s : Text) → trim_space (trim_space s) ≡ trim_space s
trim_space-trim_space s =
    trimmed_stays (trim_space s) (front_space-trim_space s) (back_space-trim_space s)

-- The letter s at the front of a text is never trimmed.
abbrev LedBy : Text → Type 0
LedBy t = (r : Text) × (t ≡ r ++ b's' ∷ [])

back_space_le : (a b c : ℕ) (s : Text) → back_space (c ∷ b ∷ a ∷ s) ≤ 3
unfolding back_space
back_space_le a b c s = ground arith

drop-LedBy :
    (k : ℕ) (r : Text) → back_space (r ++ b's' ∷ []) ≡ suc k → LedBy (drop (suc k) (r ++ b's' ∷ []))
unfolding back_space drop
drop-LedBy k [] h = absurd (ground (arith, h))
drop-LedBy zero (c ∷ []) h = ([], refl)
drop-LedBy (suc k) (c ∷ []) h = absurd (ground (arith, h))
drop-LedBy zero (c ∷ b ∷ []) h = (b ∷ [], refl)
drop-LedBy (suc zero) (c ∷ b ∷ []) h = ([], refl)
drop-LedBy (suc (suc k)) (c ∷ b ∷ []) h = absurd (ground (arith, h))
drop-LedBy zero (c ∷ b ∷ a ∷ r) h = (b ∷ a ∷ r, refl)
drop-LedBy (suc zero) (c ∷ b ∷ a ∷ r) h = (a ∷ r, refl)
drop-LedBy (suc (suc zero)) (c ∷ b ∷ a ∷ r) h = (r, refl)
drop-LedBy (suc (suc (suc k))) (c ∷ b ∷ a ∷ r) h =
    absurd (omega (arith, h, back_space_le a b c (r ++ b's' ∷ [])))

trim_with-LedBy : (n : ℕ) (t : Text) → LedBy t → LedBy (trim_with back_space n t)
unfolding trim_with
trim_with-LedBy zero t h = h
trim_with-LedBy (suc n) t h = elim (ℕ-cases (back_space t)) [
  | inl e ↦ rw (e, trim_with) h
  | inr (k, e) ↦
      rw (e, trim_with)
        (trim_with-LedBy n (drop (suc k) t) (
          subst (λ l. LedBy (drop (suc k) l)) (sym h.1)
            (drop-LedBy k h.0 (sym (ap back_space h.1) ∙ e))))
]

front_space_led : (t : Text) → front_space (b's' ∷ t) ≡ 0
unfolding front_space
front_space_led [] = refl
front_space_led (b ∷ []) = refl
front_space_led (b ∷ c ∷ t) = refl

pub trim_space_led : (t : Text) → trim_space (b's' ∷ t) ≢ []
unfolding trim_space
trim_space_led t e =
    let left = trim_with front_space (length (b's' ∷ t)) (b's' ∷ t) in
    let stays : left ≡ b's' ∷ t =
      trim_with-done front_space refl (length (b's' ∷ t)) (b's' ∷ t) (front_space_led t) in
    let (r, q) =
      trim_with-LedBy (length left) (reverse left)
        (reverse t, ap reverse stays ∙ reverse-cons b's' t) in
    clash (sym (reverse-append r (b's' ∷ [])) ∙ ap reverse (sym q) ∙ e)
  where
    clash : {l : Text} → b's' ∷ l ≡ [] → ⊥
    clash e = cc
