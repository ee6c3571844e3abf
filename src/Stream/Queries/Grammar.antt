-- ===== src/Stream/Queries/Grammar.antt =====
-- The grammar of complete terminal queries, and the parsers of session_queries.go against it.
use terminal_redeemer.Base.{
  ℕ, suc, ◌+◌, ◌≡◌, refl, sym, ap, subst, by_test, ◌∙◌, ◌⊎◌, inl, inr, Bool, true, false, not, ◌&&◌,
  ◌==◌, [], ◌∷◌, ◌++◌, Option, none, some, Text, All, length, arith, if◌then◌else◌,
}
use mathlib.Core.Path.{ap₂, subst₂}
use mathlib.Core.List.{append_assoc}
use terminal_redeemer.Stream.Queries.{
  esc, bel, backslash, span, csi_query, csi_body, csi_end, is_parameter, is_intermediate, is_final,
  string_sequence, osc_query, graphics_query, capability_query, prepend, starts_with_backslash,
}

abbrev pub Passes : (ℕ → Bool) → Text → Type 0
Passes p = All (λ b. p b ≡ true)

-- What may stand inside a string sequence: no escape, and no bell where that is a terminator.
abbrev pub is_plain : Bool → ℕ → Bool
is_plain osc b = not (b == esc) && not (osc && b == bel)

-- The string terminator, or the bell where it is one.
abbrev pub Ends : Bool → Text → Type 0
Ends osc t = (t ≡ esc ∷ backslash ∷ []) ⊎ ((osc ≡ true) × (t ≡ bel ∷ []))

pub record StringQuery (osc : Bool) (query : Text → Bool) (s : Text) : Type 0 where
  pub payload : Text
  pub ending : Text
  pub plain : Passes (is_plain osc) payload
  pub ends : Ends osc ending
  pub asks : query payload ≡ true
  pub whole : s ≡ payload ++ ending

pub record ControlQuery (s : Text) : Type 0 where
  pub parameters : Text
  pub intermediates : Text
  pub final : ℕ
  pub in_parameters : Passes is_parameter parameters
  pub in_intermediates : Passes is_intermediate intermediates
  pub in_final : is_final final ≡ true
  pub asks : csi_query (parameters ++ intermediates ++ final ∷ []) ≡ true
  pub whole : s ≡ parameters ++ intermediates ++ final ∷ []

-- The complete queries.
pub data Query : Text → Type 0 where
  control : (s : Text) → ControlQuery s → Query (esc ∷ b'[' ∷ s)
  colour : (s : Text) → StringQuery true osc_query s → Query (esc ∷ b']' ∷ s)
  capability : (s : Text) → StringQuery false capability_query s → Query (esc ∷ b'P' ∷ s)
  graphics : (s : Text) → StringQuery false graphics_query s → Query (esc ∷ b'_' ∷ s)

-- What the parser of string sequences finds.
pub record StringFound (osc : Bool) (s payload : Text) (n : ℕ) : Type 0 where
  pub ending : Text
  pub rest : Text
  pub plain : Passes (is_plain osc) payload
  pub ends : Ends osc ending
  pub size : length payload + length ending ≡ n
  pub parts : s ≡ payload ++ (ending ++ rest)

string_sequence_step :
    (osc : Bool) (b : ℕ) (s payload : Text) (n : ℕ)
    → is_plain osc b ≡ true
    → StringFound osc s payload n
    → StringFound osc (b ∷ s) (b ∷ payload) (suc n)
string_sequence_step osc b s payload n h f = record {
  ending = f.ending;
  rest = f.rest;
  plain = (h, f.plain);
  ends = f.ends;
  size = omega (arith, f.size);
  parts = ap (λ t. b ∷ t) f.parts;
}

pair_eq :
    (p q : Text) (m n : ℕ)
    → ◌≡◌ {A = Option (Text × ℕ)} (some (p, m)) (some (q, n))
    → (q ≡ p) × (n ≡ m)
pair_eq p q m n e = (cc, cc)

found_end :
    (osc : Bool) (s payload ending rest : Text) (n : ℕ)
    → Ends osc ending
    → s ≡ ending ++ rest
    → (payload ≡ []) × (n ≡ length ending)
    → StringFound osc s payload n
found_end osc s payload ending rest n t w (e, k) = record {
  ending = ending;
  rest = rest;
  plain = subst (Passes (is_plain osc)) (sym e) tt;
  ends = t;
  size = ap (λ q. length q + length ending) e ∙ omega (arith, k);
  parts = w ∙ ap (λ q. q ++ (ending ++ rest)) (sym e);
}

rest_of : Text → Text
rest_of [] = []
rest_of (c ∷ s) = s

backslash_parts : (s : Text) → starts_with_backslash s ≡ true → s ≡ backslash ∷ rest_of s
unfolding rest_of
backslash_parts [] h = absurd (cc)
backslash_parts (c ∷ s) h = ap (λ t. t ∷ s) (ground arith)

found_rest :
    (osc : Bool) (b : ℕ) (s payload : Text) (n : ℕ) (o : Option (Text × ℕ))
    → is_plain osc b ≡ true
    → ((p : Text) (m : ℕ) → o ≡ some (p, m) → StringFound osc s p m)
    → prepend b o ≡ some (payload, n)
    → StringFound osc (b ∷ s) payload n
found_rest osc b s payload n none h f e = absurd (cc)
found_rest osc b s payload n (some (p, m)) h f e =
    let (x, y) = pair_eq (b ∷ p) payload (suc m) n e in
    subst₂ (StringFound osc (b ∷ s)) (sym x) (sym y)
      (string_sequence_step osc b s p m h (f p m refl))

pub string_sequence_sound :
    (osc : Bool) (s payload : Text) (n : ℕ)
    → string_sequence osc s ≡ some (payload, n)
    → StringFound osc s payload n
unfolding string_sequence
string_sequence_sound osc [] payload n e = absurd (cc)
string_sequence_sound osc (b ∷ s) payload n e =
    by_test F (osc && b == bel) (some ([], 1)) _
      (λ t k.
        found_end osc (b ∷ s) payload (bel ∷ []) s n (inr (ground arith, refl))
          (ap (λ c. c ∷ s) (ground arith)) (pair_eq [] payload 1 n k))
      (λ t.
        by_test F (b == esc) (if starts_with_backslash s then some ([], 2) else none)
          (prepend b (string_sequence osc s))
          (λ u.
            by_test F (starts_with_backslash s) (some ([], 2)) none
              (λ v k.
                found_end osc (b ∷ s) payload (esc ∷ backslash ∷ []) (rest_of s) n (inl refl)
                  (ap₂ (λ (c : ℕ) (r : Text). c ∷ r) (ground arith) (backslash_parts s v))
                  (pair_eq [] payload 2 n k))
              (λ _ k. absurd (cc)))
          (λ u.
            found_rest osc b s payload n (string_sequence osc s) (ground arith)
              (λ p m. string_sequence_sound osc s p m)))
      e
  where
    F : Option (Text × ℕ) → Type 0
    F o = o ≡ some (payload, n) → StringFound osc (b ∷ s) payload n

pub string_sequence_complete :
    (osc : Bool) (payload ending rest : Text)
    → Passes (is_plain osc) payload
    → Ends osc ending
    → string_sequence osc (payload ++ (ending ++ rest))
      ≡ some (payload, length payload + length ending)
unfolding string_sequence
string_sequence_complete osc [] ending rest h (inl e) = rw e (ground arith)
string_sequence_complete osc [] ending rest h (inr (t, e)) = rw (e, t) (ground arith)
string_sequence_complete osc (b ∷ payload) ending rest h t =
    ground (arith, string_sequence_complete osc payload ending rest h.1 t)

pub span_parts : (p : ℕ → Bool) (s : Text) → s ≡ (span p s).0 ++ (span p s).1
unfolding span
span_parts p [] = refl
span_parts p (b ∷ s) = ground (arith, span_parts p s)

pub span-Passes : (p : ℕ → Bool) (s : Text) → Passes p (span p s).0
unfolding span
span-Passes p [] = tt
span-Passes p (b ∷ s) = ground (arith, span-Passes p s)

-- The text does not begin with a byte that passes.
abbrev pub Stops : (ℕ → Bool) → Text → Type 0
Stops p [] = Unit
Stops p (b ∷ s) = p b ≡ false

pub span-append : (p : ℕ → Bool) (l r : Text) → Passes p l → Stops p r → span p (l ++ r) ≡ (l, r)
unfolding span
span-append p [] [] h k = refl
span-append p [] (b ∷ r) h k = ground arith
span-append p (b ∷ l) r h k = ground (arith, span-append p l r h.1 k)

csi_end_sound :
    (l s body : Text)
    → csi_end l s ≡ some body
    → (f : ℕ) × (r : Text) × (is_final f ≡ true) × (body ≡ l ++ f ∷ []) × (s ≡ f ∷ r)
unfolding csi_end
csi_end_sound l [] body e = absurd (cc)
csi_end_sound l (f ∷ s) body e = (f, s, ground arith, ground arith, refl)

pub record ControlFound (s body : Text) : Type 0 where
  pub query : csi_query body ≡ true → ControlQuery body
  pub rest : Text
  pub parts : s ≡ body ++ rest

reassoc : (a b r : Text) (f : ℕ) → a ++ (b ++ f ∷ r) ≡ (a ++ b ++ f ∷ []) ++ r
reassoc a b r f = simp append_assoc

pub csi_body_sound : (s body : Text) → csi_body s ≡ some body → ControlFound s body
unfolding csi_body
csi_body_sound s body e =
    let (f, r, is_f, shape, tail) = csi_end_sound (ps ++ is) s₂ body e in
    record {
      query = λ q. record {
        parameters = ps;
        intermediates = is;
        final = f;
        in_parameters = span-Passes is_parameter s;
        in_intermediates = span-Passes is_intermediate s₁;
        in_final = is_f;
        asks = subst (λ b. csi_query b ≡ true) shape q;
        whole = shape;
      };
      rest = r;
      parts =
          span_parts is_parameter s
          ∙ ap (λ t. ps ++ t) (span_parts is_intermediate s₁ ∙ ap (λ t. is ++ t) tail)
          ∙ reassoc ps is r f
          ∙ ap (λ t. t ++ r) (sym shape);
    }
  where
    s₁ : Text
    s₁ = (span is_parameter s).1

    s₂ : Text
    s₂ = (span is_intermediate s₁).1

    ps : Text
    ps = (span is_parameter s).0

    is : Text
    is = (span is_intermediate s₁).0

intermediates-Stops :
    (is : Text) (f : ℕ) (r : Text)
    → Passes is_intermediate is
    → is_final f ≡ true
    → Stops is_parameter (is ++ f ∷ r)
intermediates-Stops [] f r h k = ground (arith, k)
intermediates-Stops (b ∷ is) f r h k = ground (arith, h.0)

final-Stops : (f : ℕ) → is_final f ≡ true → is_intermediate f ≡ false
final-Stops f k = ground (arith, k)

csi_body_run :
    (ps is : Text) (f : ℕ) (r : Text)
    → Passes is_parameter ps
    → Passes is_intermediate is
    → is_final f ≡ true
    → csi_body (ps ++ (is ++ f ∷ r)) ≡ some (ps ++ is ++ f ∷ [])
unfolding csi_body csi_end
csi_body_run ps is f r h k l =
    rw
      (
        span-append is_parameter ps (is ++ f ∷ r) h (intermediates-Stops is f r k l),
        span-append is_intermediate is (f ∷ r) k (final-Stops f l),
        l,
      )
      refl

pub csi_body_complete : (s rest : Text) → ControlQuery s → csi_body (s ++ rest) ≡ some s
csi_body_complete s rest q =
    ap (λ t. csi_body (t ++ rest)) q.whole
    ∙ ap csi_body (sym (reassoc q.parameters q.intermediates rest q.final))
    ∙ csi_body_run q.parameters q.intermediates q.final rest q.in_parameters q.in_intermediates
        q.in_final
    ∙ ap some (sym q.whole)
