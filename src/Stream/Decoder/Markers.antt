-- ===== src/Stream/Decoder/Markers.antt =====
-- The shape of the lifecycle markers of internal/mirror/session_attach.go.
use terminal_redeemer.Base.{
  ℕ, ◌≤◌, ◌<◌, ◌≡◌, refl, sym, ap, subst, ◌∙◌, ◌≢◌, Bool, true, false, not, ◌||◌, ◌==◌, List, [],
  ◌∷◌, ◌++◌, some, Text, All, any, same, length, length-append, arith, by_test,
}
use mathlib.Core.List.{append_assoc}
use terminal_redeemer.Recovery.Request.{hex_token, is_lower_hex}
use terminal_redeemer.Stream.Search.{prepend_part}
use terminal_redeemer.Stream.Decoder.{
  marker_end, marker_prefix, marker_events, attachment_marker, cut_byte, drop, marker_limit,
}

-- The byte is not in the text.
abbrev pub Lacks : ℕ → Text → Type 0
Lacks c s = any (λ b. b == c) s ≡ false

-- No valid marker begins the text.
abbrev pub Plain : Text → Type 0
Plain t =
    (token event rest : Text)
    → attachment_marker token event ≢ []
    → t ≢ attachment_marker token event ++ rest

pub cut_byte-append : (c : ℕ) (l r : Text) → Lacks c l → cut_byte c (l ++ c ∷ r) ≡ some (l, r)
unfolding cut_byte any
cut_byte-append c [] r h = ground arith
cut_byte-append c (b ∷ l) r h =
    by_test (λ o. o ≡ some (b ∷ l, r)) (b == c) _ _ (λ t. absurd (ground (arith, t, h)))
      (λ f. ap (prepend_part b) (cut_byte-append c l r (ground (arith, f, h))))

Lacks-append : (c : ℕ) (l r : Text) → Lacks c l → Lacks c r → Lacks c (l ++ r)
unfolding any
Lacks-append c [] r h k = k
Lacks-append c (b ∷ l) r h k = ground (arith, Lacks-append c l r)

eq_of : (b c : ℕ) → (b == c) ≡ true → b ≡ c
eq_of b c e = ground (arith, e)

not_hex : (b c : ℕ) → is_lower_hex c ≡ false → is_lower_hex b ≡ true → (b == c) ≡ false
not_hex b c n w = by_eq (b == c) refl
  where
    by_eq : (x : Bool) → (b == c) ≡ x → x ≡ false
    by_eq false e = refl
    by_eq true e = absurd (let q = ap is_lower_hex (eq_of b c e) in cc)

hex-Lacks :
    (c : ℕ) (t : Text)
    → is_lower_hex c ≡ false
    → any (λ b. not (is_lower_hex b)) t ≡ false
    → Lacks c t
unfolding any
hex-Lacks c [] n h = refl
hex-Lacks c (b ∷ t) n h = ground (arith, hex-Lacks c t n, not_hex b c n)

-- What is short and has no end of a marker in it.
abbrev Short : Text → Type 0
Short e = Lacks marker_end e × (length e ≤ 12)

events-Short : All Short marker_events
unfolding any
events-Short = (
  (refl, omega arith),
  (
    (refl, omega arith),
    (
      (refl, omega arith),
      (
        (refl, omega arith),
        (
          (refl, omega arith),
          (
            (refl, omega arith),
            ((refl, omega arith), ((refl, omega arith), ((refl, omega arith), tt))),
          ),
        ),
      ),
    ),
  ),
)

same_of : (e x : Text) → same e x ≡ true → e ≡ x
same_of e x t = ground (arith, t)

Short-any : (e : Text) (xs : List Text) → All Short xs → any (same e) xs ≡ true → Short e
unfolding any
Short-any e [] h = λ k. absurd (cc)
Short-any e (x ∷ xs) h = by_head (same e x) refl (λ k. Short-any e xs h.1 k)
  where
    by_head :
        (b : Bool)
        → same e x ≡ b
        → (any (same e) xs ≡ true → Short e)
        → (b || any (same e) xs) ≡ true
        → Short e
    by_head true t f k = subst Short (sym (same_of e x t)) h.0
    by_head false t f k = f k

-- A valid marker and what the decoder reads of it.
pub record Reads (token event : Text) : Type 0 where
  pub body : Text
  pub whole : attachment_marker token event ≡ body ++ marker_end ∷ []
  pub short : length body < marker_limit
  pub ends : Lacks marker_end body
  pub parts : cut_byte b':' (drop (length marker_prefix) body) ≡ some (token, event)

abbrev body_of : Text → Text → Text
body_of token event = marker_prefix ++ (token ++ (b':' ∷ event))

pub marker_whole :
    (token event : Text)
    → attachment_marker token event ≢ []
    → (hex_token token ≡ true)
      × (any (same event) marker_events ≡ true)
      × (attachment_marker token event
          ≡ marker_prefix ++ (token ++ (b':' ∷ (event ++ marker_end ∷ []))))
unfolding attachment_marker
marker_whole token event =
    by_test F (not (hex_token token)) [] _ (λ _ n. absurd (n refl))
      (λ h.
        by_test F (any (same event) marker_events) _ [] (λ k _. (ground (arith, h), k, refl))
          (λ _ n. absurd (n refl)))
  where
    F : Text → Type 0
    F x =
        x ≢ []
        → (hex_token token ≡ true)
          × (any (same event) marker_events ≡ true)
          × (x ≡ marker_prefix ++ (token ++ (b':' ∷ (event ++ marker_end ∷ []))))

prefix_parts : (t : Text) → drop (length marker_prefix) (marker_prefix ++ t) ≡ t
unfolding drop
prefix_parts t = refl

prefix-Lacks : Lacks marker_end marker_prefix
unfolding any
prefix-Lacks = refl

digits_of : (t : Text) → hex_token t ≡ true → any (λ b. not (is_lower_hex b)) t ≡ false
unfolding hex_token
digits_of t h = ground (arith, h)

size_of : (t : Text) → hex_token t ≡ true → length t ≡ 32
unfolding hex_token
size_of t h = ground (arith, h)

no_end : is_lower_hex marker_end ≡ false
unfolding is_lower_hex
no_end = refl

no_colon : is_lower_hex b':' ≡ false
unfolding is_lower_hex
no_colon = refl

colon-Lacks : (event : Text) → Lacks marker_end event → Lacks marker_end (b':' ∷ event)
unfolding any
colon-Lacks event h = h

body-whole :
    (token event : Text)
    → marker_prefix ++ (token ++ (b':' ∷ (event ++ marker_end ∷ [])))
      ≡ body_of token event ++ marker_end ∷ []
body-whole token event = sym (
    append_assoc marker_prefix (token ++ (b':' ∷ event)) (marker_end ∷ [])
    ∙ ap (λ t. marker_prefix ++ t) (append_assoc token (b':' ∷ event) (marker_end ∷ [])))

pub marker-Reads : (token event : Text) → attachment_marker token event ≢ [] → Reads token event
marker-Reads token event n =
    let w = marker_whole token event n in
    let e = Short-any event marker_events events-Short w.1 in
    let ds = digits_of token w.0 in
    record {
      body = body_of token event;
      whole = w.2 ∙ body-whole token event;
      short = omega (
        arith,
        length-append marker_prefix (token ++ (b':' ∷ event)),
        length-append token (b':' ∷ event),
        size_of token w.0,
        e.1,
      );
      ends = Lacks-append marker_end marker_prefix (token ++ (b':' ∷ event)) prefix-Lacks (
          Lacks-append marker_end token (b':' ∷ event) (hex-Lacks marker_end token no_end ds)
            (colon-Lacks event e.0));
      parts =
          ap (cut_byte b':') (prefix_parts (token ++ (b':' ∷ event)))
          ∙ cut_byte-append b':' token event (hex-Lacks b':' token no_colon ds);
    }

-- Where a marker begins, the first end is its own.
pub marker-cut :
    (token event rest s : Text) (m : Reads token event)
    → s ≡ attachment_marker token event ++ rest
    → cut_byte marker_end s ≡ some (m.body, rest)
marker-cut token event rest s m e =
    ap (cut_byte marker_end)
      (e ∙ ap (λ t. t ++ rest) m.whole ∙ append_assoc m.body (marker_end ∷ []) rest)
    ∙ cut_byte-append marker_end m.body rest m.ends
