-- ===== src/Stream/Gate/Marks.antt =====
-- The marks that the gate of internal/mirror/session_terminal.go puts on the input.
use terminal_redeemer.Base.{
  ℕ, ◌-◌, ◌≡◌, refl, sym, by_test, ◌∙◌, ◌≢◌, Bool, true, false, ◌||◌, List, [], ◌∷◌, Text, All, ltb,
  if◌then◌else◌,
}
use terminal_redeemer.Stream.Gate.{
  SessionInput, SessionInputGate, prefix_timeout, flush_prefix, emit, is_of, Decoding, turn_paste,
  shift, settle, push, decode_byte, decode_from, decode, is_empty,
}
use terminal_redeemer.Stream.Gate.Rounds.{settle-keeps}

pub record Tagged (P : ℕ → Type 0) (g : SessionInputGate) : Type 0 where
  pub typed : P g.generation
  pub pasted : g.paste ≡ true → P g.paste_generation
  pub held : g.prefix ≢ [] → P g.prefix_generation

abbrev pub AllOf : (ℕ → Type 0) → List SessionInput → Type 0
AllOf P = All (λ i. P i.generation)

pub emit-AllOf :
    (P : ℕ → Type 0) (is : List SessionInput) (s : Text) (epoch : ℕ) (paste : Bool)
    → P epoch
    → AllOf P is
    → AllOf P (emit is s epoch paste)
unfolding emit
emit-AllOf P [] s epoch paste p h = (p, tt)
emit-AllOf P (i ∷ []) s epoch paste p h =
    by_test (AllOf P) (is_of epoch paste i) _ _ (λ _. (h.0, tt)) (λ _. (h.0, (p, tt)))
emit-AllOf P (i ∷ j ∷ is) s epoch paste p h = (h.0, emit-AllOf P (j ∷ is) s epoch paste p h.1)

-- Of a decoding: what is held and what was passed on.
abbrev pub Marked : (ℕ → Type 0) → Decoding → Type 0
Marked P d = Tagged P d.gate × AllOf P d.items

pub turn_paste-Marked :
    (P : ℕ → Type 0) (d : Decoding) → d.gate.prefix ≢ [] → Marked P d → Marked P (turn_paste d)
unfolding turn_paste
turn_paste-Marked P d n (t, h) = (
  record {
    typed = t.typed;
    pasted = λ e.
        by_test P d.gate.paste d.gate.paste_generation d.gate.prefix_generation (λ q. t.pasted q)
          (λ _. t.held n);
    held = λ e. absurd (e refl);
  },
  emit-AllOf P d.items d.gate.prefix d.gate.prefix_generation true (t.held n) h,
)

pub shift-Marked :
    (P : ℕ → Type 0) (b : ℕ) (rest : Text) (d : Decoding)
    → d.gate.prefix ≢ []
    → Marked P d
    → Marked P (shift b rest d)
unfolding shift
shift-Marked P b rest d n (t, h) = (
  record { typed = t.typed; pasted = t.pasted; held = λ _. t.held n },
  emit-AllOf P d.items (b ∷ []) d.gate.prefix_generation d.gate.paste (t.held n) h,
)

pub settle-Marked : (P : ℕ → Type 0) (n : ℕ) (d : Decoding) → Marked P d → Marked P (settle n d)
settle-Marked P n d =
    settle-keeps (Marked P) (turn_paste-Marked P)
      (λ b r d e. shift-Marked P b r d (λ z. clash b r (sym e ∙ z))) n d
  where
    clash : (b : ℕ) (r : Text) → b ∷ r ≢ []
    clash b r z = cc

pub push-Tagged :
    (P : ℕ → Type 0) (now b : ℕ) (g : SessionInputGate) → Tagged P g → Tagged P (push now b g)
unfolding push
push-Tagged P now b g t = record {
  typed = t.typed;
  pasted = t.pasted;
  held = λ _. by_prefix g.prefix t.held;
}
  where
    epoch : P (if g.paste then g.paste_generation else g.generation)
    epoch = by_test P g.paste _ _ (λ e. t.pasted e) (λ _. t.typed)

    by_prefix :
        (s : Text)
        → (s ≢ [] → P g.prefix_generation)
        → P (
            if is_empty s
            then (if g.paste then g.paste_generation else g.generation)
            else g.prefix_generation)
    by_prefix [] f = epoch
    by_prefix (c ∷ s) f = f (λ z. cc)

pub decode_byte-Marked :
    (P : ℕ → Type 0) (d : Decoding) (b : ℕ × ℕ) → Marked P d → Marked P (decode_byte d b)
unfolding decode_byte
decode_byte-Marked P d (now, b) (t, h) =
    settle-Marked P _ (record d { gate = push now b d.gate }) (push-Tagged P now b d.gate t, h)

pub decode_from-Marked :
    (P : ℕ → Type 0) (d : Decoding) (bs : List (ℕ × ℕ)) → Marked P d → Marked P (decode_from d bs)
unfolding decode_from
decode_from-Marked P d [] m = m
decode_from-Marked P d (b ∷ bs) m =
    decode_from-Marked P (decode_byte d b) bs (decode_byte-Marked P d b m)

pub decode-Tagged :
    (P : ℕ → Type 0) (g : SessionInputGate) (bs : List (ℕ × ℕ))
    → Tagged P g
    → Tagged P (decode g bs).gate × AllOf P (decode g bs).items
unfolding decode
decode-Tagged P g bs t = decode_from-Marked P (record { gate = g; items = [] }) bs (t, tt)

pub flush_prefix-Tagged :
    (P : ℕ → Type 0) (now : ℕ) (g : SessionInputGate)
    → Tagged P g
    → Tagged P (flush_prefix now g).0 × AllOf P (flush_prefix now g).1
unfolding flush_prefix
flush_prefix-Tagged P now g t =
    by_test (λ (x : SessionInputGate × List SessionInput). Tagged P x.0 × AllOf P x.1)
      (is_empty g.prefix || ltb (now - g.prefix_at) prefix_timeout) _ _ (λ _. (t, tt))
      (λ e. (
        record { typed = t.typed; pasted = t.pasted; held = λ z. absurd (z refl) },
        (t.held (filled g.prefix e), tt),
      ))
  where
    filled : (s : Text) → (is_empty s || ltb (now - g.prefix_at) prefix_timeout) ≡ false → s ≢ []
    filled [] e = cc
    filled (b ∷ s) e = λ z. cc
