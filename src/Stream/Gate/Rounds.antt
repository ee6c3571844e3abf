-- ===== src/Stream/Gate/Rounds.antt =====
-- The inner loop of `decode` of internal/mirror/session_terminal.go by its rounds, and the counters of
-- the gate.
use terminal_redeemer.Base.{
  ℕ, zero, suc, ◌+◌, ◌-◌, ◌%◌, ◌^◌, ◌≡◌, refl, ap, by_test, ◌∙◌, ◌≢◌, not, ◌||◌, ◌==◌, List, [],
  ◌∷◌, Option, none, some, Text, ltb,
}
use terminal_redeemer.Stream.Gate.{
  SessionInput, SessionInputGate, prefix_timeout, flush_prefix, Decoding, missing, turn_paste,
  shift, settle, push, decode_byte, decode_from, Move, move, stay, turn, give, decode, Read, got,
  again, interrupted, closed, Drained, empty, busy, error, drain, Opening, not_opened, open_next,
  finish_open, open_gate, is_empty,
}

move-turn : (s : Text) (m : Option Text) → move s m ≡ turn → s ≢ []
unfolding move
move-turn [] m h = cc
move-turn (b ∷ s) m h = cc

move-give : (s : Text) (m : Option Text) (b : ℕ) (r : Text) → move s m ≡ give b r → s ≡ b ∷ r
unfolding move
move-give [] m b r h = cc
move-give (c ∷ s) (some []) b r h = cc
move-give (c ∷ s) (some (_ ∷ _)) b r h = cc
move-give (c ∷ s) none b r h = cc

-- The rule of the loop: what a turn and a step to the next byte keep.
module _ (Q : Decoding → Type 0)
    (turns : (d : Decoding) → d.gate.prefix ≢ [] → Q d → Q (turn_paste d))
    (shifts : (b : ℕ) (r : Text) (d : Decoding)
      → d.gate.prefix ≡ b ∷ r
      → Q d
      → Q (shift b r d)) where
  pub settle-keeps : (n : ℕ) (d : Decoding) → Q d → Q (settle n d)
  unfolding settle
  settle-keeps zero d q = q
  settle-keeps (suc n) d q =
      by_move (move d.gate.prefix (missing d.gate)) (λ h. move-turn _ _ h)
        (λ b r h. move-give _ _ b r h) (settle-keeps n)
    where
      by_move :
          (m : Move)
          → (m ≡ turn → d.gate.prefix ≢ [])
          → ((b : ℕ) (r : Text) → m ≡ give b r → d.gate.prefix ≡ b ∷ r)
          → ((d' : Decoding) → Q d' → Q (settle n d'))
          → Q (elim m as (λ _. Decoding) [
            | stay ↦ d
            | turn ↦ turn_paste d
            | give b rest ↦ settle n (shift b rest d)
          ])
      by_move stay f g ih = q
      by_move turn f g ih = turns d (f refl) q
      by_move (give b r) f g ih = ih (shift b r d) (shifts b r d (g b r refl) q)

-- What only `open` and `close` change.
abbrev counts : SessionInputGate → ℕ × ℕ
counts g = (g.next, g.generation)

counts-decode_from :
    (k : ℕ × ℕ) (d : Decoding) (bs : List (ℕ × ℕ))
    → counts d.gate ≡ k
    → counts (decode_from d bs).gate ≡ k
unfolding decode_from decode_byte push turn_paste shift
counts-decode_from k d [] e = e
counts-decode_from k d ((now, b) ∷ bs) e = counts-decode_from k (decode_byte d (now, b)) bs (
    settle-keeps (λ d. counts d.gate ≡ k) (λ d _ q. q) (λ b r d _ q. q) _
      (record d { gate = push now b d.gate }) e)

counts-decode : (g : SessionInputGate) (bs : List (ℕ × ℕ)) → counts (decode g bs).gate ≡ counts g
unfolding decode
counts-decode g bs = counts-decode_from (counts g) (record { gate = g; items = [] }) bs refl

counts-drain :
    (n : ℕ) (reads : ℕ → Read) (g : SessionInputGate) → counts (drain n reads g).0 ≡ counts g
unfolding drain
counts-drain zero reads g = refl
counts-drain (suc n) reads g = by_read (reads n) (counts-drain n reads)
  where
    by_read :
        (r : Read)
        → ((h : SessionInputGate) → counts (drain n reads h).0 ≡ counts h)
        → counts (
            (elim r as (λ _. SessionInputGate × Drained) [
              | got bs ↦ drain n reads (decode g bs).gate
              | again ↦ (g, empty)
              | interrupted ↦ drain n reads g
              | Read.failed ↦ (g, error)
              | closed ↦ (g, error)
            ]).0)
          ≡ counts g
    by_read (got bs) ih = ih (decode g bs).gate ∙ counts-decode g bs
    by_read again ih = refl
    by_read interrupted ih = ih g
    by_read Read.failed ih = refl
    by_read closed ih = refl

counts-flush_prefix : (now : ℕ) (g : SessionInputGate) → counts (flush_prefix now g).0 ≡ counts g
unfolding flush_prefix
counts-flush_prefix now g =
    by_test (λ (x : SessionInputGate × List SessionInput). counts x.0 ≡ counts g)
      (is_empty g.prefix || ltb (now - g.prefix_at) prefix_timeout) _ _ (λ _. refl) (λ _. refl)

pub decode_next : (g : SessionInputGate) (bs : List (ℕ × ℕ)) → (decode g bs).gate.next ≡ g.next
decode_next g bs = ap (λ k. k.0) (counts-decode g bs)

pub drain_next :
    (n : ℕ) (reads : ℕ → Read) (g : SessionInputGate) → (drain n reads g).0.next ≡ g.next
drain_next n reads g = ap (λ k. k.0) (counts-drain n reads g)

pub flush_prefix_next : (now : ℕ) (g : SessionInputGate) → (flush_prefix now g).0.next ≡ g.next
flush_prefix_next now g = ap (λ k. k.0) (counts-flush_prefix now g)

pub decode_generation :
    (g : SessionInputGate) (bs : List (ℕ × ℕ)) → (decode g bs).gate.generation ≡ g.generation
decode_generation g bs = ap (λ k. k.1) (counts-decode g bs)

pub flush_prefix_generation :
    (now : ℕ) (g : SessionInputGate) → (flush_prefix now g).0.generation ≡ g.generation
flush_prefix_generation now g = ap (λ k. k.1) (counts-flush_prefix now g)

finish_open_unopened :
    (now : ℕ) (g : SessionInputGate) (d : Drained)
    → (finish_open now g d).1 ≡ not_opened
    → (finish_open now g d).0.generation ≡ g.generation
unfolding finish_open open_next
finish_open_unopened now g error h = absurd (cc)
finish_open_unopened now g busy h = flush_prefix_generation now g
finish_open_unopened now g empty h =
    by_test (λ (x : SessionInputGate × Opening). x.1 ≡ not_opened → x.0.generation ≡ g.generation)
      (f.paste || not (is_empty f.prefix)) (f, not_opened) (open_next f)
      (λ _ _. flush_prefix_generation now g)
      (λ _ k.
        by_test
          (λ (x : SessionInputGate × Opening). x.1 ≡ not_opened → x.0.generation ≡ g.generation)
          ((f.next + 1) % 2 ^ 64 == 0) _ _ (λ _ z. absurd (cc)) (λ _ z. absurd (cc)) k)
      h
  where
    f : SessionInputGate
    f = (flush_prefix now g).0

-- A gate that does not open stays as open as it was.
pub open_gate_unopened :
    (reads : ℕ → Read) (now : ℕ) (g : SessionInputGate)
    → (open_gate reads now g).1 ≡ not_opened
    → (open_gate reads now g).0.generation ≡ g.generation
unfolding open_gate
open_gate_unopened reads now g h =
    finish_open_unopened now (drain 16 reads g).0 (drain 16 reads g).1 h
    ∙ ap (λ k. k.1) (counts-drain 16 reads g)
