-- ===== src/Stream/Gate/Origins.antt =====
-- The gate of internal/mirror/session_terminal.go when it opens.
use terminal_redeemer.Base.{
  ℕ, zero, suc, ◌+◌, ◌%◌, ◌^◌, ◌≡◌, refl, ap, subst, by_test, ◌∙◌, ◌≢◌, ◌⊎◌, inl, inr, true, false,
  not, ◌||◌, ◌==◌, [], ◌∷◌, Text, arith,
}
use terminal_redeemer.Stream.Gate.{
  SessionInputGate, flush_prefix, decode, Read, got, again, interrupted, closed, Drained, empty,
  busy, error, drain, Opening, opened, not_opened, open_next, finish_open, open_gate, is_empty,
}
use terminal_redeemer.Stream.Gate.Rounds.{drain_next, flush_prefix_next}
use terminal_redeemer.Stream.Gate.Marks.{Tagged, decode-Tagged, flush_prefix-Tagged}

-- What a successful opening leaves.
pub record Opened (g g' : SessionInputGate) : Type 0 where
  pub counted : g'.next ≡ (g.next + 1) % 2 ^ 64
  pub current : g'.generation ≡ g'.next
  pub real : g'.generation ≢ 0
  pub no_paste : g'.paste ≡ false
  pub no_prefix : g'.prefix ≡ []

open_next-Opened :
    (g : SessionInputGate)
    → g.paste ≡ false
    → g.prefix ≡ []
    → (open_next g).1 ≡ opened
    → Opened g (open_next g).0
unfolding open_next
open_next-Opened g p q =
    by_test (λ (x : SessionInputGate × Opening). x.1 ≡ opened → Opened g x.0)
      ((g.next + 1) % 2 ^ 64 == 0) _ _ (λ _ h. absurd (cc))
      (λ t _. record {
        counted = refl;
        current = refl;
        real = ground (arith, t);
        no_paste = p;
        no_prefix = q;
      })

finish_open-Opened :
    (now : ℕ) (g : SessionInputGate) (drained : Drained)
    → (finish_open now g drained).1 ≡ opened
    → Opened g (finish_open now g drained).0
unfolding finish_open
finish_open-Opened now g error h = absurd (cc)
finish_open-Opened now g busy h = absurd (cc)
finish_open-Opened now g empty h =
    by_test (λ (x : SessionInputGate × Opening). x.1 ≡ opened → Opened g x.0)
      (f.paste || not (is_empty f.prefix)) (f, not_opened) (open_next f) (λ _ k. absurd (cc))
      (λ t k.
        let o = open_next-Opened f (ground (arith, t)) (nothing f.prefix (ground (arith, t))) k in
        record {
          counted = o.counted ∙ ap (λ (n : ℕ). (n + 1) % 2 ^ 64) (flush_prefix_next now g);
          current = o.current;
          real = o.real;
          no_paste = o.no_paste;
          no_prefix = o.no_prefix;
        })
      h
  where
    f : SessionInputGate
    f = (flush_prefix now g).0

    nothing : (s : Text) → is_empty s ≡ true → s ≡ []
    nothing [] e = refl
    nothing (b ∷ s) e = cc

pub open_gate-Opened :
    (reads : ℕ → Read) (now : ℕ) (g : SessionInputGate)
    → (open_gate reads now g).1 ≡ opened
    → Opened g (open_gate reads now g).0
unfolding open_gate
open_gate-Opened reads now g h =
    let o = finish_open-Opened now (drain 16 reads g).0 (drain 16 reads g).1 h in
    record {
      counted = o.counted ∙ ap (λ (n : ℕ). (n + 1) % 2 ^ 64) (drain_next 16 reads g);
      current = o.current;
      real = o.real;
      no_paste = o.no_paste;
      no_prefix = o.no_prefix;
    }

drain-Tagged :
    (P : ℕ → Type 0) (n : ℕ) (reads : ℕ → Read) (g : SessionInputGate)
    → Tagged P g
    → Tagged P (drain n reads g).0
unfolding drain
drain-Tagged P zero reads g t = t
drain-Tagged P (suc n) reads g t = by_read (reads n) (drain-Tagged P n reads)
  where
    by_read :
        (r : Read)
        → ((h : SessionInputGate) → Tagged P h → Tagged P (drain n reads h).0)
        → Tagged P
            (elim r as (λ _. SessionInputGate × Drained) [
              | got bs ↦ drain n reads (decode g bs).gate
              | again ↦ (g, empty)
              | interrupted ↦ drain n reads g
              | Read.failed ↦ (g, error)
              | closed ↦ (g, error)
            ]).0
    by_read (got bs) ih = ih (decode g bs).gate (decode-Tagged P g bs t).0
    by_read again ih = t
    by_read interrupted ih = ih g t
    by_read Read.failed ih = t
    by_read closed ih = t

pub Tagged-mono :
    (P Q : ℕ → Type 0) (g : SessionInputGate) → ((k : ℕ) → P k → Q k) → Tagged P g → Tagged Q g
Tagged-mono P Q g f t = record {
  typed = f g.generation t.typed;
  pasted = λ e. f g.paste_generation (t.pasted e);
  held = λ e. f g.prefix_generation (t.held e);
}

-- What an opening that may fail keeps, and how far it counts.
abbrev pub Counted : (ℕ → Type 0) → ℕ → SessionInputGate → Type 0
Counted P n g =
    ((g.next ≡ n) × Tagged P g) ⊎ ((g.next ≡ (n + 1) % 2 ^ 64) × Tagged (λ k. P k ⊎ (k ≡ g.next)) g)

open_next-Counted :
    (P : ℕ → Type 0) (g : SessionInputGate) → Tagged P g → Counted P g.next (open_next g).0
unfolding open_next
open_next-Counted P g t =
    by_test (λ (x : SessionInputGate × Opening). Counted P g.next x.0) ((g.next + 1) % 2 ^ 64 == 0)
      _ _
      (λ e. inr (
        ground (arith, e),
        record { typed = inl t.typed; pasted = λ q. inl (t.pasted q); held = λ q. inl (t.held q) },
      ))
      (λ _. inr (
        refl,
        record { typed = inr refl; pasted = λ q. inl (t.pasted q); held = λ q. inl (t.held q) },
      ))

finish_open-Counted :
    (P : ℕ → Type 0) (now : ℕ) (g : SessionInputGate) (drained : Drained)
    → Tagged P g
    → Counted P g.next (finish_open now g drained).0
unfolding finish_open
finish_open-Counted P now g error t = inl (refl, t)
finish_open-Counted P now g busy t =
    inl (flush_prefix_next now g, (flush_prefix-Tagged P now g t).0)
finish_open-Counted P now g empty t =
    by_test (λ (x : SessionInputGate × Opening). Counted P g.next x.0)
      (f.paste || not (is_empty f.prefix)) (f, not_opened) (open_next f) (λ _. inl (e, tf))
      (λ _. subst (λ n. Counted P n (open_next f).0) e (open_next-Counted P f tf))
  where
    f : SessionInputGate
    f = (flush_prefix now g).0

    tf : Tagged P f
    tf = (flush_prefix-Tagged P now g t).0

    e : f.next ≡ g.next
    e = flush_prefix_next now g

pub open_gate-Counted :
    (P : ℕ → Type 0) (reads : ℕ → Read) (now : ℕ) (g : SessionInputGate)
    → Tagged P g
    → Counted P g.next (open_gate reads now g).0
unfolding open_gate
open_gate-Counted P reads now g t =
    subst (λ n. Counted P n (finish_open now d.0 d.1).0) (drain_next 16 reads g)
      (finish_open-Counted P now d.0 d.1 (drain-Tagged P 16 reads g t))
  where
    d : SessionInputGate × Drained
    d = drain 16 reads g
