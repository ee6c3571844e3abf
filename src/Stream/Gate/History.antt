-- ===== src/Stream/Gate/History.antt =====
-- Histories of the input gate of internal/mirror/session_terminal.go: what is typed before an opening,
-- and what is typed after it.
use terminal_redeemer.Base.{
  ℕ, ◌+◌, ◌^◌, ◌≤◌, ◌<◌, ◌≡◌, refl, sym, ap, subst, by_test, ◌∙◌, ◌⊎◌, inl, inr, Bool, true, false,
  List, [], ◌∷◌, ◌++◌, Text, length, arith,
}
use mathlib.Core.List.{append_assoc, append-nil}
use terminal_redeemer.Stream.Gate.{
  SessionInput, SessionInputGate, flush_prefix, close, emit, is_of, Decoding, turn_paste, shift,
  push, decode_byte, decode_from, decode, Read, opened, open_gate,
}
use terminal_redeemer.Stream.Gate.Rounds.{settle-keeps, decode_next, flush_prefix_next}
use terminal_redeemer.Stream.Gate.Origins.{
  Counted, Tagged-mono, open_gate-Counted, Opened, open_gate-Opened,
}
use terminal_redeemer.Stream.Gate.Marks.{Tagged, AllOf, decode-Tagged, flush_prefix-Tagged}

-- The text of a run of items.
abbrev pub text_of : List SessionInput → Text
text_of [] = []
text_of (i ∷ is) = i.bytes ++ text_of is

abbrev pub typed_text : List (ℕ × ℕ) → Text
typed_text [] = []
typed_text ((now, b) ∷ bs) = b ∷ typed_text bs

emit_text :
    (is : List SessionInput) (s : Text) (epoch : ℕ) (paste : Bool)
    → text_of (emit is s epoch paste) ≡ text_of is ++ s
unfolding emit
emit_text [] s epoch paste = append-nil s
emit_text (i ∷ []) s epoch paste =
    by_test (λ is. text_of is ≡ text_of (i ∷ []) ++ s) (is_of epoch paste i) _ _
      (λ _. simp (append-nil)) (λ _. simp (append-nil))
emit_text (i ∷ j ∷ is) s epoch paste =
    ap (λ t. i.bytes ++ t) (emit_text (j ∷ is) s epoch paste) ∙ sym (append_assoc i.bytes _ s)

-- What was passed on, and what is held.
abbrev whole : Decoding → Text
whole d = text_of d.items ++ d.gate.prefix

turn_paste_whole : (d : Decoding) → whole (turn_paste d) ≡ whole d
unfolding turn_paste
turn_paste_whole d = append-nil _ ∙ emit_text d.items d.gate.prefix d.gate.prefix_generation true

shift_whole :
    (b : ℕ) (r : Text) (d : Decoding) → d.gate.prefix ≡ b ∷ r → whole (shift b r d) ≡ whole d
unfolding shift
shift_whole b r d e =
    ap (λ t. t ++ r) (emit_text d.items (b ∷ []) d.gate.prefix_generation d.gate.paste)
    ∙ append_assoc (text_of d.items) (b ∷ []) r
    ∙ ap (λ t. text_of d.items ++ t) (sym e)

decode_byte_whole : (d : Decoding) (now b : ℕ) → whole (decode_byte d (now, b)) ≡ whole d ++ b ∷ []
unfolding decode_byte push
decode_byte_whole d now b =
    settle-keeps (λ x. whole x ≡ whole d ++ b ∷ []) (λ x _ q. turn_paste_whole x ∙ q)
      (λ c r x e q. shift_whole c r x e ∙ q) _ (record d { gate = push now b d.gate })
      (sym (append_assoc (text_of d.items) d.gate.prefix (b ∷ [])))

decode_from_whole :
    (d : Decoding) (bs : List (ℕ × ℕ)) → whole (decode_from d bs) ≡ whole d ++ typed_text bs
unfolding decode_from
decode_from_whole d [] = sym (append-nil (whole d))
decode_from_whole d ((now, b) ∷ bs) =
    decode_from_whole (decode_byte d (now, b)) bs
    ∙ ap (λ t. t ++ typed_text bs) (decode_byte_whole d now b)
    ∙ append_assoc (whole d) (b ∷ []) (typed_text bs)

-- No byte is lost, changed or moved: what is passed on and what is held is what was held and what was
-- typed.
pub decode_text :
    (g : SessionInputGate) (bs : List (ℕ × ℕ))
    → text_of (decode g bs).items ++ (decode g bs).gate.prefix ≡ g.prefix ++ typed_text bs
unfolding decode
decode_text g bs = decode_from_whole (record { gate = g; items = [] }) bs

-- What happens to the gate.
pub data Input : Type 0 where
  types : List (ℕ × ℕ) → Input
  waits : ℕ → Input

pub data Use : Type 0 where
  input : Input → Use
  closes : Use
  opens : (ℕ → Read) → ℕ → Use

unfoldable pub pass_input : SessionInputGate → Input → SessionInputGate × List SessionInput
pass_input g (types bs) = ((decode g bs).gate, (decode g bs).items)
pass_input g (waits now) = flush_prefix now g

unfoldable pub use_gate : SessionInputGate → Use → SessionInputGate × List SessionInput
unfolding pass_input
use_gate g (input i) = pass_input g i
use_gate g closes = (close g, [])
use_gate g (opens reads now) = ((open_gate reads now g).0, [])

unfoldable pub inputs : SessionInputGate → List Input → SessionInputGate × List SessionInput
unfolding pass_input
inputs g [] = (g, [])
inputs g (i ∷ is) =
    let next = pass_input g i in let rest = inputs next.0 is in (rest.0, next.1 ++ rest.1)

unfoldable pub uses : SessionInputGate → List Use → SessionInputGate × List SessionInput
unfolding use_gate
uses g [] = (g, [])
uses g (u ∷ us) = let next = use_gate g u in let rest = uses next.0 us in (rest.0, next.1 ++ rest.1)

abbrev pub new_gate : SessionInputGate
new_gate = record {
  generation = 0;
  next = 0;
  paste = false;
  paste_generation = 0;
  prefix = [];
  prefix_generation = 0;
  prefix_at = 0;
}

AllOf-append :
    (P : ℕ → Type 0) (is js : List SessionInput) → AllOf P is → AllOf P js → AllOf P (is ++ js)
AllOf-append P [] js h k = k
AllOf-append P (i ∷ is) js h k = (h.0, AllOf-append P is js h.1 k)

pass_input-Tagged :
    (P : ℕ → Type 0) (g : SessionInputGate) (i : Input)
    → Tagged P g
    → Tagged P (pass_input g i).0 × AllOf P (pass_input g i).1
unfolding pass_input
pass_input-Tagged P g (types bs) t = decode-Tagged P g bs t
pass_input-Tagged P g (waits now) t = flush_prefix-Tagged P now g t

inputs-AllOf :
    (P : ℕ → Type 0) (g : SessionInputGate) (is : List Input) → Tagged P g → AllOf P (inputs g is).1
unfolding inputs
inputs-AllOf P g [] t = tt
inputs-AllOf P g (i ∷ is) t =
    let (t', h) = pass_input-Tagged P g i t in
    AllOf-append P (pass_input g i).1 _ h (inputs-AllOf P (pass_input g i).0 is t')

abbrev Upto : ℕ → ℕ → Type 0
Upto n k = k ≤ n

AllOf-mono :
    (P Q : ℕ → Type 0) (is : List SessionInput) → ((k : ℕ) → P k → Q k) → AllOf P is → AllOf Q is
AllOf-mono P Q [] f h = tt
AllOf-mono P Q (i ∷ is) f h = (f i.generation h.0, AllOf-mono P Q is f h.1)

-- The gate's generations are those that it has counted.
abbrev Sound : SessionInputGate → Type 0
Sound g = Tagged (Upto g.next) g

Counted-Sound :
    (g g' : SessionInputGate)
    → g.next + 1 < 2 ^ 64
    → Counted (Upto g.next) g.next g'
    → Sound g' × (g.next ≤ g'.next) × (g'.next ≤ g.next + 1)
Counted-Sound g g' b (inl (e, t)) =
    (Tagged-mono _ _ g' (λ k q. omega (arith, e, q)) t, omega (arith, e), omega (arith, e))
Counted-Sound g g' b (inr (e, t)) =
    let n : g'.next ≡ g.next + 1 = omega (arith, e, b) in
    (Tagged-mono _ _ g' (λ k. below k n) t, omega (arith, n), omega (arith, n))
  where
    below : (k : ℕ) → g'.next ≡ g.next + 1 → (k ≤ g.next) ⊎ (k ≡ g'.next) → k ≤ g'.next
    below k n (inl q) = omega (arith, n, q)
    below k n (inr q) = omega (arith, q)

-- A use without overflow of the counter.
use_gate-Sound :
    (g : SessionInputGate) (u : Use)
    → g.next + 1 < 2 ^ 64
    → Sound g
    → Sound (use_gate g u).0
      × AllOf (Upto (use_gate g u).0.next) (use_gate g u).1
      × (g.next ≤ (use_gate g u).0.next)
      × ((use_gate g u).0.next ≤ g.next + 1)
unfolding use_gate pass_input close
use_gate-Sound g (input (types bs)) b s =
    let (t, h) = decode-Tagged (Upto g.next) g bs s in
    let e = decode_next g bs in
    (
      subst (λ n. Tagged (Upto n) (decode g bs).gate) (sym e) t,
      subst (λ n. AllOf (Upto n) (decode g bs).items) (sym e) h,
      omega (arith, e),
      omega (arith, e),
    )
use_gate-Sound g (input (waits now)) b s =
    let (t, h) = flush_prefix-Tagged (Upto g.next) now g s in
    let e = flush_prefix_next now g in
    (
      subst (λ n. Tagged (Upto n) (flush_prefix now g).0) (sym e) t,
      subst (λ n. AllOf (Upto n) (flush_prefix now g).1) (sym e) h,
      omega (arith, e),
      omega (arith, e),
    )
use_gate-Sound g closes b s =
    (record { typed = omega arith; pasted = s.pasted; held = s.held }, tt, omega arith, omega arith)
use_gate-Sound g (opens reads now) b s =
    let (t, low, high) =
      Counted-Sound g (open_gate reads now g).0 b (open_gate-Counted (Upto g.next) reads now g s) in
    (t, tt, low, high)

uses-Sound :
    (g : SessionInputGate) (us : List Use)
    → g.next + length us < 2 ^ 64
    → Sound g
    → Sound (uses g us).0
      × AllOf (Upto (uses g us).0.next) (uses g us).1
      × (g.next ≤ (uses g us).0.next)
      × ((uses g us).0.next ≤ g.next + length us)
unfolding uses
uses-Sound g [] b s = (s, tt, omega arith, omega arith)
uses-Sound g (u ∷ us) b s =
    let (t, h, low, high) = use_gate-Sound g u (omega (arith, b)) s in
    let (t', h', low', high') = uses-Sound (use_gate g u).0 us (omega (arith, b, high)) t in
    (
      t',
      AllOf-append _ (use_gate g u).1 _
          (AllOf-mono _ _ (use_gate g u).1 (λ k q. omega (arith, q, low')) h) h',
      omega (arith, low, low'),
      omega (arith, high, high'),
    )

Opened-Tagged : (g g' : SessionInputGate) → Opened g g' → Tagged (λ k. k ≡ g'.generation) g'
Opened-Tagged g g' o = record {
  typed = refl;
  pasted = λ e. absurd (clash g'.paste e o.no_paste);
  held = λ n. absurd (n o.no_prefix);
}
  where
    clash : (b : Bool) → b ≡ true → b ≡ false → ⊥
    clash b t f = cc

-- Whatever the gate went through before it opens, short of 2^64 uses, all that it had passed on bears
-- the mark of an earlier attachment, or of none; and all that it passes on from then on, until it is
-- closed or opened again, bears the mark of the new one.
pub open_gate_separates :
    (us : List Use) (reads : ℕ → Read) (now : ℕ) (is : List Input)
    → length us + 1 < 2 ^ 64
    → (open_gate reads now (uses new_gate us).0).1 ≡ opened
    → AllOf (λ k. k < (open_gate reads now (uses new_gate us).0).0.generation) (uses new_gate us).1
      × AllOf
          (λ k. k ≡ (open_gate reads now (uses new_gate us).0).0.generation)
          (inputs (open_gate reads now (uses new_gate us).0).0 is).1
open_gate_separates us reads now is b h =
    let o = open_gate-Opened reads now g h in
    let (t, a, low, high) = uses-Sound new_gate us (omega (arith, b)) start in
    (
      AllOf-mono _ _ (uses new_gate us).1
          (λ k q. newer k (open_gate reads now g).0 o q (omega (arith, high, b))) a,
      inputs-AllOf _ (open_gate reads now g).0 is (Opened-Tagged g (open_gate reads now g).0 o),
    )
  where
    g : SessionInputGate
    g = (uses new_gate us).0

    newer :
        (k : ℕ) (g' : SessionInputGate)
        → Opened g g'
        → k ≤ g.next
        → g.next + 1 < 2 ^ 64
        → k < g'.generation
    newer k g' o q low = omega (arith, o.current, o.counted, q, low)

    start : Sound new_gate
    start = record { typed = omega arith; pasted = λ e. cc; held = λ n. absurd (n refl) }
