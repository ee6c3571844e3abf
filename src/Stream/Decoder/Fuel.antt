-- ===== src/Stream/Decoder/Fuel.antt =====
-- The rounds of the loop of `feed` of internal/mirror/session_stream.go.
use terminal_redeemer.Base.{
  ℕ, zero, suc, ◌≤◌, ◌<◌, ◌≡◌, refl, sym, ap, subst, inl, inr, Bool, true, false, [], ◌∷◌, ◌++◌,
  Option, none, some, Text, length, length-append, arith, Option-cases, strip_prefix,
}
use terminal_redeemer.Stream.Search.{cut_at, cut_at-some}
use terminal_redeemer.Stream.Decoder.{
  AttachmentOutputDecoder, Piece, incomplete, takes, attachment_marker, marker_prefix, keep_size,
  read_piece, notice_any, Fed, add_front, take, drop, flush, feed_loop, feed,
}
use terminal_redeemer.Stream.Decoder.Account.{prefix_is}
use terminal_redeemer.Stream.Decoder.Pieces.{Taken, Unmarked-parts, read_piece-Taken}
use terminal_redeemer.Stream.Decoder.Accounts.{
  after, feed_loop-found, feed_loop-missing, marker-positive,
}

-- The loop without a bound on its rounds: each round flushes what has no start of a marker, or waits for
-- the rest of a marker, or takes a piece and goes on with what is left. A derivation is finite, so that
-- it is a loop that ends.
pub data Runs (eof : Bool) : AttachmentOutputDecoder → Fed → Type 0 where
  flushes :
      (d : AttachmentOutputDecoder)
      → cut_at marker_prefix d.pending ≡ none
      → Runs eof d (flush eof d)
  stops :
      (d : AttachmentOutputDecoder) (before s : Text)
      → cut_at marker_prefix d.pending ≡ some (before, s)
      → read_piece eof s ≡ incomplete
      → Runs eof d (record { decoder = record d { pending = s }; output = before; events = [] })
  goes :
      (d : AttachmentOutputDecoder) (before s out rest : Text) (seen : Option (Text × Text))
      (f : Fed)
      → cut_at marker_prefix d.pending ≡ some (before, s)
      → read_piece eof s ≡ takes out seen rest
      → Runs eof (record ((notice_any d seen).0) { pending = rest }) f
      → Runs eof d (add_front (before ++ out) (notice_any d seen).1 f)

abbrev idle : AttachmentOutputDecoder → Fed
idle d = record { decoder = d; output = []; events = [] }

-- Without a byte there is nothing to do.
flush_nothing :
    (eof : Bool) (d : AttachmentOutputDecoder)
    → flush eof (record d { pending = [] }) ≡ idle (record d { pending = [] })
unfolding flush keep_size take drop
flush_nothing true d = refl
flush_nothing false d = refl

cut_nothing : cut_at marker_prefix [] ≡ none
unfolding cut_at strip_prefix
cut_nothing = refl

-- No rounds are needed for no bytes.
idle-Runs :
    (eof : Bool) (d : AttachmentOutputDecoder) (s : Text)
    → d.pending ≡ s
    → length s ≤ 0
    → Runs eof d (idle d)
idle-Runs eof d [] e h =
    let q : record d { pending = [] } ≡ d = ap (λ t. record d { pending = t }) (sym e) in
    subst (λ x. Runs eof x (idle x)) q
      (subst (Runs eof (record d { pending = [] })) (flush_nothing eof d)
        (flushes (record d { pending = [] }) cut_nothing))
idle-Runs eof d (b ∷ s) e h = absurd (omega arith)

shortens :
    (eof : Bool) (s out rest : Text) (seen : Option (Text × Text))
    → Taken eof s (takes out seen rest)
    → length rest < length s
shortens eof s out rest none t =
    let parts = Unmarked-parts t in
    omega (arith, parts.1, ap length parts.0, length-append out rest)
shortens eof s out rest (some (token, event)) t = omega (
  arith,
  marker-positive (attachment_marker token event) t.2,
  ap length t.1,
  length-append (attachment_marker token event) rest,
)

after-Runs :
    (eof : Bool) (n : ℕ) (d : AttachmentOutputDecoder) (before s : Text) (piece : Piece)
    → cut_at marker_prefix d.pending ≡ some (before, s)
    → read_piece eof s ≡ piece
    → length s ≤ suc n
    → Taken eof s piece
    → ((t : AttachmentOutputDecoder) → length t.pending ≤ n → Runs eof t (feed_loop eof n t))
    → Runs eof d (after eof n d before s piece)
after-Runs eof n d before s incomplete e p h t r = stops d before s e p
after-Runs eof n d before s (takes out seen rest) e p h t r = goes d before s out rest seen _ e p (
    r (record ((notice_any d seen).0) { pending = rest })
      (omega (arith, h, shortens eof s out rest seen t)))

feed_loop-Runs :
    (eof : Bool) (n : ℕ) (d : AttachmentOutputDecoder)
    → length d.pending ≤ n
    → Runs eof d (feed_loop eof n d)
unfolding feed_loop
feed_loop-Runs eof zero d h = idle-Runs eof d d.pending refl h
feed_loop-Runs eof (suc n) d h = elim (Option-cases (cut_at marker_prefix d.pending)) [
  | inl e ↦ subst (Runs eof d) (sym (feed_loop-missing eof n d e)) (flushes d e)
  | inr ((before, s), e) ↦
      let parts = (cut_at-some marker_prefix d.pending before s prefix_is e).parts in
      subst (Runs eof d) (sym (feed_loop-found eof n d before s e)) (
        after-Runs eof n d before s (read_piece eof s) e refl
          (omega (arith, h, ap length parts, length-append before s)) (read_piece-Taken eof s)
          (feed_loop-Runs eof n))
]

-- The loop of the decoder ends by itself: run without a bound on its rounds on what is pending and what
-- is fed, it comes to an end, and to what the feed gives.
pub feed-Runs :
    (d : AttachmentOutputDecoder) (input : Text) (eof : Bool)
    → Runs eof (record d { pending = d.pending ++ input }) (feed d input eof)
unfolding feed
feed-Runs d input eof =
    feed_loop-Runs eof (length (d.pending ++ input)) (record d { pending = d.pending ++ input })
      (omega arith)
