-- ===== src/Stream/Decoder/Accounts.antt =====
-- The account of the bytes that `feed` of internal/mirror/session_stream.go is given.
use terminal_redeemer.Base.{
  ℕ, zero, suc, ◌≤◌, ◌<◌, ◌≡◌, refl, sym, ap, subst, ◌∙◌, ◌≢◌, inl, inr, Bool, [], ◌∷◌, ◌++◌,
  Option, none, some, Text, length, length-append, arith, Option-cases,
}
use terminal_redeemer.Stream.Search.{cut_at, cut_at-some}
use terminal_redeemer.Stream.Decoder.{
  AttachmentOutputDecoder, marker_prefix, attachment_marker, Piece, incomplete, takes, read_piece,
  notice, notice_any, Fed, add_front, flush, feed_loop, feed,
}
use terminal_redeemer.Stream.Decoder.Decoding.{Plains, before-Plains}
use terminal_redeemer.Stream.Decoder.Pieces.{Unmarked-parts, Taken, read_piece-Taken}
use terminal_redeemer.Stream.Decoder.Account.{
  Accounted, prefix_is, waiting-Accounted, flush-Accounted, round_none, round_marker,
}

pub marker-positive : (m : Text) → m ≢ [] → 0 < length m
marker-positive [] n = absurd (n refl)
marker-positive (b ∷ m) n = omega arith

abbrev pub next : Bool → ℕ → AttachmentOutputDecoder → Option (Text × Text) → Text → Fed
next eof n d seen rest = feed_loop eof n (record ((notice_any d seen).0) { pending = rest })

-- What the rounds that are left do.
abbrev Rounds : Bool → ℕ → Type 0
Rounds eof n =
    (d : AttachmentOutputDecoder)
    → length d.pending ≤ n
    → Accounted d eof d.pending (feed_loop eof n d)

abbrev pub after : Bool → ℕ → AttachmentOutputDecoder → Text → Text → Piece → Fed
after eof n d before s incomplete = record {
  decoder = record d { pending = s };
  output = before;
  events = [];
}
after eof n d before s (takes output seen rest) =
    add_front (before ++ output) (notice_any d seen).1 (next eof n d seen rest)

after-Accounted :
    (eof : Bool) (n : ℕ) (d : AttachmentOutputDecoder) (before s : Text) (piece : Piece)
    → d.pending ≡ before ++ s
    → Plains before s
    → (r : Text) × (s ≡ marker_prefix ++ r)
    → length d.pending ≤ suc n
    → Taken eof s piece
    → Rounds eof n
    → Accounted d eof d.pending (after eof n d before s piece)
unfolding notice_any
after-Accounted eof n d before s incomplete e pl pre h t r =
    waiting-Accounted eof d before s e pl t.0 t.1
after-Accounted eof n d before s (takes out none rest) e pl pre h t r =
    let parts = Unmarked-parts t in
    round_none eof d before out s rest _ e pl pre t (
      r (record d { pending = rest })
        (omega (
          arith,
          h,
          parts.1,
          ap length e,
          ap length parts.0,
          length-append before s,
          length-append out rest,
        )))
after-Accounted eof n d before s (takes out (some (token, event)) rest) e pl pre h t r =
    subst
      (λ o. Accounted d eof d.pending (
        add_front (before ++ o) (notice d (token, event)).1
          (next eof n d (some (token, event)) rest)))
      (sym t.0)
      (round_marker eof d before s rest token event _ e pl t.1 t.2 (
        r (record ((notice d (token, event)).0) { pending = rest })
          (omega (
            arith,
            h,
            marker-positive (attachment_marker token event) t.2,
            ap length e,
            ap length t.1,
            length-append before s,
            length-append (attachment_marker token event) rest,
          ))))

pub feed_loop-found :
    (eof : Bool) (n : ℕ) (d : AttachmentOutputDecoder) (before s : Text)
    → cut_at marker_prefix d.pending ≡ some (before, s)
    → feed_loop eof (suc n) d ≡ after eof n d before s (read_piece eof s)
unfolding feed_loop
feed_loop-found eof n d before s e = rw (e, feed_loop) (same_cases (read_piece eof s))
  where
    same_cases :
        (p : Piece)
        → (elim p as (λ _. Fed) [
          | incomplete ↦ record { decoder = record d { pending = s }; output = before; events = [] }
          | takes output seen rest ↦
              add_front
                (before ++ output)
                (notice_any d seen).1
                (feed_loop eof n (record ((notice_any d seen).0) { pending = rest }))
        ])
          ≡ after eof n d before s p
    same_cases incomplete = refl
    same_cases (takes output seen rest) = refl

pub feed_loop-missing :
    (eof : Bool) (n : ℕ) (d : AttachmentOutputDecoder)
    → cut_at marker_prefix d.pending ≡ none
    → feed_loop eof (suc n) d ≡ flush eof d
unfolding feed_loop
feed_loop-missing eof n d e = rw (e, feed_loop) refl

empty_of_zero : (s : Text) → length s ≤ 0 → s ≡ []
empty_of_zero [] h = refl
empty_of_zero (b ∷ s) h = absurd (omega arith)

pub feed_loop-Accounted :
    (eof : Bool) (n : ℕ) (d : AttachmentOutputDecoder)
    → length d.pending ≤ n
    → Accounted d eof d.pending (feed_loop eof n d)
unfolding feed_loop
feed_loop-Accounted eof zero d h =
    waiting-Accounted eof d [] d.pending refl tt (omega (arith, h)) (λ _. empty_of_zero d.pending h)
feed_loop-Accounted eof (suc n) d h = elim (Option-cases (cut_at marker_prefix d.pending)) [
  | inl e ↦
      subst (Accounted d eof d.pending) (sym (feed_loop-missing eof n d e))
        (flush-Accounted eof d e)
  | inr ((before, s), e) ↦
      let found = cut_at-some marker_prefix d.pending before s prefix_is e in
      subst (Accounted d eof d.pending) (sym (feed_loop-found eof n d before s e)) (
        after-Accounted eof n d before s (read_piece eof s) found.parts
          (before-Plains before s (λ k r q. found.first k r (found.parts ∙ q)))
          (found.rest, found.here) h (read_piece-Taken eof s) (feed_loop-Accounted eof n))
]

pub feed-Accounted :
    (d : AttachmentOutputDecoder) (input : Text) (eof : Bool)
    → Accounted d eof (d.pending ++ input) (feed d input eof)
unfolding feed
feed-Accounted d input eof =
    let a =
      feed_loop-Accounted eof (length (d.pending ++ input))
        (record d { pending = d.pending ++ input }) (omega arith) in
    record {
      markers = a.markers;
      decoded = a.decoded;
      same_attempt = a.same_attempt;
      life = a.life;
      events = a.events;
      bounded = a.bounded;
      flushed = a.flushed;
    }
