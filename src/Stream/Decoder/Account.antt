-- ===== src/Stream/Decoder/Account.antt =====
-- What one round of `feed` of internal/mirror/session_stream.go does to the account of its bytes.
use terminal_redeemer.Base.{
  ℕ, ◌-◌, ◌<◌, ◌≡◌, refl, sym, ap, subst, ◌∙◌, ◌≢◌, Bool, true, false, List, [], ◌∷◌, ◌++◌, none,
  Text, length, arith,
}
use mathlib.Core.Path.{ap₂}
use mathlib.Core.List.{append_assoc, append-nil}
use terminal_redeemer.Stream.Search.{cut_at, cut_at-none}
use terminal_redeemer.Stream.Decoder.{
  AttachmentOutputDecoder, marker_prefix, attachment_marker, take, drop, keep_size, marker_limit,
  notice, Fed, add_front, flush,
}
use terminal_redeemer.Stream.Decoder.Lifecycle.{follow, life_of, notice-observe}
use terminal_redeemer.Stream.Decoder.Markers.{Plain}
use terminal_redeemer.Stream.Decoder.Decoding.{
  Plains, before-Plains, malformed, marker, Decoded, Decoded-bytes, waits, byte,
}
use terminal_redeemer.Stream.Decoder.Pieces.{
  Unmarked, one, whole, take-drop, length-drop, keep_size_le,
}

-- A feed accounts for its text, and follows the life of its attempt by the markers in it.
pub record Accounted (d : AttachmentOutputDecoder) (eof : Bool) (s : Text) (f : Fed) : Type 0 where
  pub markers : List (Text × Text)
  pub decoded : Decoded s f.output markers f.decoder.pending
  pub same_attempt : f.decoder.attempt ≡ d.attempt
  pub life : life_of f.decoder ≡ (follow d.attempt (life_of d) markers).0
  pub events : f.events ≡ (follow d.attempt (life_of d) markers).1
  pub bounded : length f.decoder.pending < marker_limit
  pub flushed : eof ≡ true → f.decoder.pending ≡ []

pub prefix_is : marker_prefix ≢ []
prefix_is e = cc

Decoded-plain : (l p : Text) → Plains l p → Decoded (l ++ p) l [] p
Decoded-plain [] p n = waits p
Decoded-plain (b ∷ l) p n = byte b n.0 (Decoded-plain l p n.1)

pub waiting-Accounted :
    (eof : Bool) (d : AttachmentOutputDecoder) (l p : Text)
    → d.pending ≡ l ++ p
    → Plains l p
    → length p < marker_limit
    → (eof ≡ true → p ≡ [])
    → Accounted d eof d.pending
        (record { decoder = record d { pending = p }; output = l; events = [] })
unfolding follow
waiting-Accounted eof d l p e n b f = record {
  markers = [];
  decoded = subst (λ t. Decoded t l [] p) (sym e) (Decoded-plain l p n);
  same_attempt = refl;
  life = refl;
  events = refl;
  bounded = b;
  flushed = f;
}

drop_all : (s : Text) → drop (length s) s ≡ []
unfolding drop
drop_all [] = refl
drop_all (b ∷ s) = drop_all s

kept-Accounted :
    (eof : Bool) (d : AttachmentOutputDecoder) (k : ℕ)
    → cut_at marker_prefix d.pending ≡ none
    → k < marker_limit
    → (eof ≡ true → k ≡ 0)
    → Accounted d eof d.pending (record {
      decoder = record d { pending = drop (length d.pending - k) d.pending };
      output = take (length d.pending - k) d.pending;
      events = [];
    })
kept-Accounted eof d k c b f =
    waiting-Accounted eof d (take n d.pending) (drop n d.pending) (take-drop n d.pending)
      (before-Plains (take n d.pending) (drop n d.pending) (λ j r e.
        absurd (cut_at-none marker_prefix d.pending j r prefix_is c (take-drop n d.pending ∙ e))))
      (omega (arith, b, length-drop n d.pending))
      (λ t. ap (λ m. drop m d.pending) (omega (arith, f t)) ∙ drop_all d.pending)
  where
    n : ℕ
    n = length d.pending - k

pub flush-Accounted :
    (eof : Bool) (d : AttachmentOutputDecoder)
    → cut_at marker_prefix d.pending ≡ none
    → Accounted d eof d.pending (flush eof d)
unfolding flush
flush-Accounted true d c = kept-Accounted true d 0 c (omega arith) (λ _. refl)
flush-Accounted false d c =
    kept-Accounted false d (keep_size (length marker_prefix - 1) d.pending) c
      (omega (arith, keep_size_le (length marker_prefix - 1) d.pending)) (λ t. absurd (cc))

front-Decoded :
    {s rest out fo p : Text} {ms : List (Text × Text)}
    → Unmarked s rest out
    → (r : Text) × (s ≡ marker_prefix ++ r)
    → Decoded rest fo ms p
    → Decoded s (out ++ fo) ms p
front-Decoded {fo = fo} {p = p} {ms = ms} (one b e n) pre d =
    subst (λ t. Decoded t (b ∷ fo) ms p) (sym e) (byte b (subst Plain e n) d)
front-Decoded (whole body e l h n) pre d = malformed body n l h e pre d

-- One round in front of an accounted feed.
pub round_none :
    (eof : Bool) (d : AttachmentOutputDecoder) (before out s rest : Text) (f : Fed)
    → d.pending ≡ before ++ s
    → Plains before s
    → (r : Text) × (s ≡ marker_prefix ++ r)
    → Unmarked s rest out
    → Accounted (record d { pending = rest }) eof rest f
    → Accounted d eof d.pending (add_front (before ++ out) [] f)
round_none eof d before out s rest f e n pre u a = record {
  markers = a.markers;
  decoded =
      subst (λ t. Decoded t ((before ++ out) ++ f.output) a.markers f.decoder.pending) (sym e)
        (subst (λ o. Decoded (before ++ s) o a.markers f.decoder.pending)
          (sym (append_assoc before out f.output))
          (Decoded-bytes before n (front-Decoded u pre a.decoded)));
  same_attempt = a.same_attempt;
  life = a.life;
  events = a.events;
  bounded = a.bounded;
  flushed = a.flushed;
}

pub round_marker :
    (eof : Bool) (d : AttachmentOutputDecoder) (before s rest token event : Text) (f : Fed)
    → d.pending ≡ before ++ s
    → Plains before s
    → s ≡ attachment_marker token event ++ rest
    → attachment_marker token event ≢ []
    → Accounted (record ((notice d (token, event)).0) { pending = rest }) eof rest f
    → Accounted d eof d.pending (add_front (before ++ []) (notice d (token, event)).1 f)
unfolding follow
round_marker eof d before s rest token event f e plain q n a =
    let (l, es, same_a) = notice-observe d (token, event) in
    record {
      markers = (token, event) ∷ a.markers;
      decoded =
          subst
            (λ t.
              Decoded t ((before ++ []) ++ f.output) ((token, event) ∷ a.markers) f.decoder.pending)
            (sym e)
            (subst
              (λ o.
                Decoded (before ++ s) (o ++ f.output) ((token, event) ∷ a.markers)
                  f.decoder.pending)
              (sym (append-nil before))
              (Decoded-bytes before plain (marker token event n q a.decoded)));
      same_attempt = a.same_attempt ∙ same_a;
      life = a.life ∙ ap₂ (λ x y. (follow x y a.markers).0) same_a l;
      events =
          ap₂ (λ (x y : List Text). x ++ y) es
            (a.events ∙ ap₂ (λ x y. (follow x y a.markers).1) same_a l);
      bounded = a.bounded;
      flushed = a.flushed;
    }
