-- ===== src/Stream/Decoder/Streams.antt =====
-- A stream that a decoder of internal/mirror/session_stream.go is fed in parts.
use terminal_redeemer.Base.{◌≡◌, refl, sym, subst, ◌∙◌, Bool, false, List, [], ◌∷◌, ◌++◌, Text}
use mathlib.Core.Path.{ap₂}
use terminal_redeemer.Stream.Decoder.{AttachmentOutputDecoder, feed}
use terminal_redeemer.Stream.Decoder.Lifecycle.{
  connecting, follow, life_of, Reports, follow-Reports, follow_events-append,
}
use terminal_redeemer.Stream.Decoder.Accounts.{feed-Accounted}

abbrev pub new_decoder : Text → AttachmentOutputDecoder
new_decoder attempt = record { attempt = attempt; pending = []; ready = false; finished = false }

-- The events of the parts of a stream, of which only the last may be its end.
unfoldable pub all_events : AttachmentOutputDecoder → List (Text × Bool) → List Text
all_events d [] = []
all_events d ((input, eof) ∷ parts) =
    (feed d input eof).events ++ all_events (feed d input eof).decoder parts

all_events-follow :
    (d : AttachmentOutputDecoder) (parts : List (Text × Bool))
    → (ms : List (Text × Text)) × (all_events d parts ≡ (follow d.attempt (life_of d) ms).1)
unfolding all_events follow
all_events-follow d [] = ([], refl)
all_events-follow d ((input, eof) ∷ parts) =
    let a = feed-Accounted d input eof in
    let (ms, e) = all_events-follow (feed d input eof).decoder parts in
    (
      a.markers ++ ms,
      ap₂ (λ (x y : List Text). x ++ y) a.events
            (e ∙ ap₂ (λ x y. (follow x y ms).1) a.same_attempt a.life)
          ∙ follow_events-append d.attempt (life_of d) a.markers ms,
    )

-- However the stream is cut into parts, a new decoder reports readiness once at most, and one end at
-- most, which is the last report and is no detachment without readiness before it.
pub all_events-Reports :
    (attempt : Text) (parts : List (Text × Bool))
    → Reports connecting (all_events (new_decoder attempt) parts)
all_events-Reports attempt parts =
    let (ms, e) = all_events-follow (new_decoder attempt) parts in
    subst (Reports connecting) (sym e) (follow-Reports attempt connecting ms)
