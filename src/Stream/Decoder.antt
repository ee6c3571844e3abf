-- ===== src/Stream/Decoder.antt =====
-- internal/mirror/session_stream.go, with `AttachmentMarker` of internal/mirror/session_attach.go: the
-- lifecycle markers in what one transport writes.
pub mod Lifecycle
pub mod Markers
pub mod Decoding
pub mod Pieces
pub mod Account
pub mod Accounts
pub mod Streams
pub mod Fuel
use terminal_redeemer.Base.{
  ℕ, zero, suc, ◌+◌, ◌-◌, Bool, true, false, not, ◌&&◌, ◌||◌, List, [], ◌∷◌, ◌++◌, Option, none,
  some, Text, codes, same, any, length, ltb, leb, ◌==◌, strip_prefix, if◌then◌else◌,
}
use mathlib.Core.List.{reverse}
use terminal_redeemer.Recovery.Request.{hex_token}
use terminal_redeemer.Stream.Search.{cut_at, prepend_part}

abbrev pub marker_end : ℕ
marker_end = 0x1f

abbrev pub marker_prefix : Text
marker_prefix = 0x1e ∷ codes "REDEEM_ATTACH_V1:"

abbrev pub ready : Text
ready = codes "ready"

abbrev pub detached : Text
detached = codes "detached"

abbrev pub failed : Text
failed = codes "failed"

abbrev pub marker_events : List Text
marker_events =
    ready
    ∷ detached
    ∷ codes "missing"
    ∷ codes "replaced"
    ∷ codes "unverifiable"
    ∷ codes "unsupported"
    ∷ codes "invalid"
    ∷ failed
    ∷ codes "cancelled"
    ∷ []

-- The empty text for an attempt or an event that makes no marker.
unfoldable pub attachment_marker : Text → Text → Text
attachment_marker attempt event =
    if not (hex_token attempt)
    then []
    else if any (same event) marker_events
    then marker_prefix ++ (attempt ++ (b':' ∷ (event ++ marker_end ∷ [])))
    else []

pub record AttachmentOutputDecoder : Type 0 where
  pub attempt : Text
  pub pending : Text
  pub ready : Bool
  pub finished : Bool

-- `bytes.IndexByte`, with what is before the byte and after it.
unfoldable pub cut_byte : ℕ → Text → Option (Text × Text)
cut_byte c [] = none
cut_byte c (b ∷ s) = if b == c then some ([], s) else prepend_part b (cut_byte c s)

-- `n` bytes from the front, and without them.
unfoldable pub take : ℕ → Text → Text
take zero s = []
take (suc n) [] = []
take (suc n) (b ∷ s) = b ∷ take n s

unfoldable pub drop : ℕ → Text → Text
drop zero s = s
drop (suc n) [] = []
drop (suc n) (b ∷ s) = drop n s

-- `bytes.HasSuffix`.
unfoldable pub has_suffix : Text → Text → Bool
has_suffix [] p = same [] p
has_suffix (b ∷ s) p = same (b ∷ s) p || has_suffix s p

-- The last of the sizes up to a bound at which the end of the text begins a marker, 0 if none does.
unfoldable pub keep_size : ℕ → Text → ℕ
unfolding has_suffix take
keep_size zero s = 0
keep_size (suc n) s =
    let rest = keep_size n s in
    if leb (suc n) (length s) && has_suffix s (take (suc n) marker_prefix) then suc n else rest

-- What one round makes of a text that begins like a marker.
pub data Piece : Type 0 where
  incomplete : Piece
  takes : Text → Option (Text × Text) → Text → Piece

unfoldable pub first_byte : Text → Piece
first_byte [] = incomplete
first_byte (b ∷ s) = takes (b ∷ []) none s

unfoldable pub read_marker : Text → Text → Piece
unfolding attachment_marker cut_byte drop
read_marker body rest = elim (cut_byte b':' (drop (length marker_prefix) body)) [
  | none ↦ takes (body ++ marker_end ∷ []) none rest
  | some (token, event) ↦
      if same (attachment_marker token event) (body ++ marker_end ∷ [])
      then takes [] (some (token, event)) rest
      else takes (body ++ marker_end ∷ []) none rest
]

abbrev pub marker_limit : ℕ
marker_limit = 128

unfoldable pub read_piece : Bool → Text → Piece
unfolding first_byte read_marker cut_byte
read_piece eof s = elim (cut_byte marker_end s) [
  | none ↦ if ltb (length s) marker_limit && not eof then incomplete else first_byte s
  | some (body, rest) ↦
      if leb marker_limit (length body) then first_byte s else read_marker body rest
]

-- What a valid marker does to the decoder, and the event that it makes.
unfoldable pub notice : AttachmentOutputDecoder → Text × Text → AttachmentOutputDecoder × List Text
notice d (token, event) =
    if not (same token d.attempt) || d.finished
    then (d, [])
    else if same event ready
    then (record d { ready = true }, if d.ready then [] else ready ∷ [])
    else (
      record d { finished = true },
      (if same event detached && not d.ready then failed else event) ∷ [],
    )

unfoldable pub notice_any :
    AttachmentOutputDecoder → Option (Text × Text) → AttachmentOutputDecoder × List Text
unfolding notice
notice_any d none = (d, [])
notice_any d (some m) = notice d m

pub record Fed : Type 0 where
  pub decoder : AttachmentOutputDecoder
  pub output : Text
  pub events : List Text

abbrev pub add_front : Text → List Text → Fed → Fed
add_front output events f = record f { output = output ++ f.output; events = events ++ f.events }

-- Without the start of a marker: all goes out but what may become one.
unfoldable pub flush : Bool → AttachmentOutputDecoder → Fed
unfolding keep_size take drop
flush eof d =
    let keep = if eof then 0 else keep_size (length marker_prefix - 1) d.pending in
    let size = length d.pending - keep in
    record {
      decoder = record d { pending = drop size d.pending };
      output = take size d.pending;
      events = [];
    }

unfoldable pub feed_loop : Bool → ℕ → AttachmentOutputDecoder → Fed
unfolding flush read_piece notice_any
feed_loop eof zero d = record { decoder = d; output = []; events = [] }
feed_loop eof (suc n) d = elim (cut_at marker_prefix d.pending) [
  | none ↦ flush eof d
  | some (before, s) ↦ elim (read_piece eof s) [
    | incomplete ↦ record { decoder = record d { pending = s }; output = before; events = [] }
    | takes output seen rest ↦
        add_front (before ++ output) (notice_any d seen).1
          (feed_loop eof n (record ((notice_any d seen).0) { pending = rest }))
  ]
]

-- A round takes a byte at least, so that there are no more rounds than bytes.
unfoldable pub feed : AttachmentOutputDecoder → Text → Bool → Fed
unfolding feed_loop
feed d input eof =
    let pending = d.pending ++ input in
    feed_loop eof (length pending) (record d { pending = pending })
