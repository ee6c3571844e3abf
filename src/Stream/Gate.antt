-- ===== src/Stream/Gate.antt =====
-- internal/mirror/session_terminal.go: the gate between the physical terminal and the attachment, which
-- marks every byte of input with the attachment that it was typed for.
pub mod Rounds
pub mod Marks
pub mod Origins
pub mod History
use terminal_redeemer.Base.{
  ℕ, zero, suc, ◌+◌, ◌-◌, ◌*◌, ◌%◌, ◌^◌, Bool, true, false, not, ◌&&◌, ◌||◌, ◌==◌, List, [], ◌∷◌,
  ◌++◌, Option, none, some, Text, codes, same, length, ltb, strip_prefix, if◌then◌else◌,
}

abbrev pub paste_start : Text
paste_start = 0x1b ∷ codes "[200~"

abbrev pub paste_end : Text
paste_end = 0x1b ∷ codes "[201~"

pub record SessionInput : Type 0 where
  pub generation : ℕ
  pub bytes : Text
  pub paste : Bool

pub record SessionInputGate : Type 0 where
  pub generation : ℕ
  pub next : ℕ
  pub paste : Bool
  pub paste_generation : ℕ
  pub prefix : Text
  pub prefix_generation : ℕ
  pub prefix_at : ℕ

abbrev pub prefix_timeout : ℕ
prefix_timeout = 30 * 10 ^ 6

abbrev pub is_empty : Text → Bool
is_empty [] = true
is_empty (_ ∷ _) = false

unfoldable pub flush_prefix : ℕ → SessionInputGate → SessionInputGate × List SessionInput
flush_prefix now g =
    if is_empty g.prefix || ltb (now - g.prefix_at) prefix_timeout then (g, []) else (
      record g { prefix = [] },
      record { generation = g.prefix_generation; bytes = g.prefix; paste = g.paste } ∷ [],
    )

unfoldable pub close : SessionInputGate → SessionInputGate
close g = record g { generation = 0 }

abbrev same_flag : Bool → Bool → Bool
same_flag true b = b
same_flag false b = not b

abbrev pub is_of : ℕ → Bool → SessionInput → Bool
is_of epoch paste i = i.generation == epoch && same_flag i.paste paste

-- Bytes of the same origin join the last item.
unfoldable pub emit : List SessionInput → Text → ℕ → Bool → List SessionInput
emit [] bytes epoch paste = record { generation = epoch; bytes = bytes; paste = paste } ∷ []
emit (i ∷ []) bytes epoch paste =
    if is_of epoch paste i
    then record i { bytes = i.bytes ++ bytes } ∷ []
    else i ∷ record { generation = epoch; bytes = bytes; paste = paste } ∷ []
emit (i ∷ j ∷ is) bytes epoch paste = i ∷ emit (j ∷ is) bytes epoch paste

pub record Decoding : Type 0 where
  pub gate : SessionInputGate
  pub items : List SessionInput

abbrev pub target : Bool → Text
target true = paste_end
target false = paste_start

-- The prefix is a whole marker of a paste.
unfoldable pub turn_paste : Decoding → Decoding
unfolding emit
turn_paste d =
    let g = d.gate in
    record {
      gate = record g {
        paste_generation = if g.paste then g.paste_generation else g.prefix_generation;
        paste = not g.paste;
        prefix = [];
      };
      items = emit d.items g.prefix g.prefix_generation true;
    }

-- `bytes.HasPrefix(target, prefix)`: what of the marker is still to come.
abbrev pub missing : SessionInputGate → Option Text
missing g = strip_prefix g.prefix (target g.paste)

unfoldable pub shift : ℕ → Text → Decoding → Decoding
unfolding emit
shift b rest d = record {
  gate = record (d.gate) { prefix = rest };
  items = emit d.items (b ∷ []) d.gate.prefix_generation d.gate.paste;
}

-- What a round does with a prefix, by what its marker still lacks.
pub data Move : Type 0 where
  stay turn : Move
  give : ℕ → Text → Move

unfoldable pub move : Text → Option Text → Move
move [] lacks = stay
move (b ∷ rest) (some []) = turn
move (b ∷ rest) (some (_ ∷ _)) = stay
move (b ∷ rest) none = give b rest

-- The inner loop; each round but the last shortens the prefix.
unfoldable pub settle : ℕ → Decoding → Decoding
unfolding turn_paste shift move
settle zero d = d
settle (suc n) d = elim (move d.gate.prefix (missing d.gate)) [
  | stay ↦ d
  | turn ↦ turn_paste d
  | give b rest ↦ settle n (shift b rest d)
]

unfoldable pub push : ℕ → ℕ → SessionInputGate → SessionInputGate
push now b g =
    let epoch = if g.paste then g.paste_generation else g.generation in
    let fresh = is_empty g.prefix in
    record g {
      prefix = g.prefix ++ b ∷ [];
      prefix_generation = if fresh then epoch else g.prefix_generation;
      prefix_at = if fresh then now else g.prefix_at;
    }

-- One byte, and the time at which it is looked at.
unfoldable pub decode_byte : Decoding → ℕ × ℕ → Decoding
unfolding push settle
decode_byte d (now, b) =
    let g = push now b d.gate in settle (length g.prefix) (record d { gate = g })

unfoldable pub decode_from : Decoding → List (ℕ × ℕ) → Decoding
unfolding decode_byte
decode_from d [] = d
decode_from d (b ∷ bs) = decode_from (decode_byte d b) bs

unfoldable pub decode : SessionInputGate → List (ℕ × ℕ) → Decoding
unfolding decode_from
decode g bs = decode_from (record { gate = g; items = [] }) bs

-- What a nonblocking read of the terminal gives. Where the terminal cannot be made nonblocking, the first
-- read fails.
pub data Read : Type 0 where
  got : List (ℕ × ℕ) → Read
  again interrupted failed closed : Read

pub data Drained : Type 0 where
  empty busy error : Drained

unfoldable pub drain : ℕ → (ℕ → Read) → SessionInputGate → SessionInputGate × Drained
unfolding decode
drain zero reads g = (g, busy)
drain (suc n) reads g = elim (reads n) [
  | got bs ↦ drain n reads (decode g bs).gate
  | again ↦ (g, empty)
  | interrupted ↦ drain n reads g
  | failed ↦ (g, error)
  | closed ↦ (g, error)
]

pub data Opening : Type 0 where
  opened not_opened failed : Opening

unfoldable pub open_next : SessionInputGate → SessionInputGate × Opening
open_next g =
    let next = (g.next + 1) % 2 ^ 64 in
    if next == 0
    then (record g { next = 0 }, Opening.failed)
    else (record g { next = next; generation = next }, opened)

unfoldable pub finish_open : ℕ → SessionInputGate → Drained → SessionInputGate × Opening
unfolding flush_prefix open_next
finish_open now g error = (g, Opening.failed)
finish_open now g busy = ((flush_prefix now g).0, not_opened)
finish_open now g empty =
    let h = (flush_prefix now g).0 in
    if h.paste || not (is_empty h.prefix) then (h, not_opened) else open_next h

-- At most 16 reads; what they bring is parsed and discarded.
unfoldable pub open_gate : (ℕ → Read) → ℕ → SessionInputGate → SessionInputGate × Opening
unfolding drain finish_open
open_gate reads now g = finish_open now (drain 16 reads g).0 (drain 16 reads g).1
