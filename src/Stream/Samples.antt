-- ===== src/Stream/Samples.antt =====
-- Streams with queries, markers and pastes; the theorems at these inputs.
use terminal_redeemer.Base.{
  strip_suffix, ℕ, zero, suc, ◌<◌, ◌≡◌, refl, true, false, List, [], ◌∷◌, ◌++◌, Text, codes, arith,
  any, strip_prefix, text_discrete, ℕ_discrete,
}
use terminal_redeemer.Stream.Queries.{
  esc, csi_query, strip_terminal_queries, strip_pre_client_queries,
}
use terminal_redeemer.Stream.Queries.Grammar.{Query, control}
use terminal_redeemer.Stream.Queries.Removal.{
  Stripped, strip_terminal_queries-Stripped, strip_terminal_queries_nested,
}
use terminal_redeemer.Stream.Queries.PreClient.{PreClient, strip_pre_client_queries-PreClient}
use terminal_redeemer.Stream.Decoder.{AttachmentOutputDecoder, marker_prefix, feed}
use terminal_redeemer.Stream.Decoder.Fuel.{Runs, feed-Runs}
use terminal_redeemer.Stream.Decoder.Lifecycle.{Reports, connecting}
use terminal_redeemer.Stream.Decoder.Streams.{new_decoder, all_events, all_events-Reports}
use terminal_redeemer.Stream.Gate.{
  again, opened, decode, open_gate, drain, finish_open, flush_prefix, open_next, close,
}
use terminal_redeemer.Stream.Gate.Marks.{AllOf}
use terminal_redeemer.Stream.Gate.History.{
  text_of, typed_text, new_gate, Use, input, types, closes, uses, inputs, decode_text,
  open_gate_separates,
}

abbrev status_query : Text
status_query = esc ∷ codes "[6n"

status_query-Query : Query status_query
unfolding csi_query strip_suffix strip_prefix any text_discrete ℕ_discrete
status_query-Query = control (codes "6n") (record {
  parameters = codes "6";
  intermediates = [];
  final = b'n';
  in_parameters = (refl, tt);
  in_intermediates = tt;
  in_final = refl;
  asks = refl;
  whole = refl;
})

abbrev before_client : Text
before_client =
    codes "hello" ++ status_query ++ codes "!" ++ esc ∷ codes "[?1049h" ++ esc ∷ codes "[c"

strip_terminal_queries-Stripped_example :
    Stripped before_client (strip_terminal_queries before_client)
strip_terminal_queries-Stripped_example = strip_terminal_queries-Stripped before_client

strip_pre_client_queries-PreClient_example :
    PreClient before_client (strip_pre_client_queries before_client)
strip_pre_client_queries-PreClient_example = strip_pre_client_queries-PreClient before_client

strip_terminal_queries_nested_example :
    strip_terminal_queries (esc ∷ b'[' ∷ (status_query ++ codes "6n")) ≡ status_query
strip_terminal_queries_nested_example =
    strip_terminal_queries_nested status_query status_query-Query

abbrev repeat : ℕ → ℕ → Text
repeat zero c = []
repeat (suc n) c = c ∷ repeat n c

abbrev attempt : Text
attempt = repeat 32 b'c'

abbrev first_part : Text
first_part = codes "login" ++ marker_prefix ++ attempt ++ codes ":rea"

abbrev second_part : Text
second_part = codes "dy" ++ (0x1f ∷ codes "screen")

abbrev read_first : AttachmentOutputDecoder
read_first = record (new_decoder attempt) { pending = first_part }

feed-Runs_example :
    Runs false
      (record read_first { pending = first_part ++ second_part })
      (feed read_first second_part false)
feed-Runs_example = feed-Runs read_first second_part false

all_events-Reports_example :
    Reports connecting
      (all_events (new_decoder attempt) ((first_part, false) ∷ (second_part, true) ∷ []))
all_events-Reports_example =
    all_events-Reports attempt ((first_part, false) ∷ (second_part, true) ∷ [])

-- The bytes of a text, one a nanosecond.
abbrev typing : ℕ → Text → List (ℕ × ℕ)
typing now [] = []
typing now (b ∷ s) = (now, b) ∷ typing (suc now) s

abbrev pasted : List (ℕ × ℕ)
pasted = typing 5 (codes "a" ++ esc ∷ codes "[200~pw" ++ esc ∷ codes "[201~b" ++ esc ∷ [])

decode_text_example :
    text_of (decode new_gate pasted).items ++ (decode new_gate pasted).gate.prefix
    ≡ typed_text pasted
decode_text_example = decode_text new_gate pasted

abbrev typed_before : List Use
typed_before = input (types (typing 5 (codes "ls"))) ∷ closes ∷ []

opens_example : (open_gate (λ _. again) 9 (uses new_gate typed_before).0).1 ≡ opened
unfolding open_gate drain finish_open flush_prefix open_next uses close strip_prefix
opens_example = refl

open_gate_separates_example :
    AllOf
      (λ k. k < (open_gate (λ _. again) 9 (uses new_gate typed_before).0).0.generation)
      (uses new_gate typed_before).1
    × AllOf
        (λ k. k ≡ (open_gate (λ _. again) 9 (uses new_gate typed_before).0).0.generation)
        (inputs (open_gate (λ _. again) 9 (uses new_gate typed_before).0).0 (types pasted ∷ [])).1
open_gate_separates_example =
    open_gate_separates typed_before (λ _. again) 9 (types pasted ∷ []) (omega arith) opens_example
