-- ===== src/Recovery/Samples.antt =====
-- A coordinator with one client, driven from its start; the theorems at concrete inputs.
use terminal_redeemer.Base.{
  ℕ, zero, suc, ◌*◌, ◌≡◌, refl, true, false, List, [], ◌∷◌, ◌++◌, Option, none, some, Text, codes,
  Returns, text_discrete, ℕ_discrete, get, put, any, keep, map_entries, trim_space, has_control,
  valid_utf8, contains_byte, strip_prefix,
}
use terminal_redeemer.Zellij.Name.{safe_session_name}
use terminal_redeemer.Zellij.SessionId.{valid_session_id, encode, decode}
use terminal_redeemer.Recovery.Request.{
  SessionControlRequest, offline, no_event, lost, hex_token, valid_recovery_request,
}
use terminal_redeemer.Recovery.Inventory.{
  SessionInventory, validate, validate_names, validate_complete, validate_session, id_in,
  session_id_of,
}
use terminal_redeemer.Recovery.State.{
  second, SessionRecovery, new_session_recovery, request_probe, expire, expire_member,
  recovery_delay,
}
use terminal_redeemer.Recovery.Roster.{Inv}
use terminal_redeemer.Recovery.Admission.{
  admit, admit_loop, admit_next, try_member, is_blocked, is_waiting, grant, granted, start,
  count_pending, pending_sessions, rotated,
}
use terminal_redeemer.Recovery.Admission.Keeps.{Admits, admit-Admits}
use terminal_redeemer.Recovery.Probe.{
  begin_probe, finish_probe, any_waiting, refs, probe_error, probe_succeeded, recheck, settle,
}
use terminal_redeemer.Recovery.Probe.Verdict.{Verdict, begin_probe-finish_probe}
use terminal_redeemer.Recovery.Exchange.{
  SessionGrant, Answer, replied, refused, exchange, exchange_new, exchange_old, exchange_member,
  exchange_at, handle, propose, proceed, resynchronize, conclude, hold_back, asked, register,
  new_member, ensure_session, token_in_use, same_identity, reply,
}
use terminal_redeemer.Recovery.Exchange.Answers.{Answered, exchange-Answered}
use terminal_redeemer.Recovery.History.{Call, begins, finishes, exchanges, run, run-new-Inv}

abbrev repeat : ℕ → ℕ → Text
repeat zero c = []
repeat (suc n) c = c ∷ repeat n c

abbrev sample_id : Text
sample_id = codes "ses_" ++ repeat 43 b'A'

abbrev sample_request : SessionControlRequest
sample_request = record {
  token = repeat 32 b'b';
  client = repeat 32 b'a';
  session = codes "main";
  session_id = sample_id;
  attempt = repeat 32 b'c';
  event = no_event;
  state = offline;
  retry = false;
}

abbrev sample_inventory : SessionInventory
sample_inventory = record {
  generated_at = 1;
  active_sessions = some (codes "main" ∷ []);
  session_ids = some ((codes "main", sample_id) ∷ []);
}

abbrev result : Option SessionRecovery → SessionRecovery
result none = new_session_recovery
result (some s) = s

result-Inv : (o : Option SessionRecovery) → Returns Inv o → Inv (result o)
result-Inv none h = absurd h
result-Inv (some s) h = h

abbrev probing_calls : List Call
probing_calls = exchanges sample_request (5 * second) ∷ begins (6 * second) ∷ []

probing : SessionRecovery
unfolding run begin_probe finish_probe exchange admit expire_member expire get put any keep
    map_entries admit_loop admit_next try_member is_blocked is_waiting grant granted start
    count_pending pending_sessions rotated any_waiting refs probe_error probe_succeeded recheck
    settle request_probe new_session_recovery register new_member ensure_session token_in_use
    same_identity exchange_new exchange_old exchange_member exchange_at handle propose proceed
    resynchronize conclude hold_back asked reply session_id_of id_in recovery_delay
    valid_recovery_request hex_token valid_session_id strip_prefix decode encode text_discrete
    safe_session_name trim_space has_control valid_utf8 contains_byte ℕ_discrete validate
    validate_complete validate_names validate_session
probing = result (run new_session_recovery probing_calls)

probing-Inv : Inv probing
unfolding probing
probing-Inv = result-Inv (run new_session_recovery probing_calls) (run-new-Inv probing_calls)

abbrev all_calls : List Call
all_calls =
    exchanges sample_request (5 * second)
    ∷ begins (6 * second)
    ∷ finishes 1 (7 * second) sample_inventory none
    ∷ exchanges (record sample_request { event = lost }) (9 * second)
    ∷ []

abbrev grant_of : Option (SessionRecovery × Answer) → Option SessionGrant
grant_of none = none
grant_of (some (s, refused e)) = none
grant_of (some (s, replied y)) = y.grant

request_valid : valid_recovery_request sample_request ≡ true
unfolding valid_recovery_request hex_token any valid_session_id strip_prefix decode encode keep
    text_discrete safe_session_name trim_space has_control valid_utf8 contains_byte ℕ_discrete
request_valid = refl

sample_good : validate sample_inventory ≡ none
unfolding validate validate_complete validate_names validate_session id_in get any valid_session_id
    strip_prefix decode encode keep text_discrete safe_session_name trim_space has_control
    valid_utf8 contains_byte ℕ_discrete
sample_good = refl

run-new-Inv_example : Returns Inv (run new_session_recovery all_calls)
run-new-Inv_example = run-new-Inv all_calls

exchange-Answered_example :
    Returns (Answered sample_request (8 * second)) (exchange probing sample_request (8 * second))
exchange-Answered_example = exchange-Answered probing sample_request (8 * second) probing-Inv

admit-Admits_example : Returns (Admits probing (8 * second)) (admit probing (8 * second))
admit-Admits_example = admit-Admits probing (8 * second) probing-Inv

-- The state after a good observation, and the answer to the next message of the client.
observed : SessionRecovery
unfolding probing
observed = result (finish_probe probing 1 (7 * second) sample_inventory none)

first_grant :
    grant_of (exchange observed sample_request (8 * second))
    ≡ some (record { attempt = repeat 32 b'c'; deadline = 22 * second })
unfolding observed
first_grant = refl

-- A client waits; a probe begins, and another client joins.
abbrev waiting_calls : List Call
waiting_calls = exchanges sample_request (5 * second) ∷ []

waiting : SessionRecovery
unfolding run begin_probe finish_probe exchange admit expire_member expire get put any keep
    map_entries admit_loop admit_next try_member is_blocked is_waiting grant granted start
    count_pending pending_sessions rotated any_waiting refs probe_error probe_succeeded recheck
    settle request_probe new_session_recovery register new_member ensure_session token_in_use
    same_identity exchange_new exchange_old exchange_member exchange_at handle propose proceed
    resynchronize conclude hold_back asked reply session_id_of id_in recovery_delay
    valid_recovery_request hex_token valid_session_id strip_prefix decode encode text_discrete
    safe_session_name trim_space has_control valid_utf8 contains_byte ℕ_discrete validate
    validate_complete validate_names validate_session
waiting = result (run new_session_recovery waiting_calls)

waiting-Inv : Inv waiting
unfolding waiting
waiting-Inv = result-Inv (run new_session_recovery waiting_calls) (run-new-Inv waiting_calls)

abbrev joins : List Call
joins =
    exchanges (record sample_request { client = repeat 32 b'd'; token = repeat 32 b'e' })
      (6 * second)
    ∷ []

joined : SessionRecovery
unfolding waiting run begin_probe finish_probe exchange admit expire_member expire get put any keep
    map_entries admit_loop admit_next try_member is_blocked is_waiting grant granted start
    count_pending pending_sessions rotated any_waiting refs probe_error probe_succeeded recheck
    settle request_probe new_session_recovery register new_member ensure_session token_in_use
    same_identity exchange_new exchange_old exchange_member exchange_at handle propose proceed
    resynchronize conclude hold_back asked reply session_id_of id_in recovery_delay
    valid_recovery_request hex_token valid_session_id strip_prefix decode encode text_discrete
    safe_session_name trim_space has_control valid_utf8 contains_byte ℕ_discrete validate
    validate_complete validate_names validate_session
joined = result (run (begin_probe waiting (6 * second)).0 joins)

probe_began : (begin_probe waiting (6 * second)).1 ≡ some 1
unfolding waiting
probe_began = refl

calls_meanwhile : run (begin_probe waiting (6 * second)).0 joins ≡ some joined
unfolding joined
calls_meanwhile = refl

begin_probe-finish_probe_example :
    Returns
      (Verdict waiting joined sample_inventory)
      (finish_probe joined 1 (7 * second) sample_inventory none)
begin_probe-finish_probe_example =
    begin_probe-finish_probe waiting (6 * second) 1 joins joined (7 * second) sample_inventory
      waiting-Inv probe_began (tt, tt) calls_meanwhile sample_good
