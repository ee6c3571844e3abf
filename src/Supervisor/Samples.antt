-- ===== src/Supervisor/Samples.antt =====
-- A helper at its start and with an open attachment; the theorems at these inputs.
use terminal_redeemer.Base.{
  ℕ, Bool, ◌+◌, zero, suc, ◌≤◌, ◌<◌, ◌≡◌, refl, true, false, List, [], ◌∷◌, ◌++◌, some, Text, codes,
  any, All, arith, Returns, trim_space, has_control, valid_utf8, contains_byte, strip_prefix,
  text_discrete, ℕ_discrete, keep,
}
use terminal_redeemer.Zellij.Name.{safe_session_name}
use terminal_redeemer.Zellij.SessionId.{valid_session_id, encode, decode}
use terminal_redeemer.Recovery.Request.{hex_token, SessionControlRequest}
use terminal_redeemer.Recovery.State.{new_session_recovery}
use terminal_redeemer.Recovery.Exchange.{exchange}
use terminal_redeemer.Recovery.History.{new_session_recovery-Inv}
use terminal_redeemer.Stream.Gate.{again}
use terminal_redeemer.Supervisor.{Identity, Supervisor, Surroundings, request_of, send}
use terminal_redeemer.Supervisor.Events.{
  input_taken, ticked, on_tick, supervise, fresh_supervisor, new_supervisor,
}
use terminal_redeemer.Supervisor.Invariant.{Inv, Named}
use terminal_redeemer.Supervisor.Effects.{effects_of, Justified}
use terminal_redeemer.Supervisor.Effects.Reasons.{supervise-Justified}
use terminal_redeemer.Supervisor.Manual.{manual_exchange, new_manual}
use terminal_redeemer.Supervisor.Manual.Admissions.{
  Message, admissions, requests_to_retry, admissions_le,
}
use terminal_redeemer.Supervisor.Manual.Answers.{Grants, manual_exchange-Grants}
use terminal_redeemer.Supervisor.Life.{Reaches, here, next, Reaches-Inv, Accepted, Reaches-Accepted}

abbrev repeat : ℕ → ℕ → Text
repeat zero c = []
repeat (suc n) c = c ∷ repeat n c

abbrev identity : Identity
identity = record {
  token = repeat 32 b'b';
  client = repeat 32 b'a';
  session = codes "main";
  session_id = codes "ses_" ++ repeat 43 b'A';
}

identity-Named : Named identity
unfolding hex_token any valid_session_id strip_prefix decode encode keep text_discrete
    safe_session_name trim_space has_control valid_utf8 contains_byte ℕ_discrete
identity-Named = record { client = refl; token = refl; session = refl; session_id = refl }

abbrev nonce : List ℕ
nonce = repeat 16 7

nonce_bytes : (n : ℕ) → All (λ b. b < 256) (repeat n 7)
nonce_bytes zero = tt
nonce_bytes (suc n) = (omega arith, nonce_bytes n)

abbrev surroundings : Surroundings
surroundings = record { now = 9; flush_at = 9; reads = λ _. again; screen_works = true }

abbrev started : Supervisor
started = new_supervisor identity nonce

after_tick : Reaches identity started (on_tick identity 9 surroundings started).state
unfolding supervise
after_tick =
    next started (ticked 9 surroundings) (on_tick identity 9 surroundings started) here tt refl

Reaches-Inv_example : Inv (on_tick identity 9 surroundings started).state
Reaches-Inv_example =
    Reaches-Inv identity nonce (on_tick identity 9 surroundings started).state identity-Named
      (refl, nonce_bytes 16) after_tick

first_request : started.in_flight ≡ some (request_of identity (fresh_supervisor nonce))
unfolding new_supervisor send fresh_supervisor
first_request = refl

Reaches-Accepted_example :
    Returns Accepted
      (exchange new_session_recovery (request_of identity (fresh_supervisor nonce)) 9)
Reaches-Accepted_example =
    Reaches-Accepted identity nonce started (request_of identity (fresh_supervisor nonce))
      new_session_recovery 9 identity-Named (refl, nonce_bytes 16) here first_request
      new_session_recovery-Inv

abbrev attached : Supervisor
attached = record (fresh_supervisor nonce) {
  child = true;
  proved = true;
  gate = record {
    generation = 1;
    next = 1;
    paste = false;
    paste_generation = 0;
    prefix = [];
    prefix_generation = 0;
    prefix_at = 0;
  };
  queue = record { generation = 1; bytes = codes "ls"; paste = false } ∷ [];
}

supervise-Justified_example :
    All
      (Justified identity attached (input_taken true surroundings))
      (effects_of (supervise identity attached (input_taken true surroundings)))
supervise-Justified_example = supervise-Justified identity attached (input_taken true surroundings)

abbrev ask : Bool → SessionControlRequest
ask retry = record (request_of identity (fresh_supervisor nonce)) {
  attempt = repeat 32 b'c';
  retry = retry;
}

abbrev asked_twice : List Message
asked_twice =
    record { expired = false; time = 5; request = ask false }
    ∷ record { expired = false; time = 6; request = ask true }
    ∷ []

admissions_le_example : admissions new_manual asked_twice ≤ 1 + requests_to_retry asked_twice
admissions_le_example = admissions_le asked_twice

manual_exchange-Grants_example :
    Grants false 5 (ask false) new_manual (manual_exchange false 5 (ask false) new_manual)
manual_exchange-Grants_example = manual_exchange-Grants false 5 (ask false) new_manual
