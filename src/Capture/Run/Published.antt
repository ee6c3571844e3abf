-- ===== src/Capture/Run/Published.antt =====
-- `CaptureOnce` of internal/capture/runner.go: the checkpoint that it writes.
use mathlib.Core.Path.{ap₂}
use terminal_redeemer.Base.{
  ℕ, ◌≡◌, refl, subst, ◌≢◌, Bool, false, not, List, [], ◌∷◌, Option, none, some, ◌>>=◌, Text, same,
  keep, keys, Distinct, All, In-All, arith, by_test, trim_space_led, trim_space-trim_space,
  trim_space,
}
use terminal_redeemer.Model.{State, Checkpoint}
use terminal_redeemer.Model.Normalize.{normalize, normalize_recovery, hashed_state}
use terminal_redeemer.Model.Normalize.Canonical.{
  normalize-normalize, normalize_recovery-normalize_recovery,
}
use terminal_redeemer.Checkpoints.{
  Codec, is_blank, digest, hash_state, recovery_integrity_hash, check_integrity, check_recovery,
  check_state_hash, validate_recovery, validate_checkpoint,
}
use terminal_redeemer.Checkpoints.Directory.{Files, present, canonical, history, list}
use terminal_redeemer.Checkpoints.Directory.Contents.{stored, stored-In, candidate-valid}
use terminal_redeemer.Checkpoints.Prune.Removal.{candidates-In}
use terminal_redeemer.Checkpoints.Validation.{IsName}
use terminal_redeemer.Zellij.Catalog.{Catalog}
use terminal_redeemer.Capture.Active.{
  ActiveSessions, authoritative, ambiguous, authoritative_active_sessions,
}
use terminal_redeemer.Capture.Active.Allowed.{AllowList, authoritative_active_sessions-AllowList}
use terminal_redeemer.Capture.Inventory.{Resolver, build_recovery_inventory}
use terminal_redeemer.Capture.Inventory.Valid.{build_recovery_inventory-valid}
use terminal_redeemer.Capture.Run.{
  Runner, Observed, CaptureError, no_state_json, no_recovery_json, not_collected, not_observed,
  no_history, Attempt, success, failure, and_then, or_fail, active_or_fail, boot_or_fail, assemble,
  collect_checkpoint, prepare,
}

-- If an attempt succeeds, its value has the property.
abbrev pub Succeeded {ℓ} : {A : Type ℓ} → (A → Type 0) → Attempt A → Type 0
Succeeded P (success a) = P a
Succeeded P (failure _) = Unit

Succeeded-and_then {ℓ κ} :
    {A : Type ℓ} {B : Type κ} (P : A → Type 0) (Q : B → Type 0) (a : Attempt A) (f : A → Attempt B)
    → Succeeded P a
    → ((x : A) → P x → Succeeded Q (f x))
    → Succeeded Q (and_then a f)
Succeeded-and_then P Q (success a) f h k = k a h
Succeeded-and_then P Q (failure e) f h k = tt

Succeeded-or_fail :
    {A : Type 0} (e : CaptureError) (o : Option A) → Succeeded (λ a. o ≡ some a) (or_fail e o)
Succeeded-or_fail e none = tt
Succeeded-or_fail e (some a) = refl

-- What a capture relies on: the names of the runner are not blank, the clock is set, and the catalog
-- has one record for a name.
pub record IsReady (r : Runner) (o : Observed) : Type 0 where
  pub host : is_blank r.host ≡ false
  pub profile : is_blank r.profile ≡ false
  pub now : o.now ≢ 0
  pub catalog : (c : Catalog) → o.catalog ≡ some c → Distinct (keys c.sessions)

validate_checkpoint-accepts :
    (J : Codec) (c : Checkpoint)
    → is_blank c.boot_id ≡ false
    → is_blank c.host ≡ false
    → is_blank c.profile ≡ false
    → c.observed_at ≢ 0
    → is_blank c.state_hash ≡ false
    → hash_state J c.state ≡ some c.state_hash
    → validate_recovery c.recovery ≡ none
    → recovery_integrity_hash J c.state c.recovery ≡ some c.integrity_hash
    → validate_checkpoint J c ≡ none
unfolding validate_checkpoint check_state_hash check_recovery check_integrity
validate_checkpoint-accepts J c b h p n s hash v integrity =
    ground (arith, b, h, p, n, s, hash, v, integrity)

some_inj : {A : Type 0} {a b : A} → some a ≡ some b → a ≡ b
some_inj e = cc

is_blank_trimmed : (t : Text) → trim_space t ≢ [] → is_blank t ≡ false
is_blank_trimmed t h = ground (arith, h)

digest-is_blank : (J : Codec) (payload : Text) → is_blank (digest J payload) ≡ false
digest-is_blank J payload = is_blank_trimmed (digest J payload) (trim_space_led _)

hash_state-digest :
    (J : Codec) (s : State) (h : Text) → hash_state J s ≡ some h → is_blank h ≡ false
unfolding hash_state
hash_state-digest J s h e = from (J.state_json (hashed_state s)) e
  where
    from :
        (o : Option Text) → (o >>= λ payload. some (digest J payload)) ≡ some h → is_blank h ≡ false
    from none e = cc
    from (some payload) e = subst (λ x. is_blank x ≡ false) (some_inj e) (digest-is_blank J payload)

-- The history that the store gives is valid.
check_state_hash-recovery :
    (J : Codec) (c : Checkpoint) → check_state_hash J c ≡ none → validate_recovery c.recovery ≡ none
unfolding check_state_hash check_recovery
check_state_hash-recovery J c h = ground (arith, h)

validate_checkpoint-recovery :
    (J : Codec) (c : Checkpoint)
    → validate_checkpoint J c ≡ none
    → validate_recovery c.recovery ≡ none
unfolding validate_checkpoint
validate_checkpoint-recovery J c h = ground (arith, h, check_state_hash-recovery J c)

abbrev IsValidHistory : List Checkpoint → Type 0
IsValidHistory = All (λ c. validate_recovery c.recovery ≡ none)

All-keep : {A : Type 0} (P : A → Type 0) (p : A → Bool) (l : List A) → All P l → All P (keep p l)
unfolding keep
All-keep P p [] h = tt
All-keep P p (x ∷ l) h =
    by_test (All P) (p x) _ _ (λ _. (h.0, All-keep P p l h.1)) (λ _. All-keep P p l h.1)

stored-IsValidHistory : (J : Codec) (files : Files) → IsValidHistory (stored J files)
stored-IsValidHistory J files =
    In-All (λ c. validate_recovery c.recovery ≡ none) (stored J files)
      (λ c m.
        let (name, k) = stored-In J files c m in
        let (node, (_, e)) = candidates-In J name c files k in
        validate_checkpoint-recovery J c (candidate-valid J name node c e))

history-IsValidHistory :
    (J : Codec) (host profile : Text) (files : Files) (past : List Checkpoint)
    → history J host profile (present files) ≡ some past
    → IsValidHistory past
unfolding history list
history-IsValidHistory J host profile files past e = subst IsValidHistory (some_inj e) (
    All-keep (λ c. validate_recovery c.recovery ≡ none) _ (stored J files)
      (stored-IsValidHistory J files))

build_recovery_inventory_again :
    (state : State) (active : List Text) (past : List Checkpoint) (now : ℕ) (resolver : Resolver)
    → normalize_recovery (build_recovery_inventory state active past now resolver)
      ≡ build_recovery_inventory state active past now resolver
unfolding build_recovery_inventory
build_recovery_inventory_again state active past now resolver =
    normalize_recovery-normalize_recovery _

-- A valid checkpoint in its normal form.
abbrev pub IsWritable : Codec → Checkpoint → Type 0
IsWritable J c = (canonical c ≡ c) × (validate_checkpoint J c ≡ none)

module _ (J : Codec) (r : Runner) (o : Observed) (y : IsReady r o) where
  assemble-IsWritable :
      (s : State) (active : List Text) (boot_id : Text) (past : List Checkpoint)
      → All IsName active × Distinct active
      → is_blank boot_id ≡ false
      → IsValidHistory past
      → Succeeded (IsWritable J) (assemble J r o (normalize s) active boot_id past)
  unfolding assemble
  assemble-IsWritable s active boot_id past a b p =
      let state = normalize s in
      let recovery = build_recovery_inventory state active past o.now o.resolver in
      Succeeded-and_then (λ h. hash_state J state ≡ some h) (IsWritable J) _ _
        (Succeeded-or_fail no_state_json (hash_state J state))
        (λ h e.
          Succeeded-and_then (λ i. recovery_integrity_hash J state recovery ≡ some i) (IsWritable J)
            _ _ (Succeeded-or_fail no_recovery_json (recovery_integrity_hash J state recovery))
            (λ i q. (
              ap₂
                  (λ x z. record {
                    boot_id = boot_id;
                    host = r.host;
                    profile = r.profile;
                    observed_at = o.now;
                    state = x;
                    state_hash = h;
                    recovery = z;
                    integrity_hash = i;
                  })
                  (normalize-normalize s)
                  (build_recovery_inventory_again state active past o.now o.resolver),
              validate_checkpoint-accepts J _ b y.host y.profile y.now
                  (hash_state-digest J state h e) e
                  (build_recovery_inventory-valid state active past o.now o.resolver a.0 a.1 p
                    y.now)
                  q,
            )))

  boot_or_fail-is_blank : Succeeded (λ b. is_blank b ≡ false) (boot_or_fail o.boot_id)
  boot_or_fail-is_blank = from o.boot_id
    where
      from : (x : Option Text) → Succeeded (λ b. is_blank b ≡ false) (boot_or_fail x)
      from none = tt
      from (some b) =
          by_test (Succeeded (λ b. is_blank b ≡ false)) (same (trim_space b) []) _ _ (λ _. tt)
            (λ f.
              is_blank_trimmed (trim_space b) (λ e. ground (arith, f, e, trim_space-trim_space b)))

  active_or_fail-AllowList :
      (c : Catalog)
      → o.catalog ≡ some c
      → Succeeded
          (λ l. All IsName l × Distinct l)
          (active_or_fail (authoritative_active_sessions c))
  active_or_fail-AllowList c e =
      from (authoritative_active_sessions c)
        (authoritative_active_sessions-AllowList c (y.catalog c e))
    where
      from :
          (a : ActiveSessions)
          → AllowList IsName c.sessions a
          → Succeeded (λ l. All IsName l × Distinct l) (active_or_fail a)
      from (ambiguous x) h = tt
      from (authoritative l) h = (h.0, h.1)

  collect_checkpoint-IsWritable :
      (files : Files) → Succeeded (IsWritable J) (collect_checkpoint J r o files)
  unfolding collect_checkpoint
  collect_checkpoint-IsWritable files =
      Succeeded-and_then (λ s. o.collected ≡ some s) (IsWritable J) _ _
        (Succeeded-or_fail not_collected o.collected)
        (λ s _.
          Succeeded-and_then (λ c. o.catalog ≡ some c) (IsWritable J) _ _
            (Succeeded-or_fail not_observed o.catalog)
            (λ c e.
              Succeeded-and_then (λ l. All IsName l × Distinct l) (IsWritable J) _ _
                (active_or_fail-AllowList c e)
                (λ l a.
                  Succeeded-and_then (λ b. is_blank b ≡ false) (IsWritable J) _ _
                    boot_or_fail-is_blank
                    (λ b h.
                      Succeeded-and_then (λ p. history J r.host r.profile (present files) ≡ some p)
                        (IsWritable J)
                        (or_fail no_history (history J r.host r.profile (present files))) _
                        (Succeeded-or_fail no_history (history J r.host r.profile (present files)))
                        (λ p q.
                          assemble-IsWritable s l b p a h
                            (history-IsValidHistory J r.host r.profile files p q))))))

  -- Where the names of the runner are not blank, the clock is set and the catalog has one record for a
  -- name, what a capture gives to `Write` is in its normal form and passes the validation of a
  -- checkpoint: its hashes are those of its content, and its inventory is consistent.
  pub prepare-IsWritable : (files : Files) → Succeeded (IsWritable J) (prepare J r o files)
  unfolding prepare
  prepare-IsWritable files =
      by_test (Succeeded (IsWritable J)) (not r.has_store) _ _ (λ _. tt)
        (λ _.
          by_test (Succeeded (IsWritable J)) (not r.has_cataloger) _ _ (λ _. tt)
            (λ _.
              by_test (Succeeded (IsWritable J)) (same r.state_dir []) _ _ (λ _. tt)
                (λ _.
                  by_test (Succeeded (IsWritable J)) (not o.locks) _ _ (λ _. tt)
                    (λ _. collect_checkpoint-IsWritable files))))
