-- ===== src/Recovery/Roster.antt =====
-- What holds of the coordinator between two calls: its three collections agree, each member is
-- coherent, and the pending attachments are few.
use terminal_redeemer.Base.{
  ◌<◌, bit-le_one, bit_of_false, ◌≤◌, ◌≡◌, sym, ◌∙◌, ◌≢◌, Bool, true, false, ◌&&◌, ◌||◌, List, [],
  ◌∷◌, ◌++◌, none, some, Text, same, Map, get, put, del, map_entries, seen, Distinct, keys, Each,
  tally, bit, arith, remove_first, seen-append, seen-rotate, Distinct-snoc, seen-remove_first_ne,
  seen-remove_first_self, Distinct-remove_first, keys-map_entries, keys-del, keys-put_old,
  keys-put_new, seen-get, unseen-get, Each-get, Each-put, Each-del, Each-map_entries, tally-put_old,
  tally-put_new, tally-del, tally-map_entries, text_discrete, bit-le, bit-le_and, and_mono, ap,
  subst, Each-mono,
}
use terminal_redeemer.Recovery.Request.{SessionControlRequest}
use terminal_redeemer.Recovery.State.{Member, SessionRetry, SessionRecovery, is_pending}

-- One entry of the member map: its key is its client; an ended member has no attempt; a ready one
-- has; it always proposes an attempt; and the active attempt is not the one retired last.
pub record Sound (id : Text) (m : Member) : Type 0 where
  pub named : m.identity.client ≡ id
  pub over : m.ended ≡ true → m.active ≡ []
  pub attached : m.is_ready ≡ true → m.active ≢ []
  pub offered : m.proposed ≢ []
  pub fresh : m.active ≢ [] → m.active ≢ m.retired

abbrev pub Tracked : Map SessionRetry → Text → Member → Type 0
Tracked sessions id m = seen m.identity.session_id (keys sessions) ≡ true

-- Pending, and of one session.
abbrev pub pends_in : Text → Member → Bool
pends_in sid m = is_pending m && same m.identity.session_id sid

pub record Roster (ms : Map Member) (order : List Text) (sessions : Map SessionRetry) : Type 0 where
  pub order_distinct : Distinct order
  pub keys_distinct : Distinct (keys ms)
  pub queued : (id : Text) → seen id order ≡ seen id (keys ms)
  pub sound : Each Sound ms
  pub tracked : Each (Tracked sessions) ms
  pub capacity : tally is_pending ms ≤ 2
  pub single : (sid : Text) → tally (pends_in sid) ms ≤ 1

abbrev pub Inv : SessionRecovery → Type 0
Inv s = Roster s.members s.order s.sessions

-- A member is given anew, and pends only if it did.
module _ {ms : Map Member} {order : List Text} {sessions : Map SessionRetry} where
  pub Roster-write :
      (c : Text) (m m' : Member)
      → Roster ms order sessions
      → get c ms ≡ some m
      → Sound c m'
      → m'.identity.session_id ≡ m.identity.session_id
      → (is_pending m' ≡ true → is_pending m ≡ true)
      → Roster (put c m' ms) order sessions
  Roster-write c m m' v e sound ids calm = record {
    order_distinct = v.order_distinct;
    keys_distinct = rw same_keys v.keys_distinct;
    queued = λ id. rw same_keys (v.queued id);
    sound = Each-put Sound c m' ms v.sound sound;
    tracked =
        Each-put (Tracked sessions) c m' ms v.tracked
          (rw ids (Each-get (Tracked sessions) c ms v.tracked e));
    capacity = omega (arith, tally-put_old is_pending c m m' ms e, v.capacity, calmer);
    single =
        λ sid. omega (arith, tally-put_old (pends_in sid) c m m' ms e, v.single sid, calmer_in sid);
  }
    where
      same_keys : keys (put c m' ms) ≡ keys ms
      same_keys = keys-put_old c m' ms (seen-get c ms m e)

      calmer : bit (is_pending m') ≤ bit (is_pending m)
      calmer = bit-le (is_pending m') (is_pending m) calm

      calmer_in : (sid : Text) → bit (pends_in sid m') ≤ bit (pends_in sid m)
      calmer_in sid = rw ids (bit-le_and (is_pending m') (is_pending m) _ calm)

  -- Every member is given anew by a loop.
  pub Roster-map_entries :
      (f : Text → Member → Member)
      → ((c : Text) (m : Member) → Sound c m → Sound c (f c m))
      → ((c : Text) (m : Member) → (f c m).identity ≡ m.identity)
      → ((c : Text) (m : Member) → is_pending (f c m) ≡ true → is_pending m ≡ true)
      → Roster ms order sessions
      → Roster (map_entries f ms) order sessions
  Roster-map_entries f sound ids calm v = record {
    order_distinct = v.order_distinct;
    keys_distinct = rw (keys-map_entries f ms) v.keys_distinct;
    queued = λ id. rw (keys-map_entries f ms) (v.queued id);
    sound = Each-map_entries Sound f ms sound v.sound;
    tracked = Each-map_entries (Tracked sessions) f ms (λ c m t. rw (ids c m) t) v.tracked;
    capacity = omega (arith, tally-map_entries is_pending f ms calm, v.capacity);
    single =
        λ sid. omega (arith, tally-map_entries (pends_in sid) f ms (calm_in sid), v.single sid);
  }
    where
      calm_in : (sid c : Text) (m : Member) → pends_in sid (f c m) ≡ true → pends_in sid m ≡ true
      calm_in sid c m =
          and_mono (is_pending (f c m)) (is_pending m) _ _ (calm c m)
            (ap (λ (r : SessionControlRequest). same r.session_id sid) (ids c m))

  -- A new client is registered, pending nothing, and its session has a retry record.
  pub Roster-register :
      (c : Text) (m : Member) (sessions' : Map SessionRetry)
      → Roster ms order sessions
      → get c ms ≡ none
      → Sound c m
      → is_pending m ≡ false
      → Tracked sessions' c m
      → ((sid : Text) → seen sid (keys sessions) ≡ true → seen sid (keys sessions') ≡ true)
      → Roster (put c m ms) (order ++ c ∷ []) sessions'
  Roster-register c m sessions' v e sound idle tracked grows = record {
    order_distinct = Distinct-snoc c order (v.queued c ∙ unseen-get c ms e) v.order_distinct;
    keys_distinct = rw more (Distinct-snoc c (keys ms) (unseen-get c ms e) v.keys_distinct);
    queued = λ id. rw more (
        seen-append id order (c ∷ [])
        ∙ ap (λ b. b || seen id (c ∷ [])) (v.queued id)
        ∙ sym (seen-append id (keys ms) (c ∷ [])));
    sound = Each-put Sound c m ms v.sound sound;
    tracked =
        Each-put (Tracked sessions') c m ms
          (Each-mono (Tracked sessions) (Tracked sessions') ms (λ k x. grows x.identity.session_id)
            v.tracked)
          tracked;
    capacity = omega (arith, tally-put_new is_pending c m ms e, v.capacity, ap bit idle);
    single = λ sid. omega (arith, tally-put_new (pends_in sid) c m ms e, v.single sid, idle_in sid);
  }
    where
      more : keys (put c m ms) ≡ keys ms ++ c ∷ []
      more = keys-put_new c m ms (unseen-get c ms e)

      idle_in : (sid : Text) → bit (pends_in sid m) ≡ 0
      idle_in sid = ap (λ b. bit (b && same m.identity.session_id sid)) idle

  -- Only the retry records change, and none is lost.
  pub Roster-sessions :
      (sessions' : Map SessionRetry)
      → Roster ms order sessions
      → ((sid : Text) → seen sid (keys sessions) ≡ true → seen sid (keys sessions') ≡ true)
      → Roster ms order sessions'
  Roster-sessions sessions' v grows = record {
    order_distinct = v.order_distinct;
    keys_distinct = v.keys_distinct;
    queued = v.queued;
    sound = v.sound;
    tracked =
        Each-mono (Tracked sessions) (Tracked sessions') ms (λ k x. grows x.identity.session_id)
          v.tracked;
    capacity = v.capacity;
    single = v.single;
  }

  -- The head of the queue goes to its tail.
  pub Roster-rotate :
      (c : Text) (rest : List Text)
      → order ≡ c ∷ rest
      → Roster ms order sessions
      → Roster ms (rest ++ c ∷ []) sessions
  Roster-rotate c rest e v = record {
    order_distinct = Distinct-snoc c rest (d.0) d.1;
    keys_distinct = v.keys_distinct;
    queued = λ id. seen-rotate id c rest ∙ ap (seen id) (sym e) ∙ v.queued id;
    sound = v.sound;
    tracked = v.tracked;
    capacity = v.capacity;
    single = v.single;
  }
    where
      d : Distinct (c ∷ rest)
      d = subst Distinct e v.order_distinct

  -- A client leaves; the retry records that the others need stay.
  pub Roster-remove :
      (c : Text) (sessions' : Map SessionRetry)
      → Roster ms order sessions
      → Each (Tracked sessions') (del c ms)
      → Roster (del c ms) (remove_first c order) sessions'
  Roster-remove c sessions' v tracked = record {
    order_distinct = Distinct-remove_first c order v.order_distinct;
    keys_distinct = rw (keys-del c ms) (Distinct-remove_first c (keys ms) v.keys_distinct);
    queued = λ id. rw (keys-del c ms) (same_queue id);
    sound = Each-del Sound c ms v.sound;
    tracked = tracked;
    capacity = omega (arith, tally-del is_pending c ms, v.capacity);
    single = λ sid. omega (arith, tally-del (pends_in sid) c ms, v.single sid);
  }
    where
      same_queue : (id : Text) → seen id (remove_first c order) ≡ seen id (remove_first c (keys ms))
      same_queue id = elim (text_discrete c id) [
        | yes p ↦
            subst (λ x. seen x (remove_first c order) ≡ seen x (remove_first c (keys ms))) p
              (seen-remove_first_self c order v.order_distinct
                ∙ sym (seen-remove_first_self c (keys ms) v.keys_distinct))
        | no p ↦
            seen-remove_first_ne c id order p
            ∙ v.queued id
            ∙ sym (seen-remove_first_ne c id (keys ms) p)
      ]

  -- A member of a free session may come to pend while fewer than two do.
  pub Roster-grant :
      (c : Text) (m m' : Member)
      → Roster ms order sessions
      → get c ms ≡ some m
      → Sound c m'
      → m'.identity.session_id ≡ m.identity.session_id
      → tally is_pending ms < 2
      → tally (pends_in m.identity.session_id) ms ≡ 0
      → Roster (put c m' ms) order sessions
  Roster-grant c m m' v e sound ids room free = record {
    order_distinct = v.order_distinct;
    keys_distinct = rw same_keys v.keys_distinct;
    queued = λ id. rw same_keys (v.queued id);
    sound = Each-put Sound c m' ms v.sound sound;
    tracked =
        Each-put (Tracked sessions) c m' ms v.tracked
          (rw ids (Each-get (Tracked sessions) c ms v.tracked e));
    capacity =
        omega (arith, tally-put_old is_pending c m m' ms e, room, bit-le_one (is_pending m'));
    single = single;
  }
    where
      same_keys : keys (put c m' ms) ≡ keys ms
      same_keys = keys-put_old c m' ms (seen-get c ms m e)

      single : (sid : Text) → tally (pends_in sid) (put c m' ms) ≤ 1
      single sid = elim (text_discrete m.identity.session_id sid) [
        | yes p ↦ omega (
          arith,
          tally-put_old (pends_in sid) c m m' ms e,
          subst (λ x. tally (pends_in x) ms ≡ 0) p free,
          bit-le_one (pends_in sid m'),
        )
        | no p ↦ omega (
          arith,
          tally-put_old (pends_in sid) c m m' ms e,
          v.single sid,
          bit_of_false (is_pending m') (same m'.identity.session_id sid) (rw ids (ground arith)),
        )
      ]
