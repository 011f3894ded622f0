-- ===== src/Client/Session/Recovery.antt =====
-- Session: a lost connection comes back, unless the supervisor meets an exception it does not catch.
use socket_to_ciphertext.Prelude.{
  ℕ, suc, ◌+◌, ◌*◌, ◌^◌, min, ltb, ◌<◌, ◌≡◌, refl, sym, ap, subst, ◌∙◌, Bool, true, false, not,
  ◌||◌, Option, none, some, List, [], ◌∷◌, ◌++◌, All, length, arith, if◌then◌else◌,
}
use socket_to_ciphertext.Client.Backoff.{
  Backoff, nominal, next_delay, first_delay, factor, max_delay,
}
use socket_to_ciphertext.Client.State.{ConnectionState, same_state, can_send}
use socket_to_ciphertext.Client.Connection.{Connection}
use socket_to_ciphertext.Client.Session.{
  Attempt, welcomed, refused, unreachable, hung_up, Session, is_left, is_live, reconnect, delayed,
  watch, watch_all,
}

-- An attempt that the supervisor survives.
abbrev pub is_failure : Attempt → Bool
is_failure refused = true
is_failure unreachable = true
is_failure a = false

-- There is no connection, or it is over: lost, refused by the server, or closed.
pub data Gone : Option Connection → Type 0 where
  missing : Gone none
  lost : (c : Connection) → (c.machine).state ≡ ConnectionState.retrying → Gone (some c)
  dropped : (c : Connection) → (c.machine).state ≡ ConnectionState.disconnected → Gone (some c)
  shut : (c : Connection) → (c.machine).state ≡ ConnectionState.closed → Gone (some c)

-- The supervisor does not leave alone a connection that is over.
Gone-is_left : (o : Option Connection) → Gone o → is_left o ≡ false
unfolding is_left same_state can_send
Gone-is_left none missing = refl
Gone-is_left (some c) (lost d e) = rw e refl
Gone-is_left (some c) (dropped d e) = rw e refl
Gone-is_left (some c) (shut d e) = rw e refl

-- The supervisor runs, has not been stopped, and the connection is gone.
pub record Searching (s : Session) : Type 0 where
  pub supervised : s.supervised ≡ true
  pub going : s.stopped ≡ false
  pub nothing : Gone s.connection

next_delay-some :
    (b : Backoff)
    → b.attempts < 1024
    → (delay : ℕ) × (next_delay b ≡ (some delay, record b { attempts = suc b.attempts }))
unfolding next_delay nominal
next_delay-some b h =
    let below : ltb b.attempts 1024 ≡ true = ground arith in
    (
      min (first_delay * factor ^ b.attempts) max_delay,
      ap
          (λ t.
            elim (if t then some (min (first_delay * factor ^ b.attempts) max_delay) else none)
              as (λ _. Option ℕ × Backoff) [
                | none ↦ (none, b)
                | some delay ↦ (some delay, record b { attempts = suc b.attempts })
              ])
          below,
    )

watch-reconnect :
    (s : Session) (a : Attempt)
    → Searching s
    → (s.backoff).attempts < 1024
    → watch s a
      ≡ reconnect
          (record s { backoff = record (s.backoff) { attempts = suc (s.backoff).attempts } })
          a
unfolding watch
watch-reconnect s a h few =
    let (delay, e) = next_delay-some s.backoff few in
    ap
      (λ b.
        if not b || s.stopped
        then record s { supervised = false }
        else if is_left s.connection
        then s
        else delayed s a (next_delay s.backoff))
      h.supervised
    ∙ ap
        (λ b.
          if b
          then record s { supervised = false }
          else if is_left s.connection
          then s
          else delayed s a (next_delay s.backoff))
        h.going
    ∙ ap (λ b. if b then s else delayed s a (next_delay s.backoff))
        (Gone-is_left s.connection h.nothing)
    ∙ ap (delayed s a) e

abbrev advanced : Session → Session
advanced s = record s { backoff = record (s.backoff) { attempts = suc (s.backoff).attempts } }

-- A failed attempt leaves the supervisor searching, one step further in the schedule.
watch-Searching :
    (s : Session) (a : Attempt)
    → Searching s
    → (s.backoff).attempts < 1024
    → is_failure a ≡ true
    → Searching (watch s a)
      × (((watch s a).backoff).attempts ≡ suc (s.backoff).attempts)
      × ((watch s a).reconnects ≡ s.reconnects)
unfolding reconnect
watch-Searching s a h few fails =
    subst
      (λ (x : Session).
        Searching x
        × ((x.backoff).attempts ≡ suc (s.backoff).attempts)
        × (x.reconnects ≡ s.reconnects))
      (sym (watch-reconnect s a h few)) (by_kind a fails)
  where
    later : Session
    later = record s { backoff = record (s.backoff) { attempts = suc (s.backoff).attempts } }

    by_kind :
        (b : Attempt)
        → is_failure b ≡ true
        → Searching (reconnect later b)
          × (((reconnect later b).backoff).attempts ≡ suc (s.backoff).attempts)
          × ((reconnect later b).reconnects ≡ s.reconnects)
    by_kind (welcomed c) e = absurd (cc)
    by_kind refused e =
        (record { supervised = h.supervised; going = h.going; nothing = missing }, refl, refl)
    by_kind unreachable e =
        (record { supervised = h.supervised; going = h.going; nothing = missing }, refl, refl)
    by_kind hung_up e = absurd (cc)

-- What the session is like after it came back on a connection.
pub record Recovered (s t : Session) (c : Connection) : Type 0 where
  pub is_new : t.connection ≡ some c
  pub live : is_live t.connection ≡ true
  pub once : t.reconnects ≡ suc s.reconnects
  pub from_start : (t.backoff).attempts ≡ 0
  pub watched : t.supervised ≡ true

reconnect-Recovered :
    (s before : Session) (c : Connection)
    → before.reconnects ≡ s.reconnects
    → before.supervised ≡ true
    → (c.machine).state ≡ ConnectionState.online
    → Recovered s (reconnect before (welcomed c)) c
unfolding reconnect can_send same_state
reconnect-Recovered s before c same on online = record {
  is_new = refl;
  live = rw online refl;
  once = ap suc same;
  from_start = refl;
  watched = on;
}

recovered :
    (s now : Session) (failures : List Attempt) (c : Connection)
    → now.reconnects ≡ s.reconnects
    → Searching now
    → All (λ (a : Attempt). is_failure a ≡ true) failures
    → (now.backoff).attempts + length failures < 1024
    → (c.machine).state ≡ ConnectionState.online
    → Recovered s (watch_all now (failures ++ welcomed c ∷ [])) c
unfolding watch_all
recovered s now [] c same h fail few online =
    subst (λ (x : Session). Recovered s x c)
      (sym (watch-reconnect now (welcomed c) h (omega arith)))
      (reconnect-Recovered s (advanced now) c same h.supervised online)
recovered s now (a ∷ as') c same h fail few online =
    let (searching, further, kept) = watch-Searching now a h (omega arith) fail.0 in
    recovered s (watch now a) as' c (kept ∙ same) searching fail.1 (omega arith) online

-- A lost connection comes back: while the supervisor searches, any number of refused or failed attempts
-- that stays below the schedule's bound of 1024, and then one that the server welcomes with a
-- connection that is online, end with that connection, which can send, one reconnection more, the
-- schedule at its start, and the supervisor running.
pub watch_all-live :
    (s : Session) (failures : List Attempt) (c : Connection)
    → Searching s
    → All (λ (a : Attempt). is_failure a ≡ true) failures
    → (s.backoff).attempts + length failures < 1024
    → (c.machine).state ≡ ConnectionState.online
    → Recovered s (watch_all s (failures ++ welcomed c ∷ [])) c
watch_all-live s failures c h fail few online = recovered s s failures c refl h fail few online

ended-watch :
    (s : Session) (a : Attempt) → s.supervised ≡ false → watch s a ≡ record s { supervised = false }
unfolding watch
ended-watch s a h =
    ap
      (λ b.
        if not b || s.stopped
        then record s { supervised = false }
        else if is_left s.connection
        then s
        else delayed s a (next_delay s.backoff))
      h

never_again :
    (s : Session) (later : List Attempt)
    → s.supervised ≡ false
    → s.connection ≡ none
    → (watch_all s later).connection ≡ none
unfolding watch_all
never_again s [] h e = e
never_again s (a ∷ as') h e =
    subst (λ (x : Session). (watch_all x as').connection ≡ none) (sym (ended-watch s a h))
      (never_again (record s { supervised = false }) as' refl e)

-- If the server hangs up during the handshake of one reconnection, the client has no connection after
-- any later attempts, those that the server would welcome included.
pub watch_all-hung_up :
    (s : Session) (later : List Attempt)
    → Searching s
    → (s.backoff).attempts < 1024
    → (watch_all s (hung_up ∷ later)).connection ≡ none
unfolding watch_all reconnect
watch_all-hung_up s later h few =
    subst (λ (x : Session). (watch_all x later).connection ≡ none)
      (sym (watch-reconnect s hung_up h few)) (never_again _ later refl refl)
