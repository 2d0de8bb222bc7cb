-- ===== src/Sessions/Touches.antt =====
-- The idle timers of the pinned sessions of src/server.rs, step by step: their checks and removals
-- among the calls of other sessions.
use postgres_mcp.Prelude.{
  none, ℕ, ◌+◌, ◌^◌, ◌<◌, ◌≡◌, ◌≢◌, false, Option, some, List, [], ◌∷◌, ◌==◌, Text, text_Eq,
  text_eq_iff, lookup, remove, subst, lookup-insert, lookup-remove, take_at-All, Bool-cases, inl,
  inr, All, All-map, arith,
}
use postgres_mcp.Sessions.{
  PinnedSessionEntry, PinnedSessionRegistry, session_id_of, new_entry, insert_session, get_session,
  touch, open_pinned_session, deadline,
}
use postgres_mcp.Sessions.Calls.{
  Call, opens, touches, closes, fires, checks, removes, step, run, opened_by, touch_cases,
  close_cases, fire_cases, check_cases, remove_cases,
}
use postgres_mcp.Sessions.Validity.{IsValid, IdsLeft, next_id_unused, step-IsValid, next_id-step}
use postgres_mcp.Sessions.Timers.{
  Firing, Harmless, IsEarlier, IsEarlier-Harmless, Harmless-not_due, get_session-touched,
}

-- The call is not a touch or a close of the session, and as a timer it is one of those that are
-- allowed.
abbrev pub Aside : Text → (Firing → Type 0) → ℕ × Call → Type 0
Aside id Allowed (now, opens session pid ttl) = Unit
Aside id Allowed (now, touches other keyword) = other ≢ id
Aside id Allowed (now, closes other) = other ≢ id
Aside id Allowed (now, fires other generation) =
    Allowed (record { session_id = other; generation = generation; at = now })
Aside id Allowed (now, checks other generation) =
    Allowed (record { session_id = other; generation = generation; at = now })
Aside id Allowed (now, removes index) = Unit

Aside-map :
    (id : Text) (P Q : Firing → Type 0)
    → ((f : Firing) → P f → Q f)
    → (c : ℕ × Call) → Aside id P c
    → Aside id Q c
Aside-map id P Q f (now, opens session pid ttl) h = h
Aside-map id P Q f (now, touches other keyword) h = h
Aside-map id P Q f (now, closes other) h = h
Aside-map id P Q f (now, fires other generation) h = f _ h
Aside-map id P Q f (now, checks other generation) h = f _ h
Aside-map id P Q f (now, removes index) h = h

-- A removal that waits for another session.
abbrev pub Elsewhere : Text → Text × PinnedSessionEntry → Type 0
Elsewhere id (k, e) = k ≢ id

abbrev Kept : Text → PinnedSessionEntry → PinnedSessionRegistry → Type 0
Kept id e r = (lookup id r.entries ≡ some e) × All (Elsewhere id) r.expiring

differs : (a b : Text) → a ≢ b → (a == b) ≡ false
differs a b h = elim (Bool-cases (a == b)) [
  | inl same ↦ absurd (h ((text_eq_iff a b).0 same))
  | inr other ↦ other
]

listed :
    (id : Text) (e : PinnedSessionEntry) (r : PinnedSessionRegistry)
    → IsValid r
    → lookup id r.entries ≡ some e
    → get_session id r ≡ some e
unfolding get_session
listed id e r v h = ground (arith, v.sound, h)

dropped_other :
    (id other : Text) (e : PinnedSessionEntry) (r : PinnedSessionRegistry)
    → other ≢ id
    → lookup id r.entries ≡ some e
    → lookup id (remove other r.entries) ≡ some e
dropped_other id other e r h k =
    ground (arith, lookup-remove other id r.entries, differs other id h, k)

opens-Kept :
    (id : Text) (e : PinnedSessionEntry) (session pid ttl now : ℕ) (r : PinnedSessionRegistry)
    → IsValid r
    → r.next_id < 2 ^ 64
    → Kept id e r
    → Kept id e (step r (now, opens session pid ttl))
unfolding step open_pinned_session insert_session
opens-Kept id e session pid ttl now r v lt h = (
  ground (
    arith,
    lookup-insert new id (new_entry new session pid ttl now) r.entries,
    differs new id fresh,
    v.sound,
    h.0,
  ),
  h.1,
)
  where
    new : Text
    new = session_id_of r.next_id

    fresh : new ≢ id
    fresh same =
        let unused = subst (λ k. lookup k r.entries ≡ none) same (next_id_unused r v lt) in
        absurd (ground (arith, unused, h.0))

step-Kept :
    (id : Text) (e : PinnedSessionEntry) (now : ℕ) (c : Call) (r : PinnedSessionRegistry)
    → IsValid r
    → r.next_id + opened_by c < 2 ^ 64
    → Aside id (Harmless id e) (now, c)
    → Kept id e r
    → Kept id e (step r (now, c))
step-Kept id e now (opens session pid ttl) r v lt a h =
    opens-Kept id e session pid ttl now r v (omega arith) h
step-Kept id e now (touches other keyword) r v lt a h =
    touch_cases (Kept id e) r now other h keyword (λ g q. (
      ground
          (arith, lookup-insert other id (touch now keyword g) r.entries, differs other id a, h.0),
      h.1,
    ))
step-Kept id e now (closes other) r v lt a h =
    close_cases (Kept id e) r now other h (λ g q. (dropped_other id other e r a h.0, h.1))
step-Kept id e now (fires other generation) r v lt a h =
    fire_cases (Kept id e) r now other h generation (λ g q d. (
      dropped_other id other e r
          (λ same. Harmless-not_due id e g _ r (listed id e r v h.0) a same q d) h.0,
      h.1,
    ))
step-Kept id e now (checks other generation) r v lt a h =
    check_cases (Kept id e) r now other h generation
      (λ g q d. (h.0, (λ same. Harmless-not_due id e g _ r (listed id e r v h.0) a same q d, h.1)))
step-Kept id e now (removes index) r v lt a h =
    remove_cases (Kept id e) r now index h (λ other g rest t.
      let (apart, others) = take_at-All (Elsewhere id) index r.expiring (other, g) rest t h.1 in
      ((h.0, others), λ g' q. (dropped_other id other e r apart h.0, others)))

run-Kept :
    (id : Text) (e : PinnedSessionEntry) (cs : List (ℕ × Call)) (r : PinnedSessionRegistry)
    → IsValid r
    → IdsLeft r cs
    → All (Aside id (Harmless id e)) cs
    → Kept id e r
    → get_session id (run r cs) ≡ some e
unfolding run
run-Kept id e [] r v lt a h = listed id e r v h.0
run-Kept id e ((now, c) ∷ cs) r v lt a h =
    run-Kept id e cs (step r (now, c)) (step-IsValid now c r v (omega arith))
      (omega (arith, next_id-step now c r (omega arith))) a.1
      (step-Kept id e now c r v (omega arith) a.0 h)

found :
    (id : Text) (e : PinnedSessionEntry) (r : PinnedSessionRegistry)
    → get_session id r ≡ some e
    → lookup id r.entries ≡ some e
unfolding get_session
found id e r h = ground (arith, h)

-- On a valid table with session ids left to give out, a touch that does not wrap the generation
-- voids the timers that were set before it, where none of them waits for its removal as the touch
-- comes: under any later calls but a touch or a close of the session, with the checks and the
-- removals of timers one by one among them, the session stays listed, as the touch left it, while
-- its own new timer has not checked at the end of its idle time.
pub touch_survives :
    (id : Text) (now : ℕ) (keyword : Option Text) (e : PinnedSessionEntry) (cs : List (ℕ × Call))
    (r : PinnedSessionRegistry)
    → IsValid r
    → IdsLeft r cs
    → get_session id r ≡ some e
    → e.generation + 1 < 2 ^ 64
    → All (Elsewhere id) r.expiring
    → All (Aside id (IsEarlier id e.generation (deadline now e.idle_ttl))) cs
    → get_session id (run (step r (now, touches id keyword)) cs) ≡ some (touch now keyword e)
unfolding step
touch_survives id now keyword e cs r v lt h small none_waits a =
    run-Kept id (touch now keyword e) cs r' (step-IsValid now call r v (omega arith))
      (omega (arith, next_id-step now call r (omega arith)))
      (All-map (Aside-map id _ _ (λ f. IsEarlier-Harmless id now keyword e f small)) cs a)
      (
        found id (touch now keyword e) r' (get_session-touched id now keyword e r h),
        touch_cases (λ q. All (Elsewhere id) q.expiring) r now id none_waits keyword
            (λ g q. none_waits),
      )
  where
    call : Call
    call = touches id keyword

    r' : PinnedSessionRegistry
    r' = step r (now, call)
