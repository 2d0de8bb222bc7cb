-- ===== src/Sessions/Timers.antt =====
-- The idle timers of the pinned sessions of src/server.rs.
use postgres_mcp.Prelude.{
  ℕ, ◌+◌, ◌%◌, ◌^◌, ◌≤◌, ◌<◌, ◌≡◌, ◌≢◌, refl, subst, true, false, Option, none, some, List, [], ◌∷◌,
  ◌==◌, Text, text_Eq, text_eq_iff, lookup, lookup-insert_self, lookup-remove, lookup-remove_self,
  Bool-cases, inl, inr, ◌⊎◌, All, All-map, arith,
}
use postgres_mcp.Sessions.{
  PinnedSessionEntry, PinnedSessionRegistry, get_session, remove_session, touch,
  touch_pinned_session, expire_if_generation_matches, due, deadline, snapshot,
}
use postgres_mcp.Sessions.Ids.{session-touch}
use postgres_mcp.Sessions.Calls.{step, dropped, fire_cases}

-- A timer that fires: the session and the generation that it was given, and the time.
pub record Firing : Type 0 where
  pub session_id : Text
  pub generation : ℕ
  pub at : ℕ

unfoldable pub fire_all : PinnedSessionRegistry → List Firing → PinnedSessionRegistry
fire_all r [] = r
fire_all r (f ∷ fs) = fire_all (expire_if_generation_matches f.session_id f.generation f.at r).1 fs

-- The timer is another session's, is from another generation, or fires too early.
abbrev pub Harmless : Text → PinnedSessionEntry → Firing → Type 0
Harmless id e f =
    (f.session_id ≢ id) ⊎ (f.generation ≢ e.generation) ⊎ (f.at < e.expires_at_unix_ms)

get_session-dropped :
    (id : Text) (e e' : PinnedSessionEntry) (other : Text) (r : PinnedSessionRegistry)
    → get_session id r ≡ some e
    → (other == id) ≡ false
    → get_session id (dropped other e' r) ≡ some e
unfolding get_session
get_session-dropped id e e' other r h k = ground (arith, lookup-remove other id r.entries, h, k)

pub Harmless-not_due :
    (id : Text) (e e' : PinnedSessionEntry) (f : Firing) (r : PinnedSessionRegistry)
    → get_session id r ≡ some e
    → Harmless id e f
    → f.session_id ≡ id
    → lookup f.session_id r.entries ≡ some e'
    → due f.generation f.at e' ≡ true
    → ⊥
unfolding get_session due
Harmless-not_due id e e' f r h k same g d = not_due k same_entry
  where
    same_entry : e' ≡ e
    same_entry = ground (arith, h, g, same)

    not_due : Harmless id e f → e' ≡ e → ⊥
    not_due (inl other) q = other same
    not_due (inr (inl other)) q =
        let d' : due f.generation f.at e ≡ true = subst (λ x. due f.generation f.at x ≡ true) q d in
        ground (arith, d', other)
    not_due (inr (inr early)) q =
        let d' : due f.generation f.at e ≡ true = subst (λ x. due f.generation f.at x ≡ true) q d in
        ground (arith, d', early)

-- A due session is closed and leaves the table.
expire_due :
    (id : Text) (generation now : ℕ) (e : PinnedSessionEntry) (r : PinnedSessionRegistry)
    → get_session id r ≡ some e
    → due generation now e ≡ true
    → let (reported, r') = expire_if_generation_matches id generation now r in
      (reported ≡ some (snapshot e))
      × (get_session id r' ≡ none)
      × (r'.closed ≡ e.session ∷ r.closed)
unfolding expire_if_generation_matches remove_session get_session
expire_due id generation now e r h d = (
  ground (arith, h, d),
  ground (arith, h, d, lookup-remove_self id r.entries),
  ground (arith, h, d),
)

expire-Harmless :
    (id : Text) (e : PinnedSessionEntry) (f : Firing) (r : PinnedSessionRegistry)
    → get_session id r ≡ some e
    → Harmless id e f
    → get_session id (expire_if_generation_matches f.session_id f.generation f.at r).1 ≡ some e
unfolding step
expire-Harmless id e f r h k =
    fire_cases (λ q. get_session id q ≡ some e) r f.at f.session_id h f.generation
      (λ e' g d. elim (Bool-cases (f.session_id == id)) [
        | inl same ↦ absurd (Harmless-not_due id e e' f r h k ((text_eq_iff _ id).0 same) g d)
        | inr other ↦ get_session-dropped id e e' f.session_id r h other
      ])

-- A listed session stays as it is while only harmless timers fire.
Harmless-keeps :
    (id : Text) (e : PinnedSessionEntry) (fs : List Firing) (r : PinnedSessionRegistry)
    → get_session id r ≡ some e
    → All (Harmless id e) fs
    → get_session id (fire_all r fs) ≡ some e
unfolding fire_all
Harmless-keeps id e [] r h k = h
Harmless-keeps id e (f ∷ fs) r h k =
    Harmless-keeps id e fs (expire_if_generation_matches f.session_id f.generation f.at r).1
      (expire-Harmless id e f r h k.0) k.1

-- The timer was set before the touch of a session of that generation, is another session's, or
-- fires before the touched session's idle time is over.
abbrev pub IsEarlier : Text → ℕ → ℕ → Firing → Type 0
IsEarlier id generation over f = (f.session_id ≢ id) ⊎ (f.generation ≤ generation) ⊎ (f.at < over)

touched_fields :
    (now : ℕ) (keyword : Option Text) (e : PinnedSessionEntry)
    → ((touch now keyword e).generation ≡ (e.generation + 1) % 2 ^ 64)
      × ((touch now keyword e).expires_at_unix_ms ≡ deadline now e.idle_ttl)
unfolding touch
touched_fields now none e = (refl, refl)
touched_fields now (some keyword) e = (refl, refl)

pub IsEarlier-Harmless :
    (id : Text) (now : ℕ) (keyword : Option Text) (e : PinnedSessionEntry) (f : Firing)
    → e.generation + 1 < 2 ^ 64
    → IsEarlier id e.generation (deadline now e.idle_ttl) f
    → Harmless id (touch now keyword e) f
IsEarlier-Harmless id now keyword e f lt (inl other) = inl other
IsEarlier-Harmless id now keyword e f lt (inr (inl older)) =
    inr (inl (omega (arith, (touched_fields now keyword e).0)))
IsEarlier-Harmless id now keyword e f lt (inr (inr early)) =
    inr (inr (omega (arith, (touched_fields now keyword e).1)))

pub get_session-touched :
    (id : Text) (now : ℕ) (keyword : Option Text) (e : PinnedSessionEntry)
    (r : PinnedSessionRegistry)
    → get_session id r ≡ some e
    → get_session id (touch_pinned_session id keyword now r).1 ≡ some (touch now keyword e)
unfolding get_session touch_pinned_session
get_session-touched id now keyword e r h =
    ground (arith, lookup-insert_self id (touch now keyword e) r.entries, h)

-- A touched session stays listed while timers fire that were set before the touch, or too early,
-- where no other call comes between the check and the removal of a timer.
touched_stays :
    (id : Text) (now : ℕ) (keyword : Option Text) (e : PinnedSessionEntry) (fs : List Firing)
    (r : PinnedSessionRegistry)
    → get_session id r ≡ some e
    → e.generation + 1 < 2 ^ 64
    → All (IsEarlier id e.generation (deadline now e.idle_ttl)) fs
    → get_session id (fire_all (touch_pinned_session id keyword now r).1 fs)
      ≡ some (touch now keyword e)
touched_stays id now keyword e fs r h lt k =
    Harmless-keeps id (touch now keyword e) fs (touch_pinned_session id keyword now r).1
      (get_session-touched id now keyword e r h)
      (All-map (λ f. IsEarlier-Harmless id now keyword e f lt) fs k)

-- The timer of a session's last touch, when it fires at the end of the idle time or later, closes
-- the connection and takes the session from the table, whatever timers that are another session's,
-- older or too early fired before it, each with no other call between its check and its removal.
pub idle_expires :
    (id : Text) (now later : ℕ) (keyword : Option Text) (e : PinnedSessionEntry) (fs : List Firing)
    (r : PinnedSessionRegistry)
    → get_session id r ≡ some e
    → e.generation + 1 < 2 ^ 64
    → All (IsEarlier id e.generation (deadline now e.idle_ttl)) fs
    → deadline now e.idle_ttl ≤ later
    → let r' = fire_all (touch_pinned_session id keyword now r).1 fs in
      let (reported, r'') = expire_if_generation_matches id (e.generation + 1) later r' in
      (reported ≡ some (snapshot (touch now keyword e)))
      × (get_session id r'' ≡ none)
      × (r''.closed ≡ e.session ∷ r'.closed)
unfolding due touch
idle_expires id now later keyword e fs r h lt k over = rw (session-touch now keyword e) at (
    expire_due id (e.generation + 1) later (touch now keyword e)
      (fire_all (touch_pinned_session id keyword now r).1 fs)
      (touched_stays id now keyword e fs r h lt k) is_due)
  where
    is_due : due (e.generation + 1) later (touch now keyword e) ≡ true
    is_due = ground (arith, touched_fields now keyword e)
