-- ===== src/Startup/Exclusion.antt =====
-- The lease of src/startup_coordination.rs between processes that share one database.
use postgres_mcp.Prelude.{
  ℕ, ◌+◌, ◌<◌, ◌≡◌, ◌≢◌, ap, Bool, true, false, none, some, List, [], ◌∷◌, Text, text_Eq,
  text_eq_iff, lookup, lookup-insert_self, lookup-remove_self, All, Option-cases, inl, inr, arith,
}
use postgres_mcp.Startup.Lease.{
  Lease, Leases, Step, acquires, beats, releases, owner_of, step, run, try_acquire_lease,
  heartbeat_once, release_lease, is_held, is_of, expiry, granted, renewed,
}

-- Another owner's statement, before the given time.
abbrev pub ByOthers : Text → ℕ → ℕ × Step → Type 0
ByOthers owner over (now, s) = (owner_of s ≢ owner) × (now < over)

step-others :
    (key : Text) (ttl : ℕ) (l : Lease) (m : Leases) (now : ℕ) (s : Step)
    → lookup key m ≡ some l
    → owner_of s ≢ l.owner_id
    → now < l.lease_expires_at
    → lookup key (step key ttl m (now, s)) ≡ some l
unfolding step try_acquire_lease heartbeat_once release_lease
step-others key ttl l m now (acquires owner) h o early =
    ground (arith, h, text_eq_iff l.owner_id owner, o, early)
step-others key ttl l m now (beats owner fence) h o early =
    ground (arith, h, text_eq_iff l.owner_id owner, o)
step-others key ttl l m now (releases owner fence) h o early =
    ground (arith, h, text_eq_iff l.owner_id owner, o)

-- Until a lease expires, no statement of another owner takes, renews or drops it.
pub live_lease_is_exclusive :
    (key : Text) (ttl : ℕ) (l : Lease) (ss : List (ℕ × Step)) (m : Leases)
    → lookup key m ≡ some l
    → All (ByOthers l.owner_id l.lease_expires_at) ss
    → lookup key (run key ttl m ss) ≡ some l
unfolding run
live_lease_is_exclusive key ttl l [] m h o = h
live_lease_is_exclusive key ttl l ((now, s) ∷ ss) m h o =
    live_lease_is_exclusive key ttl l ss (step key ttl m (now, s))
      (step-others key ttl l m now s h o.0.0 o.0.1) o.1

step-renews :
    (key : Text) (ttl : ℕ) (l : Lease) (at : ℕ) (m : Leases)
    → lookup key m ≡ some l
    → lookup key (step key ttl m (at, beats l.owner_id l.fence_token)) ≡ some (renewed ttl at l)
unfolding step heartbeat_once
step-renews key ttl l at m h =
    ground
      (arith, h, text_eq_iff l.owner_id l.owner_id, lookup-insert_self key (renewed ttl at l) m)

-- A heartbeat of the row's owner and fence, also one that comes late, holds the lease for a whole
-- lifetime from then on, whatever the other owners do meanwhile.
pub heartbeat_holds :
    (key : Text) (ttl : ℕ) (l : Lease) (at now : ℕ) (ss : List (ℕ × Step)) (m : Leases)
    → lookup key m ≡ some l
    → All (ByOthers l.owner_id (expiry ttl at)) ss
    → now < expiry ttl at
    → is_held key l.owner_id l.fence_token now
        (run key ttl (step key ttl m (at, beats l.owner_id l.fence_token)) ss)
      ≡ true
unfolding is_held
heartbeat_holds key ttl l at now ss m h o early = ground (
  arith,
  live_lease_is_exclusive key ttl (renewed ttl at l) ss
      (step key ttl m (at, beats l.owner_id l.fence_token)) (step-renews key ttl l at m h) o,
  text_eq_iff l.owner_id l.owner_id,
)

-- The row is the owner's, at the fence.
abbrev pub has_fence : Text → Text → ℕ → Leases → Bool
has_fence key owner fence m = elim (lookup key m) [ none ↦ false | some l ↦ is_of owner fence l ]

step-lost :
    (key : Text) (ttl : ℕ) (owner : Text) (fence : ℕ) (m : Leases) (now : ℕ) (s : Step)
    → has_fence key owner fence m ≡ false
    → s ≢ acquires owner
    → has_fence key owner fence (step key ttl m (now, s)) ≡ false
unfolding step try_acquire_lease heartbeat_once release_lease
step-lost key ttl owner fence m now (acquires other) h a = elim (Option-cases (lookup key m)) [
  | inl e ↦ ground (
    arith,
    e,
    text_eq_iff other owner,
    not_same a,
    lookup-insert_self key (granted other 1 ttl now) m,
  )
  | inr (l, e) ↦ ground (
    arith,
    e,
    h,
    text_eq_iff other owner,
    not_same a,
    lookup-insert_self key (granted other (l.fence_token + 1) ttl now) m,
  )
]
  where
    not_same : acquires other ≢ acquires owner → other ≢ owner
    not_same n e = n (ap acquires e)
step-lost key ttl owner fence m now (beats other token) h a = elim (Option-cases (lookup key m)) [
  | inl e ↦ ground (arith, e)
  | inr (l, e) ↦ ground (arith, e, h, lookup-insert_self key (renewed ttl now l) m)
]
step-lost key ttl owner fence m now (releases other token) h a =
    elim (Option-cases (lookup key m)) [
      | inl e ↦ ground (arith, e)
      | inr (l, e) ↦ ground (arith, e, h, lookup-remove_self key m)
    ]

-- A guard that has lost its row never holds it again, whatever all the processes do, its own
-- heartbeats and releases included: only an acquisition under its own id could bring it back.
pub lost_stays_lost :
    (key : Text) (ttl : ℕ) (owner : Text) (fence : ℕ) (ss : List (ℕ × Step)) (m : Leases)
    → has_fence key owner fence m ≡ false
    → All (λ (c : ℕ × Step). c.1 ≢ acquires owner) ss
    → has_fence key owner fence (run key ttl m ss) ≡ false
unfolding run
lost_stays_lost key ttl owner fence [] m h a = h
lost_stays_lost key ttl owner fence ((now, s) ∷ ss) m h a =
    lost_stays_lost key ttl owner fence ss (step key ttl m (now, s))
      (step-lost key ttl owner fence m now s h a.0) a.1
