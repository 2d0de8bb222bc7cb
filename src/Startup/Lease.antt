-- ===== src/Startup/Lease.antt =====
-- The lease table of src/startup_coordination.rs, and its statements on it: `mcp_startup_leases`
-- is a map from `lease_key`, its primary key. A time is a number of microseconds; `now` is what
-- `now()` gives the statement. A fence token has no upper bound here: the database would refuse the
-- statement that takes it beyond 2 ^ 63 - 1.
use postgres_mcp.Prelude.{
  ℕ, ◌+◌, ◌*◌, max, Bool, true, false, ◌&&◌, ◌||◌, Option, none, some, List, [], ◌∷◌, ◌==◌,
  if◌then◌else◌, ltb, leb, nat_eq, Text, text_Eq, lookup, insert, remove,
}

pub record Lease : Type 0 where
  pub owner_id : Text
  pub fence_token : ℕ
  pub lease_expires_at : ℕ
  pub heartbeat_at : ℕ
  pub updated_at : ℕ

abbrev pub Leases : Type 0
Leases = List (Text × Lease)

-- `now() + make_interval(secs => ttl_sec)`
abbrev pub expiry : ℕ → ℕ → ℕ
expiry ttl now = now + max ttl 1 * 1_000_000

abbrev pub granted : Text → ℕ → ℕ → ℕ → Lease
granted owner fence ttl now = record {
  owner_id = owner;
  fence_token = fence;
  lease_expires_at = expiry ttl now;
  heartbeat_at = now;
  updated_at = now;
}

-- `INSERT .. ON CONFLICT (lease_key) DO UPDATE .. WHERE .. RETURNING fence_token`
unfoldable pub try_acquire_lease : Text → ℕ → Text → ℕ → Leases → Option ℕ × Leases
try_acquire_lease key ttl owner now m = elim (lookup key m) [
  | none ↦ (some 1, insert key (granted owner 1 ttl now) m)
  | some l ↦
      if leb l.lease_expires_at now || l.owner_id == owner
      then (some (l.fence_token + 1), insert key (granted owner (l.fence_token + 1) ttl now) m)
      else (none, m)
]

-- `owner_id = {owner_id} AND fence_token = {fence_token}`
abbrev pub is_of : Text → ℕ → Lease → Bool
is_of owner fence l = (l.owner_id == owner) && nat_eq l.fence_token fence

abbrev pub renewed : ℕ → ℕ → Lease → Lease
renewed ttl now l = record l {
  lease_expires_at = expiry ttl now;
  heartbeat_at = now;
  updated_at = now;
}

-- `UPDATE .. WHERE .. RETURNING fence_token`: whether a row came back.
unfoldable pub heartbeat_once : Text → ℕ → Text → ℕ → ℕ → Leases → Bool × Leases
heartbeat_once key ttl owner fence now m = elim (lookup key m) [
  | none ↦ (false, m)
  | some l ↦ if is_of owner fence l then (true, insert key (renewed ttl now l) m) else (false, m)
]

-- The `DELETE` of `release`.
unfoldable pub release_lease : Text → Text → ℕ → Leases → Leases
release_lease key owner fence m = elim (lookup key m) [
  | none ↦ m
  | some l ↦ if is_of owner fence l then remove key m else m
]

-- The `SELECT 1 AS held` of `assert_fence`: whether a row came back.
unfoldable pub is_held : Text → Text → ℕ → ℕ → Leases → Bool
is_held key owner fence now m = elim (lookup key m) [
  | none ↦ false
  | some l ↦ is_of owner fence l && ltb now l.lease_expires_at
]

-- What the processes that share the database do to the lease, one statement after another.
pub data Step : Type 0 where
  acquires : (owner : Text) → Step
  beats : (owner : Text) → (fence : ℕ) → Step
  releases : (owner : Text) → (fence : ℕ) → Step

abbrev pub owner_of : Step → Text
owner_of (acquires owner) = owner
owner_of (beats owner fence) = owner
owner_of (releases owner fence) = owner

unfoldable pub step : Text → ℕ → Leases → ℕ × Step → Leases
step key ttl m (now, acquires owner) = (try_acquire_lease key ttl owner now m).1
step key ttl m (now, beats owner fence) = (heartbeat_once key ttl owner fence now m).1
step key ttl m (now, releases owner fence) = release_lease key owner fence m

unfoldable pub run : Text → ℕ → Leases → List (ℕ × Step) → Leases
unfolding step
run key ttl m [] = m
run key ttl m (s ∷ ss) = run key ttl (step key ttl m s) ss
