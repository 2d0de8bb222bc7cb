-- ===== src/Startup/Fences.antt =====
-- The fence tokens of src/startup_coordination.rs.
use postgres_mcp.Prelude.{
  ℕ, ◌+◌, ◌≤◌, ◌<◌, ◌≡◌, ◌≢◌, refl, ◌∙◌, Bool, true, false, ◌||◌, some, List, [], ◌∷◌, ◌==◌, leb,
  Text, text_Eq, text_eq_iff, lookup, lookup-insert_self, All, Bool-cases, inl, inr, arith,
}
use postgres_mcp.Startup.Lease.{
  Lease, Leases, Step, acquires, beats, releases, step, run, try_acquire_lease, heartbeat_once,
  is_of, granted, renewed,
}

abbrev pub is_release : Step → Bool
is_release (acquires owner) = false
is_release (beats owner fence) = false
is_release (releases owner fence) = true

-- A later row of the same lease: its fence is no lower, and higher where the owner is another one.
pub record Follows (l l' : Lease) : Type 0 where
  pub grows : l.fence_token ≤ l'.fence_token
  pub rises : l'.owner_id ≢ l.owner_id → l.fence_token < l'.fence_token

abbrev FollowedIn : Text → Lease → Leases → Type 0
FollowedIn key l m = (l' : Lease) × (lookup key m ≡ some l') × Follows l l'

Follows-trans : (a b c : Lease) → Follows a b → Follows b c → Follows a c
Follows-trans a b c f g = record {
  grows = omega (arith, f.grows, g.grows);
  rises = λ other. elim (Bool-cases (b.owner_id == a.owner_id)) [
    | inl same ↦
        let ba : b.owner_id ≡ a.owner_id = (text_eq_iff b.owner_id a.owner_id).0 same in
        omega (arith, f.grows, g.rises (λ e. other (e ∙ ba)))
    | inr apart ↦ omega (
      arith,
      f.rises (λ e. absurd (cc (apart, (text_eq_iff b.owner_id a.owner_id).1 e))),
      g.grows,
    )
  ];
}

same_row : (key : Text) (l : Lease) (m : Leases) → lookup key m ≡ some l → FollowedIn key l m
same_row key l m h = (l, h, record { grows = omega arith; rises = λ other. absurd (other refl) })

step-Follows :
    (key : Text) (ttl : ℕ) (l : Lease) (m : Leases) (now : ℕ) (s : Step)
    → lookup key m ≡ some l
    → is_release s ≡ false
    → FollowedIn key l (step key ttl m (now, s))
unfolding step try_acquire_lease heartbeat_once
step-Follows key ttl l m now (acquires owner) h k =
    elim (Bool-cases (leb l.lease_expires_at now || l.owner_id == owner)) [
      | inl free ↦ (
        granted owner (l.fence_token + 1) ttl now,
        ground
            (arith, h, free, lookup-insert_self key (granted owner (l.fence_token + 1) ttl now) m),
        record { grows = omega arith; rises = λ other. omega arith },
      )
      | inr busy ↦ (
        l,
        ground (arith, h, busy),
        record { grows = omega arith; rises = λ other. absurd (other refl) },
      )
    ]
step-Follows key ttl l m now (beats owner fence) h k = elim (Bool-cases (is_of owner fence l)) [
  | inl own ↦ (
    renewed ttl now l,
    ground (arith, h, own, lookup-insert_self key (renewed ttl now l) m),
    record { grows = omega arith; rises = λ other. absurd (other refl) },
  )
  | inr other ↦
      (l, ground (arith, h, other), record { grows = omega arith; rises = λ o. absurd (o refl) })
]
step-Follows key ttl l m now (releases owner fence) h k = absurd (cc)

-- While no process releases the lease, its fence never falls, and whenever the lease has passed
-- to another owner its fence is higher than the earlier owner's.
pub fence_orders_owners :
    (key : Text) (ttl : ℕ) (l : Lease) (ss : List (ℕ × Step)) (m : Leases)
    → lookup key m ≡ some l
    → All (λ (c : ℕ × Step). is_release c.1 ≡ false) ss
    → (l' : Lease) × (lookup key (run key ttl m ss) ≡ some l') × Follows l l'
unfolding run
fence_orders_owners key ttl l [] m h k = same_row key l m h
fence_orders_owners key ttl l ((now, s) ∷ ss) m h k =
    let (mid, at_mid, first) = step-Follows key ttl l m now s h k.0 in
    let (last, at_last, rest) =
      fence_orders_owners key ttl mid ss (step key ttl m (now, s)) at_mid k.1 in
    (last, at_last, Follows-trans l mid last first rest)
