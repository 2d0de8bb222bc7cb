-- ===== src/Extensions.antt =====
-- The cache of database extensions that were found unavailable: src/server.rs,
-- `ExtensionUnavailableCache`. A time is an `Instant` in nanoseconds.
pub mod Calls
pub mod Freshness
mod Tests
use postgres_mcp.Prelude.{
  ℕ, ◌-◌, max, Bool, true, false, not, ◌&&◌, Option, none, some, List, [], ◌∷◌, if◌then◌else◌, leb,
  nat_eq, Eq, Text, codes, length, lookup, insert, remove, retain, is_some, refl, ◌↔◌, ◌≡◌,
}

pub data ExtensionCapability : Type 0 where
  hypopg : ExtensionCapability
  pg_stat_statements : ExtensionCapability

unfoldable pub extension_name : ExtensionCapability → Text
extension_name hypopg = codes "hypopg"
extension_name pg_stat_statements = codes "pg_stat_statements"

abbrev pub is_capability : ExtensionCapability → ExtensionCapability → Bool
is_capability hypopg hypopg = true
is_capability hypopg pg_stat_statements = false
is_capability pg_stat_statements hypopg = false
is_capability pg_stat_statements pg_stat_statements = true

pub is_capability_iff : (c d : ExtensionCapability) → (is_capability c d ≡ true) ↔ (c ≡ d)
is_capability_iff hypopg hypopg = (λ h. refl, λ h. refl)
is_capability_iff hypopg pg_stat_statements = (λ h. absurd (cc), λ h. absurd (cc))
is_capability_iff pg_stat_statements hypopg = (λ h. absurd (cc), λ h. absurd (cc))
is_capability_iff pg_stat_statements pg_stat_statements = (λ h. refl, λ h. refl)

instance abbrev pub capability_Eq : Eq ExtensionCapability
capability_Eq = record { same = is_capability; decides = is_capability_iff }

pub record ExtensionUnavailableStatus : Type 0 where
  pub guard_reason : Text
  pub message : Text

pub record TimedUnavailableStatus : Type 0 where
  pub guard_reason : Text
  pub message : Text
  pub recorded_at : ℕ

abbrev pub Entries : Type 0
Entries = List (ExtensionCapability × TimedUnavailableStatus)

pub record ExtensionUnavailableCache : Type 0 where
  pub poisoned : Bool
  pub ttl : ℕ
  pub max_entries : ℕ
  pub entries : Entries

unfoldable pub new_cache : ℕ → ℕ → ExtensionUnavailableCache
new_cache ttl max_entries = record {
  poisoned = false;
  ttl = ttl;
  max_entries = max max_entries 1;
  entries = [];
}

-- `duration_since` stops at zero.
unfoldable pub prune_unavailable_entries : ℕ → ℕ → Entries → Entries
prune_unavailable_entries ttl now m =
    if nat_eq ttl 0 then [] else retain (λ s. leb (now - s.recorded_at) ttl) m

abbrev pub status_of : Option TimedUnavailableStatus → Option ExtensionUnavailableStatus
status_of none = none
status_of (some s) = some (record { guard_reason = s.guard_reason; message = s.message })

unfoldable pub get_fresh :
    ExtensionCapability
    → ℕ
    → ExtensionUnavailableCache
    → Option ExtensionUnavailableStatus × ExtensionUnavailableCache
unfolding prune_unavailable_entries
get_fresh extension now c =
    let kept = prune_unavailable_entries c.ttl now c.entries in
    if c.poisoned
    then (none, c)
    else (status_of (lookup extension kept), record c { entries = kept })

unfoldable pub record_unavailable :
    ExtensionCapability → Text → Text → ℕ → ExtensionUnavailableCache → ExtensionUnavailableCache
unfolding prune_unavailable_entries
record_unavailable extension guard_reason message now c =
    let kept = prune_unavailable_entries c.ttl now c.entries in
    let status : TimedUnavailableStatus = record {
      guard_reason = guard_reason;
      message = message;
      recorded_at = now;
    } in
    if c.poisoned
    then c
    else if not (is_some (lookup extension kept)) && leb c.max_entries (length kept)
    then record c { entries = kept }
    else record c { entries = insert extension status kept }

unfoldable pub clear_extension :
    ExtensionCapability → ExtensionUnavailableCache → ExtensionUnavailableCache
clear_extension extension c =
    if c.poisoned then c else record c { entries = remove extension c.entries }
