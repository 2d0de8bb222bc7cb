-- ===== src/Sessions.antt =====
-- Pinned database sessions: src/server.rs, `PinnedSessionEntry`, `PinnedSessionRegistry` and the
-- methods of `PostgresMcp` on them. An entry is shared, so a touch changes the table's entry. The
-- connection is a number; the calls of `PinnedDbSession::close` are logged. `timers` is the log of
-- the tasks that `schedule_pinned_session_expiry` spawns, those that have ended included: what a
-- task does as it wakes is `expire_if_generation_matches`, or its two sections one by one. A
-- duration is a number of nanoseconds.
pub mod Calls
pub mod Ids
pub mod Validity
pub mod Timers
pub mod Touches
pub mod Openness
mod Tests
use postgres_mcp.Prelude.{
  ℕ, ◌+◌, ◌-◌, ◌/◌, ◌%◌, ◌^◌, min, Bool, true, false, not, ◌&&◌, ◌||◌, Option, none, some, List, [],
  ◌∷◌, ◌++◌, ◌==◌, if◌then◌else◌, ltb, nat_eq, Text, text_Eq, codes, lookup, insert, remove,
  hex_padded, to_ascii_uppercase,
}

pub record PinnedSessionEntry : Type 0 where
  pub session_id : Text
  pub session : ℕ
  pub backend_pid : ℕ
  pub created_at_unix_ms : ℕ
  pub idle_ttl : ℕ
  pub last_used_unix_ms : ℕ
  pub expires_at_unix_ms : ℕ
  pub generation : ℕ
  pub transaction_open : Bool
  pub last_statement_keyword : Option Text
  pub keyword_poisoned : Bool

pub record PinnedSessionSnapshot : Type 0 where
  pub session_id : Text
  pub backend_pid : ℕ
  pub created_at_unix_ms : ℕ
  pub last_used_unix_ms : ℕ
  pub expires_at_unix_ms : ℕ
  pub idle_ttl_ms : ℕ
  pub transaction_open : Bool
  pub last_statement_keyword : Option Text

abbrev pub u64_max : ℕ
u64_max = 18_446_744_073_709_551_615

unfoldable pub snapshot : PinnedSessionEntry → PinnedSessionSnapshot
snapshot e = record {
  session_id = e.session_id;
  backend_pid = e.backend_pid;
  created_at_unix_ms = e.created_at_unix_ms;
  last_used_unix_ms = e.last_used_unix_ms;
  expires_at_unix_ms = e.expires_at_unix_ms;
  idle_ttl_ms = min (e.idle_ttl / 1_000_000) u64_max;
  transaction_open = e.transaction_open;
  last_statement_keyword = if e.keyword_poisoned then none else e.last_statement_keyword;
}

-- `now.saturating_add(idle_ttl.as_millis() as u64)`
abbrev pub deadline : ℕ → ℕ → ℕ
deadline now idle_ttl = min (now + idle_ttl / 1_000_000 % 2 ^ 64) u64_max

unfoldable pub transaction_after : Text → Bool → Bool
transaction_after keyword was_open =
    if keyword == codes "begin" || keyword == codes "start"
    then true
    else if keyword == codes "commit" || keyword == codes "rollback"
    then false
    else was_open

abbrev note_keyword : Option Text → PinnedSessionEntry → PinnedSessionEntry
note_keyword none e = e
note_keyword (some keyword) e = record e {
  transaction_open = transaction_after keyword e.transaction_open;
  last_statement_keyword =
      if e.keyword_poisoned then e.last_statement_keyword else some (to_ascii_uppercase keyword);
}

unfoldable pub touch : ℕ → Option Text → PinnedSessionEntry → PinnedSessionEntry
touch now keyword e = note_keyword keyword (record e {
  last_used_unix_ms = now;
  expires_at_unix_ms = deadline now e.idle_ttl;
  generation = (e.generation + 1) % 2 ^ 64;
})

-- A timer of `schedule_pinned_session_expiry`: what it was given, and how long it sleeps.
pub record Timer : Type 0 where
  pub session_id : Text
  pub generation : ℕ
  pub ttl : ℕ

pub record PinnedSessionRegistry : Type 0 where
  pub poisoned : Bool
  pub entries : List (Text × PinnedSessionEntry)
  pub next_id : ℕ
  pub closed : List ℕ
  pub timers : List Timer
  -- The timers between their check and their removal: the session id and the checked entry.
  pub expiring : List (Text × PinnedSessionEntry)

unfoldable pub empty_registry : PinnedSessionRegistry
empty_registry = record {
  poisoned = false;
  entries = [];
  next_id = 1;
  closed = [];
  timers = [];
  expiring = [];
}

unfoldable pub session_id_of : ℕ → Text
session_id_of raw_id = codes "ps_" ++ hex_padded 16 raw_id

unfoldable pub new_entry : Text → ℕ → ℕ → ℕ → ℕ → PinnedSessionEntry
new_entry session_id session backend_pid idle_ttl now = record {
  session_id = session_id;
  session = session;
  backend_pid = backend_pid;
  created_at_unix_ms = now;
  idle_ttl = idle_ttl;
  last_used_unix_ms = now;
  expires_at_unix_ms = deadline now idle_ttl;
  generation = 0;
  transaction_open = false;
  last_statement_keyword = none;
  keyword_poisoned = false;
}

-- `insert`: the entry, and the table; a poisoned lock drops the entry after its snapshot.
unfoldable pub insert_session :
    ℕ → ℕ → ℕ → ℕ → PinnedSessionRegistry → PinnedSessionEntry × PinnedSessionRegistry
insert_session session backend_pid idle_ttl now r =
    let id = session_id_of r.next_id in
    let e = new_entry id session backend_pid idle_ttl now in
    (
      e,
      record r {
        entries = if r.poisoned then r.entries else insert id e r.entries;
        next_id = (r.next_id + 1) % 2 ^ 64;
      },
    )

unfoldable pub get_session : Text → PinnedSessionRegistry → Option PinnedSessionEntry
get_session id r = if r.poisoned then none else lookup id r.entries

unfoldable pub remove_session : Text → PinnedSessionRegistry → PinnedSessionRegistry
remove_session id r = if r.poisoned then r else record r { entries = remove id r.entries }

abbrev pub schedule : Text → ℕ → ℕ → PinnedSessionRegistry → PinnedSessionRegistry
schedule session_id generation ttl r = record r {
  timers = record { session_id = session_id; generation = generation; ttl = ttl } ∷ r.timers;
}

-- `open_pinned_session` over a connection that the database engine has opened.
unfoldable pub open_pinned_session :
    ℕ → ℕ → ℕ → ℕ → PinnedSessionRegistry → PinnedSessionSnapshot × PinnedSessionRegistry
open_pinned_session session backend_pid idle_ttl now r =
    let (e, r') = insert_session session backend_pid idle_ttl now r in
    (snapshot e, schedule e.session_id 0 idle_ttl r')

-- With no other thread between the lookup and the touch.
unfoldable pub touch_pinned_session :
    Text
    → Option Text
    → ℕ
    → PinnedSessionRegistry
    → Option PinnedSessionSnapshot × PinnedSessionRegistry
touch_pinned_session id keyword now r = elim (get_session id r) [
  | none ↦ (none, r)
  | some e ↦ (
    some (snapshot (touch now keyword e)),
    schedule e.session_id (touch now keyword e).generation e.idle_ttl
        (record r { entries = insert id (touch now keyword e) r.entries }),
  )
]

abbrev pub close_entry : PinnedSessionEntry → PinnedSessionRegistry → PinnedSessionRegistry
close_entry e r = record r { closed = e.session ∷ r.closed }

-- `close`, of the registry and of the server.
unfoldable pub close_pinned_session :
    Text → PinnedSessionRegistry → Option PinnedSessionSnapshot × PinnedSessionRegistry
close_pinned_session id r = elim (get_session id r) [
  | none ↦ (none, r)
  | some e ↦ (some (snapshot e), close_entry e (remove_session id r))
]

-- The entry that a timer would close: its generation is the timer's and its deadline has come.
unfoldable pub due : ℕ → ℕ → PinnedSessionEntry → Bool
due generation now e =
    if not (nat_eq e.generation generation)
    then false
    else if ltb now e.expires_at_unix_ms
    then false
    else true

-- `expire_if_generation_matches` up to its snapshot: the lock is taken for `get` alone.
unfoldable pub expire_check : Text → ℕ → ℕ → PinnedSessionRegistry → Option PinnedSessionEntry
unfolding due
expire_check id generation now r = elim (get_session id r) [
  | none ↦ none
  | some e ↦ if due generation now e then some e else none
]

-- The rest of it, for the entry of the check: `remove` takes the lock again, and the connection is
-- closed if there was an entry to remove.
unfoldable pub expire_remove :
    Text
    → PinnedSessionEntry
    → PinnedSessionRegistry
    → Option PinnedSessionSnapshot × PinnedSessionRegistry
expire_remove id e r = elim (get_session id r) [
  | none ↦ (none, r)
  | some g ↦ (some (snapshot e), close_entry e (remove_session id r))
]

-- With no other thread between the check and the removal.
unfoldable pub expire_if_generation_matches :
    Text → ℕ → ℕ → PinnedSessionRegistry → Option PinnedSessionSnapshot × PinnedSessionRegistry
unfolding expire_check expire_remove
expire_if_generation_matches id generation now r = elim (expire_check id generation now r) [
  | none ↦ (none, r)
  | some e ↦ expire_remove id e r
]

-- A timer that has checked waits for its removal.
unfoldable pub begin_removal :
    Text → Option PinnedSessionEntry → PinnedSessionRegistry → PinnedSessionRegistry
begin_removal id none r = r
begin_removal id (some e) r = record r { expiring = (id, e) ∷ r.expiring }

-- The waiting timer at the index removes.
unfoldable pub finish_removal :
    Option ((Text × PinnedSessionEntry) × List (Text × PinnedSessionEntry))
    → PinnedSessionRegistry
    → PinnedSessionRegistry
unfolding expire_remove
finish_removal none r = r
finish_removal (some ((id, e), rest)) r = (expire_remove id e (record r { expiring = rest })).1
