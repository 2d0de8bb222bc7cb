-- ===== src/Sessions/Calls.antt =====
-- Sequences of calls on the pinned sessions of src/server.rs, and what the table keeps under them.
use postgres_mcp.Prelude.{
  ℕ, ◌+◌, ◌≡◌, subst, true, false, Option, none, some, List, [], ◌∷◌, Text, text_Eq, lookup, insert,
  remove, take_at, Bool-cases, Option-cases, inl, inr, ◌⊎◌, arith,
}
use postgres_mcp.Sessions.{
  PinnedSessionEntry, PinnedSessionRegistry, get_session, remove_session, touch,
  open_pinned_session, touch_pinned_session, close_pinned_session, expire_if_generation_matches,
  due, expire_check, expire_remove, begin_removal, finish_removal,
}

-- A timer wakes with `fires`, when nothing comes between its check and its removal, or with
-- `checks`, and then `removes` ends the removal at an index of the waiting ones. A timer may be of
-- any session and generation, those that were started among them.
pub data Call : Type 0 where
  opens : (session backend_pid idle_ttl : ℕ) → Call
  touches : (id : Text) → (keyword : Option Text) → Call
  closes : (id : Text) → Call
  fires : (id : Text) → (generation : ℕ) → Call
  checks : (id : Text) → (generation : ℕ) → Call
  removes : (index : ℕ) → Call

unfoldable pub step : PinnedSessionRegistry → ℕ × Call → PinnedSessionRegistry
step r (now, opens session pid ttl) = (open_pinned_session session pid ttl now r).1
step r (now, touches id keyword) = (touch_pinned_session id keyword now r).1
step r (now, closes id) = (close_pinned_session id r).1
step r (now, fires id generation) = (expire_if_generation_matches id generation now r).1
step r (now, checks id generation) = begin_removal id (expire_check id generation now r) r
step r (now, removes index) = finish_removal (take_at index r.expiring) r

unfoldable pub run : PinnedSessionRegistry → List (ℕ × Call) → PinnedSessionRegistry
run r [] = r
run r (c ∷ cs) = run (step r c) cs

-- How many sessions the calls open.
abbrev pub opened_by : Call → ℕ
opened_by (opens session pid ttl) = 1
opened_by (touches id keyword) = 0
opened_by (closes id) = 0
opened_by (fires id generation) = 0
opened_by (checks id generation) = 0
opened_by (removes index) = 0

abbrev pub opened : List (ℕ × Call) → ℕ
opened [] = 0
opened ((now, c) ∷ cs) = opened_by c + opened cs

-- The entry and the timer of a touched session.
abbrev pub touched :
    Text → Option Text → ℕ → PinnedSessionEntry → PinnedSessionRegistry → PinnedSessionRegistry
touched id keyword now e r = record r {
  entries = insert id (touch now keyword e) r.entries;
  timers =
      record {
        session_id = e.session_id;
        generation = (touch now keyword e).generation;
        ttl = e.idle_ttl;
      }
      ∷ r.timers;
}

abbrev pub dropped : Text → PinnedSessionEntry → PinnedSessionRegistry → PinnedSessionRegistry
dropped id e r = record r { entries = remove id r.entries; closed = e.session ∷ r.closed }

-- What a call does to the table, at each of its outcomes.
module _ {ℓ} (P : PinnedSessionRegistry → Type ℓ) (r : PinnedSessionRegistry) (now : ℕ) (id : Text)
    (same : P r) where
  -- The entry is missing or the lock is poisoned, or the entry is there.
  pub got :
      (get_session id r ≡ none)
      ⊎ ((e : PinnedSessionEntry) × (get_session id r ≡ some e)
          × (r.poisoned ≡ false)
          × (lookup id r.entries ≡ some e))
  unfolding get_session
  got = elim (Bool-cases r.poisoned) [
    | inl p ↦ inl (ground (arith, p))
    | inr p ↦ elim (Option-cases (lookup id r.entries)) [
      | inl q ↦ inl (ground (arith, p, q))
      | inr (e, q) ↦ inr (e, ground (arith, p, q), p, q)
    ]
  ]

  pub touch_cases :
      (keyword : Option Text)
      → ((e : PinnedSessionEntry) → lookup id r.entries ≡ some e → P (touched id keyword now e r))
      → P (step r (now, touches id keyword))
  unfolding step touch_pinned_session
  touch_cases keyword h = elim got [
    | inl n ↦ subst P (ground (arith, n)) same
    | inr (e, g, p, q) ↦ subst P (ground (arith, g)) (h e q)
  ]

  pub close_cases :
      ((e : PinnedSessionEntry) → lookup id r.entries ≡ some e → P (dropped id e r))
      → P (step r (now, closes id))
  unfolding step close_pinned_session remove_session
  close_cases h = elim got [
    | inl n ↦ subst P (ground (arith, n)) same
    | inr (e, g, p, q) ↦ subst P (ground (arith, g, p)) (h e q)
  ]

  pub fire_cases :
      (generation : ℕ)
      → ((e : PinnedSessionEntry)
          → lookup id r.entries ≡ some e
          → due generation now e ≡ true
          → P (dropped id e r))
      → P (step r (now, fires id generation))
  unfolding step expire_if_generation_matches expire_check expire_remove remove_session
  fire_cases generation h = elim got [
    | inl n ↦ subst P (ground (arith, n)) same
    | inr (e, g, p, q) ↦ elim (Bool-cases (due generation now e)) [
      | inl d ↦ subst P (ground (arith, g, p, d)) (h e q d)
      | inr d ↦ subst P (ground (arith, g, d)) same
    ]
  ]

  pub check_cases :
      (generation : ℕ)
      → ((e : PinnedSessionEntry)
          → lookup id r.entries ≡ some e
          → due generation now e ≡ true
          → P (record r { expiring = (id, e) ∷ r.expiring }))
      → P (step r (now, checks id generation))
  unfolding step expire_check begin_removal
  check_cases generation h = elim got [
    | inl n ↦ subst P (ground (arith, n)) same
    | inr (e, g, p, q) ↦ elim (Bool-cases (due generation now e)) [
      | inl d ↦ subst P (ground (arith, g, p, d)) (h e q d)
      | inr d ↦ subst P (ground (arith, g, d)) same
    ]
  ]

-- The removal of a waiting timer: there is none at the index, or its session has left the table,
-- or it is there.
pub remove_cases {ℓ} :
    (P : PinnedSessionRegistry → Type ℓ) (r : PinnedSessionRegistry) (now index : ℕ)
    → P r
    → ((id : Text) (e : PinnedSessionEntry) (rest : List (Text × PinnedSessionEntry))
        → take_at index r.expiring ≡ some ((id, e), rest)
        → P (record r { expiring = rest })
          × ((g : PinnedSessionEntry)
              → lookup id r.entries ≡ some g
              → P (dropped id e (record r { expiring = rest }))))
    → P (step r (now, removes index))
unfolding step finish_removal expire_remove remove_session
remove_cases P r now index same h = elim (Option-cases (take_at index r.expiring)) [
  | inl n ↦ subst P (ground (arith, n)) same
  | inr (((id, e), rest), t) ↦
      let (gone, there) = h id e rest t in
      elim (got P (record r { expiring = rest }) now id gone) [
        | inl n ↦ subst P (ground (arith, t, n)) gone
        | inr (g, k, p, q) ↦ subst P (ground (arith, t, k, p)) (there g q)
      ]
]
