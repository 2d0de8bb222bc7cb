-- ===== src/Sessions/Openness.antt =====
-- Every connection that src/server.rs pins is either in the session table or closed.
use postgres_mcp.Prelude.{
  ℕ, ◌+◌, ◌^◌, ◌<◌, ◌≡◌, refl, none, some, List, [], ◌∷◌, if◌then◌else◌, nat_eq, Text, text_Eq,
  text_eq_iff, lookup, insert, remove, Distinct, remove_absent, arith,
}
use postgres_mcp.Sessions.{
  PinnedSessionEntry, PinnedSessionRegistry, session_id_of, new_entry, insert_session, touch,
  open_pinned_session,
}
use postgres_mcp.Sessions.Ids.{session-touch}
use postgres_mcp.Sessions.Validity.{
  IsValid, next_id_unused, step-IsValid, next_id-step, taken-IsCurrent, waiting-IsValid, IdsLeft,
}
use postgres_mcp.Sessions.Calls.{
  Call, opens, touches, closes, fires, checks, removes, step, run, opened_by, dropped, touch_cases,
  close_cases, fire_cases, check_cases, remove_cases,
}

abbrev pub Entries : Type 0
Entries = List (Text × PinnedSessionEntry)

abbrev one_if : ℕ → ℕ → ℕ
one_if s t = if nat_eq s t then 1 else 0

-- How often a connection is closed, in the table, and in either.
abbrev pub times_closed : ℕ → List ℕ → ℕ
times_closed s [] = 0
times_closed s (t ∷ ts) = one_if s t + times_closed s ts

abbrev pub times_listed : ℕ → Entries → ℕ
times_listed s [] = 0
times_listed s ((k, e) ∷ m) = one_if s e.session + times_listed s m

abbrev pub times_owned : ℕ → PinnedSessionRegistry → ℕ
times_owned s r = times_listed s r.entries + times_closed s r.closed

-- How often the calls open it.
abbrev pub times_opened_by : ℕ → Call → ℕ
times_opened_by s (opens session pid ttl) = one_if s session
times_opened_by s (touches id keyword) = 0
times_opened_by s (closes id) = 0
times_opened_by s (fires id generation) = 0
times_opened_by s (checks id generation) = 0
times_opened_by s (removes index) = 0

abbrev pub times_opened : ℕ → List (ℕ × Call) → ℕ
times_opened s [] = 0
times_opened s ((now, c) ∷ cs) = times_opened_by s c + times_opened s cs

times_listed-insert_new :
    (s : ℕ) (id : Text) (e : PinnedSessionEntry) (m : Entries)
    → lookup id m ≡ none
    → times_listed s (insert id e m) ≡ times_listed s m + one_if s e.session
unfolding lookup insert
times_listed-insert_new s id e [] h = ground arith
times_listed-insert_new s id e ((j, w) ∷ m) h = ground (arith, times_listed-insert_new s id e m)

times_listed-insert_same :
    (s : ℕ) (id : Text) (e e' : PinnedSessionEntry) (m : Entries)
    → lookup id m ≡ some e
    → e'.session ≡ e.session
    → times_listed s (insert id e' m) ≡ times_listed s m
unfolding lookup insert
times_listed-insert_same s id e e' [] h k = cc
times_listed-insert_same s id e e' ((j, w) ∷ m) h k =
    ground (arith, times_listed-insert_same s id e e' m)

times_listed-remove :
    (s : ℕ) (id : Text) (e : PinnedSessionEntry) (m : Entries)
    → Distinct m
    → lookup id m ≡ some e
    → times_listed s (remove id m) + one_if s e.session ≡ times_listed s m
unfolding lookup remove
times_listed-remove s id e [] d h = cc
times_listed-remove s id e ((j, w) ∷ m) d h =
    ground (arith, text_eq_iff j id, times_listed-remove s id e m d.1, remove_absent j m d.0)

times_owned-dropped :
    (s : ℕ) (id : Text) (e g : PinnedSessionEntry) (r : PinnedSessionRegistry)
    → IsValid r
    → lookup id r.entries ≡ some g
    → g.session ≡ e.session
    → times_owned s (dropped id e r) ≡ times_owned s r + 0
times_owned-dropped s id e g r v h same =
    ground (arith, times_listed-remove s id g r.entries v.distinct h, same)

times_owned-step :
    (s now : ℕ) (c : Call) (r : PinnedSessionRegistry)
    → IsValid r
    → r.next_id + opened_by c < 2 ^ 64
    → times_owned s (step r (now, c)) ≡ times_owned s r + times_opened_by s c
unfolding step open_pinned_session insert_session new_entry
times_owned-step s now (opens session pid ttl) r v lt = ground (
  arith,
  v.sound,
  times_listed-insert_new s (session_id_of r.next_id)
      (new_entry (session_id_of r.next_id) session pid ttl now) r.entries
      (next_id_unused r v (omega arith)),
)
times_owned-step s now (touches id keyword) r v lt =
    touch_cases (λ q. times_owned s q ≡ times_owned s r + 0) r now id (omega arith) keyword
      (λ e h. omega (
        arith,
        times_listed-insert_same s id e (touch now keyword e) r.entries h
            (session-touch now keyword e),
      ))
times_owned-step s now (closes id) r v lt =
    close_cases (λ q. times_owned s q ≡ times_owned s r + 0) r now id (omega arith)
      (λ e h. times_owned-dropped s id e e r v h refl)
times_owned-step s now (fires id generation) r v lt =
    fire_cases (λ q. times_owned s q ≡ times_owned s r + 0) r now id (omega arith) generation
      (λ e h d. times_owned-dropped s id e e r v h refl)
times_owned-step s now (checks id generation) r v lt =
    check_cases (λ q. times_owned s q ≡ times_owned s r + 0) r now id (omega arith) generation
      (λ e h d. omega arith)
times_owned-step s now (removes index) r v lt =
    remove_cases (λ q. times_owned s q ≡ times_owned s r + 0) r now index (omega arith)
      (λ id e rest t.
        let (is, others) = taken-IsCurrent r index id e rest v t in
        (
          omega arith,
          λ g h.
              times_owned-dropped s id e g (record r { expiring = rest })
                (waiting-IsValid r rest v others) h (is.1 g h),
        ))

-- Under any calls that leave session ids to give out, a connection is in the table or closed
-- exactly as often, taken together, as the calls opened it: none is dropped without its close,
-- and none is closed twice or closed and still listed.
pub owned_is_opened :
    (s : ℕ) (cs : List (ℕ × Call)) (r : PinnedSessionRegistry)
    → IsValid r
    → IdsLeft r cs
    → times_owned s (run r cs) ≡ times_owned s r + times_opened s cs
unfolding run
owned_is_opened s [] r v lt = omega arith
owned_is_opened s ((now, c) ∷ cs) r v lt = omega (
  arith,
  owned_is_opened s cs (step r (now, c)) (step-IsValid now c r v (omega arith))
      (omega (arith, next_id-step now c r (omega arith))),
  times_owned-step s now c r v (omega arith),
)
