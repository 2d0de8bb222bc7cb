-- ===== src/Sessions/Tests.antt =====
-- The pinned sessions of src/server.rs at concrete inputs.
use postgres_mcp.Prelude.{
  ℕ, ◌+◌, ◌≡◌, ◌≢◌, refl, true, false, none, some, List, [], ◌∷◌, inl, inr, Text, text_Eq, text_eq,
  text_eq_iff, codes, lookup, insert, remove, hex_padded, hex_digit, All, arith,
}
use postgres_mcp.Sessions.{
  PinnedSessionEntry, PinnedSessionRegistry, empty_registry, get_session, touch,
  touch_pinned_session, open_pinned_session, insert_session, expire_if_generation_matches, due,
  expire_check, expire_remove, begin_removal, finish_removal, deadline, snapshot, new_entry,
  session_id_of, remove_session, close_pinned_session, transaction_after,
}
use postgres_mcp.Sessions.Calls.{Call, opens, touches, closes, fires, checks, removes, step, run}
use postgres_mcp.Sessions.Validity.{IsValid, empty_registry-IsValid, step-IsValid}
use postgres_mcp.Sessions.Openness.{times_owned, times_opened, owned_is_opened}
use postgres_mcp.Sessions.Timers.{Firing, fire_all, IsEarlier, idle_expires}
use postgres_mcp.Sessions.Touches.{Aside, touch_survives}

abbrev first : Text
first = codes "ps_0000000000000001"

-- One session with an idle time of two seconds, opened at 1000 over connection 7.
abbrev one_open : PinnedSessionRegistry
one_open = (open_pinned_session 7 4242 2_000_000_000 1000 empty_registry).1

abbrev entry : PinnedSessionEntry
entry = new_entry first 7 4242 2_000_000_000 1000

one_open_test : get_session first one_open ≡ some entry
unfolding get_session open_pinned_session insert_session empty_registry insert lookup text_eq
    session_id_of hex_padded hex_digit
one_open_test = refl

-- The timer of the opening fires at 3000, after a touch at 2500; one of another session, at 9000.
abbrev old_timers : List Firing
old_timers =
    record { session_id = first; generation = 0; at = 3000 }
    ∷ record { session_id = codes "ps_0000000000000009"; generation = 1; at = 9000 }
    ∷ []

other : codes "ps_0000000000000009" ≢ first
unfolding text_eq
other e =
    let h : false ≡ true = (text_eq_iff (codes "ps_0000000000000009") first).1 e in absurd (cc)

old_timers-IsEarlier :
    All (IsEarlier first entry.generation (deadline 2500 entry.idle_ttl)) old_timers
unfolding new_entry text_eq
old_timers-IsEarlier = (inr (inl (omega arith)), (inl other, tt))

idle_expires_example :
    let r' = fire_all (touch_pinned_session first none 2500 one_open).1 old_timers in
    let (reported, r'') = expire_if_generation_matches first (entry.generation + 1) 4500 r' in
    (reported ≡ some (snapshot (touch 2500 none entry)))
    × (get_session first r'' ≡ none)
    × (r''.closed ≡ entry.session ∷ r'.closed)
unfolding new_entry
idle_expires_example =
    idle_expires first 2500 4500 none entry old_timers one_open one_open_test (omega arith)
      old_timers-IsEarlier (omega arith)

abbrev calls : List (ℕ × Call)
calls =
    (1000, opens 7 4242 2_000_000_000)
    ∷ (1001, opens 8 4243 2_000_000_000)
    ∷ (2500, touches first (some (codes "begin")))
    ∷ (3000, fires first 0)
    ∷ (4500, checks first 1)
    ∷ (4501, checks first 1)
    ∷ (4502, removes 1)
    ∷ (4503, removes 0)
    ∷ (4600, closes first)
    ∷ []

closed_test : (run empty_registry calls).closed ≡ 7 ∷ []
unfolding run step open_pinned_session touch_pinned_session expire_if_generation_matches due
    expire_check expire_remove begin_removal finish_removal close_pinned_session get_session
    remove_session insert_session empty_registry insert lookup remove text_eq session_id_of
    hex_padded hex_digit touch new_entry transaction_after
closed_test = refl

owned_is_opened_example :
    times_owned 7 (run empty_registry calls) ≡ times_owned 7 empty_registry + times_opened 7 calls
unfolding empty_registry
owned_is_opened_example =
    owned_is_opened 7 calls empty_registry empty_registry-IsValid (omega arith)

one_open-IsValid : IsValid one_open
unfolding empty_registry step
one_open-IsValid =
    step-IsValid 1000 (opens 7 4242 2_000_000_000) empty_registry empty_registry-IsValid
      (omega arith)

-- After the touch at 2500 the timer of the opening and one of a new session check and remove.
abbrev afterwards : List (ℕ × Call)
afterwards =
    (3000, checks first 0)
    ∷ (3001, opens 8 4243 2_000_000_000)
    ∷ (9000, checks (codes "ps_0000000000000009") 1)
    ∷ (9001, removes 0)
    ∷ []

afterwards-Aside :
    All (Aside first (IsEarlier first entry.generation (deadline 2500 entry.idle_ttl))) afterwards
unfolding new_entry
afterwards-Aside = (inr (inl (omega arith)), (tt, (inl other, (tt, tt))))

touch_survives_example :
    get_session first (run (step one_open (2500, touches first (some (codes "begin")))) afterwards)
    ≡ some (touch 2500 (some (codes "begin")) entry)
unfolding new_entry open_pinned_session insert_session empty_registry
touch_survives_example =
    touch_survives first 2500 (some (codes "begin")) entry afterwards one_open one_open-IsValid
      (omega arith) one_open_test (omega arith) tt afterwards-Aside

-- A touch between a timer's check and its removal: the touch is answered with a live session, and
-- the session is closed.
abbrev checked : PinnedSessionRegistry
checked = step one_open (3000, checks first 0)

answered_live_test :
    (touch_pinned_session first none 3000 checked).0 ≡ some (snapshot (touch 3000 none entry))
unfolding step touch_pinned_session expire_check begin_removal due get_session open_pinned_session
    insert_session empty_registry insert lookup text_eq session_id_of hex_padded hex_digit touch
    new_entry snapshot
answered_live_test = refl

closed_all_the_same_test :
    (run checked ((3000, touches first none) ∷ (3000, removes 0) ∷ [])).closed ≡ 7 ∷ []
unfolding run step touch_pinned_session expire_check begin_removal finish_removal expire_remove due
    get_session remove_session open_pinned_session insert_session empty_registry insert lookup
    remove text_eq session_id_of hex_padded hex_digit touch new_entry
closed_all_the_same_test = refl
