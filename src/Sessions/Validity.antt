-- ===== src/Sessions/Validity.antt =====
-- The ids of the pinned sessions of src/server.rs are new ones.
use postgres_mcp.Prelude.{
  ℕ, ◌+◌, ◌%◌, ◌^◌, ◌<◌, ◌≡◌, refl, sym, ◌∙◌, All, All-map, take_at, take_at-All, insert,
  if◌then◌else◌, subst, false, Option, none, some, List, ◌∷◌, ◌==◌, if_both, Text, text_Eq,
  text_eq_iff, lookup, Distinct, insert-Distinct, remove-Distinct, lookup-insert, lookup-remove,
  Bool-cases, Option-cases, inl, inr, arith,
}
use postgres_mcp.Sessions.{
  PinnedSessionEntry, PinnedSessionRegistry, empty_registry, session_id_of, new_entry,
  insert_session, touch, open_pinned_session,
}
use postgres_mcp.Sessions.Ids.{session-touch, IsGiven, session_id_of-injective}
use postgres_mcp.Sessions.Calls.{
  Call, opens, touches, closes, fires, checks, removes, step, opened_by, opened, touched, dropped,
  touch_cases, close_cases, fire_cases, check_cases, remove_cases,
}

-- A timer's removal that waits: its session is the one that the id names, while it names one.
abbrev pub IsCurrent : ℕ → List (Text × PinnedSessionEntry) → Text × PinnedSessionEntry → Type 0
IsCurrent next_id entries (k, e) =
    IsGiven next_id k
    × ((g : PinnedSessionEntry) → lookup k entries ≡ some g → g.session ≡ e.session)

-- The lock is sound, no id is listed twice, every id was given out before the next one, and
-- no removal waits for another session than the one that its id names.
pub record IsValid (r : PinnedSessionRegistry) : Type 0 where
  pub sound : r.poisoned ≡ false
  pub distinct : Distinct r.entries
  pub numbered :
      (k : Text) (e : PinnedSessionEntry) → lookup k r.entries ≡ some e → IsGiven r.next_id k
  pub current : All (IsCurrent r.next_id r.entries) r.expiring

pub empty_registry-IsValid : IsValid empty_registry
unfolding empty_registry lookup
empty_registry-IsValid = record {
  sound = refl;
  distinct = tt;
  numbered = λ k e h. absurd (cc);
  current = tt;
}

next_id_fresh :
    (r : PinnedSessionRegistry) (k : Text)
    → IsGiven r.next_id k
    → r.next_id < 2 ^ 64
    → session_id_of r.next_id ≡ k
    → ⊥
next_id_fresh r k (i, e, lt) h same =
    let i_is : r.next_id ≡ i = session_id_of-injective r.next_id i h (omega arith) (same ∙ e) in
    omega arith

pub next_id_unused :
    (r : PinnedSessionRegistry)
    → IsValid r
    → r.next_id < 2 ^ 64
    → lookup (session_id_of r.next_id) r.entries ≡ none
next_id_unused r v h = elim (Option-cases (lookup (session_id_of r.next_id) r.entries)) [
  | inl e ↦ e
  | inr (g, e) ↦
      absurd (
        next_id_fresh r (session_id_of r.next_id) (v.numbered (session_id_of r.next_id) g e) h refl)
]

-- What a touched or a dropped session leaves valid.
touched-IsValid :
    (id : Text) (keyword : Option Text) (now : ℕ) (e : PinnedSessionEntry)
    (r : PinnedSessionRegistry)
    → IsValid r
    → lookup id r.entries ≡ some e
    → IsValid (touched id keyword now e r)
touched-IsValid id keyword now e r v h = record {
  sound = v.sound;
  distinct = insert-Distinct id (touch now keyword e) r.entries v.distinct;
  numbered = λ k g q. elim (Bool-cases (id == k)) [
    | inl same ↦ subst (IsGiven r.next_id) ((text_eq_iff id k).0 same) (v.numbered id e h)
    | inr other ↦
        v.numbered k g
          (ground (arith, lookup-insert id k (touch now keyword e) r.entries, other, q))
  ];
  current = All-map keeps r.expiring v.current;
}
  where
    keeps :
        (x : Text × PinnedSessionEntry)
        → IsCurrent r.next_id r.entries x
        → IsCurrent r.next_id (insert id (touch now keyword e) r.entries) x
    keeps (k, w) (given, is) = (
      given,
      λ g q. elim (Bool-cases (id == k)) [
        | inl same ↦ ground (
          arith,
          lookup-insert id k (touch now keyword e) r.entries,
          same,
          q,
          session-touch now keyword e,
          is e (subst (λ j. lookup j r.entries ≡ some e) ((text_eq_iff id k).0 same) h),
        )
        | inr other ↦
            is g (ground (arith, lookup-insert id k (touch now keyword e) r.entries, other, q))
      ],
    )

dropped-IsValid :
    (id : Text) (e : PinnedSessionEntry) (r : PinnedSessionRegistry)
    → IsValid r
    → IsValid (dropped id e r)
dropped-IsValid id e r v = record {
  sound = v.sound;
  distinct = remove-Distinct id r.entries v.distinct;
  numbered = λ k g q. v.numbered k g (ground (arith, lookup-remove id k r.entries, q));
  current =
      All-map
        (λ (k, w) (given, is).
          (given, λ g q. is g (ground (arith, lookup-remove id k r.entries, q))))
        r.expiring v.current;
}

-- Other removals wait.
pub waiting-IsValid :
    (r : PinnedSessionRegistry) (waiting : List (Text × PinnedSessionEntry))
    → IsValid r
    → All (IsCurrent r.next_id r.entries) waiting
    → IsValid (record r { expiring = waiting })
waiting-IsValid r waiting v h = record {
  sound = v.sound;
  distinct = v.distinct;
  numbered = v.numbered;
  current = h;
}

checked-IsValid :
    (id : Text) (e : PinnedSessionEntry) (r : PinnedSessionRegistry)
    → IsValid r
    → lookup id r.entries ≡ some e
    → IsValid (record r { expiring = (id, e) ∷ r.expiring })
checked-IsValid id e r v h =
    waiting-IsValid r ((id, e) ∷ r.expiring) v
      ((v.numbered id e h, λ g q. ground (arith, h, q)), v.current)

pub taken-IsCurrent :
    (r : PinnedSessionRegistry) (index : ℕ) (id : Text) (e : PinnedSessionEntry)
    (rest : List (Text × PinnedSessionEntry))
    → IsValid r
    → take_at index r.expiring ≡ some ((id, e), rest)
    → IsCurrent r.next_id r.entries (id, e) × All (IsCurrent r.next_id r.entries) rest
taken-IsCurrent r index id e rest v t =
    take_at-All (IsCurrent r.next_id r.entries) index r.expiring (id, e) rest t v.current

opened-IsValid :
    (session pid ttl now : ℕ) (r : PinnedSessionRegistry)
    → IsValid r
    → r.next_id + 1 < 2 ^ 64
    → IsValid (open_pinned_session session pid ttl now r).1
unfolding open_pinned_session insert_session
opened-IsValid session pid ttl now r v lt = record {
  sound = v.sound;
  distinct =
      if_both Distinct r.poisoned v.distinct
        (insert-Distinct id (new_entry id session pid ttl now) r.entries v.distinct);
  numbered = λ k g q. elim (Bool-cases (id == k)) [
    | inl same ↦ (r.next_id, sym ((text_eq_iff id k).0 same), omega arith)
    | inr other ↦ widen k (
        v.numbered k g (
          ground (
            arith,
            lookup-insert id k (new_entry id session pid ttl now) r.entries,
            other,
            v.sound,
            q,
          )))
  ];
  current = All-map keeps r.expiring v.current;
}
  where
    id : Text
    id = session_id_of r.next_id

    widen : (k : Text) → IsGiven r.next_id k → IsGiven ((r.next_id + 1) % 2 ^ 64) k
    widen k (i, e, below) = (i, e, omega arith)

    keeps :
        (x : Text × PinnedSessionEntry)
        → IsCurrent r.next_id r.entries x
        → IsCurrent
            ((r.next_id + 1) % 2 ^ 64)
            (if r.poisoned
              then r.entries
              else insert id (new_entry id session pid ttl now) r.entries)
            x
    keeps (k, w) (given, is) = (
      widen k given,
      λ g q. elim (Bool-cases (id == k)) [
        | inl same ↦ absurd (next_id_fresh r k given (omega arith) ((text_eq_iff id k).0 same))
        | inr other ↦ is g (
            ground (
              arith,
              lookup-insert id k (new_entry id session pid ttl now) r.entries,
              other,
              v.sound,
              q,
            ))
      ],
    )

abbrev pub IdsLeft : PinnedSessionRegistry → List (ℕ × Call) → Type 0
IdsLeft r cs = r.next_id + opened cs < 2 ^ 64

pub step-IsValid :
    (now : ℕ) (c : Call) (r : PinnedSessionRegistry)
    → IsValid r
    → r.next_id + opened_by c < 2 ^ 64
    → IsValid (step r (now, c))
unfolding step
step-IsValid now (opens session pid ttl) r v lt = opened-IsValid session pid ttl now r v lt
step-IsValid now (touches id keyword) r v lt =
    touch_cases IsValid r now id v keyword (λ e h. touched-IsValid id keyword now e r v h)
step-IsValid now (closes id) r v lt =
    close_cases IsValid r now id v (λ e h. dropped-IsValid id e r v)
step-IsValid now (fires id generation) r v lt =
    fire_cases IsValid r now id v generation (λ e h d. dropped-IsValid id e r v)
step-IsValid now (checks id generation) r v lt =
    check_cases IsValid r now id v generation (λ e h d. checked-IsValid id e r v h)
step-IsValid now (removes index) r v lt = remove_cases IsValid r now index v (λ id e rest t.
    let next = waiting-IsValid r rest v (taken-IsCurrent r index id e rest v t).1 in
    (next, λ g h. dropped-IsValid id e (record r { expiring = rest }) next))

pub next_id-step :
    (now : ℕ) (c : Call) (r : PinnedSessionRegistry)
    → r.next_id + opened_by c < 2 ^ 64
    → (step r (now, c)).next_id ≡ r.next_id + opened_by c
unfolding step open_pinned_session insert_session
next_id-step now (opens session pid ttl) r lt = omega arith
next_id-step now (touches id keyword) r lt =
    touch_cases (λ q. q.next_id ≡ r.next_id + 0) r now id (omega arith) keyword (λ e h. omega arith)
next_id-step now (closes id) r lt =
    close_cases (λ q. q.next_id ≡ r.next_id + 0) r now id (omega arith) (λ e h. omega arith)
next_id-step now (fires id generation) r lt =
    fire_cases (λ q. q.next_id ≡ r.next_id + 0) r now id (omega arith) generation
      (λ e h d. omega arith)
next_id-step now (checks id generation) r lt =
    check_cases (λ q. q.next_id ≡ r.next_id + 0) r now id (omega arith) generation
      (λ e h d. omega arith)
next_id-step now (removes index) r lt =
    remove_cases (λ q. q.next_id ≡ r.next_id + 0) r now index (omega arith)
      (λ id e rest t. (omega arith, λ g h. omega arith))
