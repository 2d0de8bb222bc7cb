-- ===== src/Filters/Like.antt =====
-- What a compiled name filter of src/tools.rs selects, by the rules of SQL's LIKE.
use postgres_mcp.Prelude.{
  ℕ, ◌≡◌, refl, ap, subst, ◌∙◌, Bool, true, false, [], ◌∷◌, ◌++◌, if_split, Text, arith,
}
use postgres_mcp.Filters.{escape_like_pattern, is_special}

-- Which characters a case-insensitive comparison holds for equal is up to the database.
module _ (same : ℕ → ℕ → Bool) where
  -- `text LIKE pattern ESCAPE '\'`, as PostgreSQL documents it.
  pub data Like : Text → Text → Type 0 where
    end : Like [] []
    one :
        {c d : ℕ} {p s : Text}
        → is_special c ≡ false
        → same c d ≡ true
        → Like p s
        → Like (c ∷ p) (d ∷ s)
    escaped :
        {k c d : ℕ} {p s : Text} → k ≡ b'\\' → same c d ≡ true → Like p s → Like (k ∷ c ∷ p) (d ∷ s)
    any : {k d : ℕ} {p s : Text} → k ≡ b'_' → Like p s → Like (k ∷ p) (d ∷ s)
    none_left : {k : ℕ} {p s : Text} → k ≡ b'%' → Like p s → Like (k ∷ p) s
    one_more : {k d : ℕ} {p s : Text} → k ≡ b'%' → Like (k ∷ p) s → Like (k ∷ p) (d ∷ s)

  -- The same text, character by character.
  abbrev pub SameText : Text → Text → Type 0
  SameText [] [] = Unit {0}
  SameText [] (d ∷ s) = ⊥
  SameText (c ∷ t) [] = ⊥
  SameText (c ∷ t) (d ∷ s) = (same c d ≡ true) × SameText t s

  -- The rest of a pattern matches the rest of a text that begins with the given one.
  abbrev pub Begins : Text → Text → Text → Type 0
  Begins t p s = (u : Text) × (v : Text) × (s ≡ u ++ v) × SameText t u × Like p v

  pub Like-escaped :
      (t p u v : Text) → SameText t u → Like p v → Like (escape_like_pattern t ++ p) (u ++ v)
  unfolding escape_like_pattern
  Like-escaped [] p [] v h l = l
  Like-escaped [] p (d ∷ u) v h l = absurd h
  Like-escaped (c ∷ t) p [] v h l = absurd h
  Like-escaped (c ∷ t) p (d ∷ u) v h l =
      if_split (λ q. Like (q ++ p) (d ∷ (u ++ v))) (is_special c)
        (λ special. escaped refl h.0 (Like-escaped t p u v h.1 l))
        (λ plain. one plain h.0 (Like-escaped t p u v h.1 l))

  -- What an escaped or a plain character at the head of a pattern matches.
  abbrev Heads : ℕ → Text → Text → Type 0
  Heads c p s = (d : ℕ) × (v : Text) × (s ≡ d ∷ v) × (same c d ≡ true) × Like p v

  Like-escaped_head : (c : ℕ) (p q s : Text) → Like q s → q ≡ b'\\' ∷ c ∷ p → Heads c p s
  Like-escaped_head c p q s end e = absurd (ground (arith, e))
  Like-escaped_head c p q s (one plain h l) e = absurd (ground (arith, e, plain))
  Like-escaped_head c p q s (escaped {k} {c = c'} {d} {p = p'} {s = s'} ke h l) e =
      (d, s', refl, ground (arith, e, h), subst (λ x. Like x s') (ground (arith, e)) l)
  Like-escaped_head c p q s (any ke l) e = absurd (ground (arith, e, ke))
  Like-escaped_head c p q s (none_left ke l) e = absurd (ground (arith, e, ke))
  Like-escaped_head c p q s (one_more ke l) e = absurd (ground (arith, e, ke))

  Like-plain_head :
      (c : ℕ) (p q s : Text) → is_special c ≡ false → Like q s → q ≡ c ∷ p → Heads c p s
  Like-plain_head c p q s plain end e = absurd (ground (arith, e))
  Like-plain_head c p q s plain (one {c = c'} {d} {p = p'} {s = s'} also h l) e =
      (d, s', refl, ground (arith, e, h), subst (λ x. Like x s') (ground (arith, e)) l)
  Like-plain_head c p q s plain (escaped ke h l) e = absurd (ground (arith, e, ke, plain))
  Like-plain_head c p q s plain (any ke l) e = absurd (ground (arith, e, ke, plain))
  Like-plain_head c p q s plain (none_left ke l) e = absurd (ground (arith, e, ke, plain))
  Like-plain_head c p q s plain (one_more ke l) e = absurd (ground (arith, e, ke, plain))

  pub escaped-Like : (t p s : Text) → Like (escape_like_pattern t ++ p) s → Begins t p s
  unfolding escape_like_pattern
  escaped-Like [] p s l = ([], s, refl, tt, l)
  escaped-Like (c ∷ t) p s l =
      let ih : (v : Text) → Like (escape_like_pattern t ++ p) v → Begins t p v =
        λ v k. escaped-Like t p v k in
      if_split (λ q. Like (q ++ p) s → Begins (c ∷ t) p s) (is_special c)
        (λ special. λ k. headed ih (Like-escaped_head c (escape_like_pattern t ++ p) _ s k refl))
        (λ plain. λ k. headed ih (Like-plain_head c (escape_like_pattern t ++ p) _ s plain k refl))
        l
    where
      headed :
          ((v : Text) → Like (escape_like_pattern t ++ p) v → Begins t p v)
          → Heads c (escape_like_pattern t ++ p) s
          → Begins (c ∷ t) p s
      headed ih (d, v, e, h, k) =
          let (u, w, f, st, m) = ih v k in (d ∷ u, w, e ∙ ap (λ x. d ∷ x) f, (h, st), m)

  pub Like-percent : (s : Text) → Like (b'%' ∷ []) s
  Like-percent [] = none_left refl end
  Like-percent (d ∷ s) = one_more refl (Like-percent s)

  -- Any text before it.
  pub Like-after : (u p s : Text) → Like p s → Like (b'%' ∷ p) (u ++ s)
  Like-after [] p s l = none_left refl l
  Like-after (d ∷ u) p s l = one_more refl (Like-after u p s l)

  pub Like-percent_head :
      (p q s : Text) → Like q s → q ≡ b'%' ∷ p → (u : Text) × (v : Text) × (s ≡ u ++ v) × Like p v
  Like-percent_head p q s end e = absurd (ground (arith, e))
  Like-percent_head p q s (one plain h l) e = absurd (ground (arith, e, plain))
  Like-percent_head p q s (escaped ke h l) e = absurd (ground (arith, e, ke))
  Like-percent_head p q s (any ke l) e = absurd (ground (arith, e, ke))
  Like-percent_head p q s (none_left {k} {p = p'} {s = s'} ke l) e =
      ([], s', refl, subst (λ x. Like x s') (ground (arith, e)) l)
  Like-percent_head p q s (one_more {k} {d} {p = p'} {s = s'} ke l) e =
      let (u, v, f, m) = Like-percent_head p (k ∷ p') s' l e in (d ∷ u, v, ap (λ x. d ∷ x) f, m)

  pub Like-end : (s : Text) → Like [] s → s ≡ []
  Like-end s l = at_end [] s l refl
    where
      at_end : (q s : Text) → Like q s → q ≡ [] → s ≡ []
      at_end q s end e = refl
      at_end q s (one plain h l) e = cc
      at_end q s (escaped ke h l) e = cc
      at_end q s (any ke l) e = cc
      at_end q s (none_left ke l) e = cc
      at_end q s (one_more ke l) e = cc
