-- ===== src/Filters/Patterns.antt =====
-- The patterns that src/tools.rs compiles from the name filters of a caller.
use postgres_mcp.Prelude.{
  ℕ, ◌≡◌, ◌↔◌, refl, sym, ap, ◌∙◌, subst, Bool, Option, none, some, [], ◌∷◌, ◌++◌, if◌then◌else◌,
  if_both, ltb, Text,
}
use mathlib.Core.List.{append-nil}
use postgres_mcp.Filters.{
  DiscoveryNameFilterMode, exact, prefix, containing, pattern, FilterArg, name_like, name_prefix,
  name_contains, name_exact, name_pattern, CompiledDiscoveryNameFilter, Compiled, ok, err,
  NameFilters, normalized, provided_count, escape_like_pattern, prefix_of, contains_of,
  exact_filter, prefix_filter, contains_filter, pattern_filter, like_filter,
  compile_discovery_name_filter, contains_unescaped_wildcard, ensure_no_dangling_like_escape,
  ends_in_escape, has_wildcard, on_ok, filter_of,
}
use postgres_mcp.Filters.Like.{
  Like, SameText, Like-escaped, escaped-Like, Like-percent, Like-after, Like-percent_head, Like-end,
  end,
}

abbrev pub given_arg : NameFilters → FilterArg → Option Text
given_arg f name_like = f.like
given_arg f name_prefix = f.first
given_arg f name_contains = f.inner
given_arg f name_exact = f.whole
given_arg f name_pattern = f.patt

module _ (same : ℕ → ℕ → Bool) where
  -- What the mode of a filter asks of a name.
  abbrev pub Reading : DiscoveryNameFilterMode → Text → Text → Type 0
  Reading exact v s = SameText same v s
  Reading prefix v s = (u : Text) × (w : Text) × (s ≡ u ++ w) × SameText same v u
  Reading containing v s =
      (b : Text) × (u : Text) × (w : Text) × (s ≡ b ++ (u ++ w)) × SameText same v u
  Reading pattern v s = Like same v s

  exact-Reading : (v s : Text) → Like same (escape_like_pattern v) s ↔ Reading exact v s
  exact-Reading v s = (to, from)
    where
      to : Like same (escape_like_pattern v) s → Reading exact v s
      to l =
          let (u, w, e, st, m) =
            escaped-Like same v [] s
              (subst (λ q. Like same q s) (sym (append-nil (escape_like_pattern v))) l) in
          subst (SameText same v) (sym (e ∙ ap (λ x. u ++ x) (Like-end same w m) ∙ append-nil u)) st

      from : Reading exact v s → Like same (escape_like_pattern v) s
      from st =
          subst (λ q. Like same q s) (append-nil (escape_like_pattern v))
            (subst (λ x. Like same (escape_like_pattern v ++ []) x) (append-nil s)
              (Like-escaped same v [] s [] st end))

  prefix-Reading : (v s : Text) → Like same (prefix_of v) s ↔ Reading prefix v s
  prefix-Reading v s = (
    λ l. let (u, w, e, st, m) = escaped-Like same v (b'%' ∷ []) s l in (u, w, e, st),
    λ (u, w, e, st).
        subst (Like same (prefix_of v)) (sym e)
          (Like-escaped same v (b'%' ∷ []) u w st (Like-percent same w)),
  )

  contains-Reading : (v s : Text) → Like same (contains_of v) s ↔ Reading containing v s
  contains-Reading v s = (
    λ l.
        let (b, t, e, m) = Like-percent_head same (prefix_of v) (contains_of v) s l refl in
        let (u, w, f, st) = (prefix-Reading v t).0 m in (b, u, w, e ∙ ap (λ x. b ++ x) f, st),
    λ (b, u, w, e, st).
        subst (Like same (contains_of v)) (sym e) (
          Like-after same b (prefix_of v) (u ++ w)
            ((prefix-Reading v (u ++ w)).1 (u, w, refl, st))),
  )

  -- The filter comes from one of the arguments, and selects what its mode asks.
  abbrev pub Selects : NameFilters → CompiledDiscoveryNameFilter → Type 0
  Selects f c =
      (v : Text) × (given_arg f c.source_arg ≡ some v)
      × ((s : Text) → Like same c.compiled s ↔ Reading c.mode v s)

  IfCompiled : NameFilters → Compiled (Option CompiledDiscoveryNameFilter) → Type 0
  IfCompiled f (ok none) = Unit
  IfCompiled f (ok (some c)) = Selects f c
  IfCompiled f (err e) = Unit

  abbrev of_parts :
      Option Text → Option Text → Option Text → Option Text → Option Text → NameFilters
  of_parts like patt inner first whole = record {
    like = like;
    first = first;
    inner = inner;
    whole = whole;
    patt = patt;
  }

  like-IfCompiled :
      (like patt inner first whole : Option Text)
      → IfCompiled (of_parts like patt inner first whole) (like_filter like)
  unfolding IfCompiled contains_unescaped_wildcard
  like-IfCompiled none patt inner first whole = tt
  like-IfCompiled (some v) patt inner first whole =
      if_both (λ r. Out (on_ok r choose)) (ends_in_escape v) tt
        (if_both Out (has_wildcard v) (v, refl, λ s. (λ l. l, λ l. l))
          (v, refl, contains-Reading v))
    where
      Out : Compiled (Option CompiledDiscoveryNameFilter) → Type 0
      Out = IfCompiled (of_parts (some v) patt inner first whole)

      choose : Bool → Compiled (Option CompiledDiscoveryNameFilter)
      choose wild =
          if wild
          then filter_of pattern name_like v
          else filter_of containing name_like (contains_of v)

  pattern-IfCompiled :
      (like patt inner first whole : Option Text)
      → IfCompiled (of_parts like patt inner first whole) (pattern_filter like patt)
  unfolding IfCompiled ensure_no_dangling_like_escape
  pattern-IfCompiled like none inner first whole = like-IfCompiled like none inner first whole
  pattern-IfCompiled like (some v) inner first whole =
      if_both
        (λ (r : Compiled (Unit {0})).
          IfCompiled (of_parts like (some v) inner first whole)
            (on_ok r (λ _. filter_of pattern name_pattern v)))
        (ends_in_escape v) tt (v, refl, λ s. (λ l. l, λ l. l))

  contains-IfCompiled :
      (like patt inner first whole : Option Text)
      → IfCompiled (of_parts like patt inner first whole) (contains_filter like patt inner)
  unfolding IfCompiled
  contains-IfCompiled like patt none first whole = pattern-IfCompiled like patt none first whole
  contains-IfCompiled like patt (some v) first whole = (v, refl, contains-Reading v)

  prefix-IfCompiled :
      (like patt inner first whole : Option Text)
      → IfCompiled (of_parts like patt inner first whole) (prefix_filter like patt inner first)
  unfolding IfCompiled
  prefix-IfCompiled like patt inner none whole = contains-IfCompiled like patt inner none whole
  prefix-IfCompiled like patt inner (some v) whole = (v, refl, prefix-Reading v)

  exact-IfCompiled :
      (like patt inner first whole : Option Text)
      → IfCompiled (of_parts like patt inner first whole) (exact_filter like patt inner first whole)
  unfolding IfCompiled
  exact-IfCompiled like patt inner first none = prefix-IfCompiled like patt inner first none
  exact-IfCompiled like patt inner first (some v) = (v, refl, exact-Reading v)

  -- A filter that compiles comes from one of the normalized arguments of the caller, and LIKE
  -- selects by it what its mode says: the names equal to the value, those that begin with it, those
  -- that contain it, with the value's wildcards and backslashes taken as characters, or those that
  -- the value matches as a pattern.
  pub filter-Selects :
      (given : NameFilters) (c : CompiledDiscoveryNameFilter)
      → compile_discovery_name_filter given ≡ ok (some c)
      → Selects (normalized given) c
  unfolding compile_discovery_name_filter IfCompiled
  filter-Selects given c e =
      let f = normalized given in
      subst (IfCompiled f) e (
        if_both (IfCompiled f) (ltb 1 (provided_count f)) tt
          (exact-IfCompiled f.like f.patt f.inner f.first f.whole))
