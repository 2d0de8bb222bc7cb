-- ===== src/Artifacts/Fifo.antt =====
-- The eviction loop of the export table of src/server.rs.
use postgres_mcp.Prelude.{
  ℕ, zero, suc, ◌-◌, ◌≤◌, ◌<◌, ◌≡◌, refl, sym, ap, ◌∙◌, true, none, List, [], ◌∷◌, ◌==◌,
  if◌then◌else◌, if_split, ltb, Text, text_Eq, text_eq_iff, length, elem, drop, lookup, remove,
  lookup-remove, arith,
}
use postgres_mcp.Artifacts.{ExportArtifactRegistry, Artifacts, with_limit, evict, log_removal}
use postgres_mcp.Artifacts.Sync.{Synced, Synced-nil, Synced-tail}

pub record IsValid (r : ExportArtifactRegistry) : Type 0 where
  pub room : 1 ≤ r.max_entries
  pub synced : Synced r.order r.artifacts
  pub bounded : length r.order ≤ r.max_entries

pub with_limit-IsValid : (n : ℕ) → IsValid (with_limit n)
unfolding with_limit
with_limit-IsValid n = record { room = omega arith; synced = Synced-nil; bounded = omega arith }

-- The loop drops the oldest handles down to the limit, keeps the two in step, and leaves the
-- record of every handle that stays.
pub record EvictsTo (limit : ℕ) (order : List Text) (m : Artifacts)
    (r : List Text × Artifacts × List Text) : Type 0 where
  pub order_is : r.0 ≡ drop (length order - limit) order
  pub synced : Synced r.0 r.1
  pub kept : (h : Text) → elem h r.0 ≡ true → lookup h r.1 ≡ lookup h m

elem-drop : (h : Text) (n : ℕ) (xs : List Text) → elem h (drop n xs) ≡ true → elem h xs ≡ true
elem-drop h zero xs e = e
elem-drop h (suc n) [] e = e
elem-drop h (suc n) (x ∷ xs) e = ground (arith, elem-drop h n xs e)

-- One round of the loop.
EvictsTo-round :
    (limit : ℕ) (oldest : Text) (order : List Text) (m : Artifacts)
    (r : List Text × Artifacts × List Text)
    → Synced (oldest ∷ order) m
    → limit < length m
    → EvictsTo limit order (remove oldest m) r
    → EvictsTo limit (oldest ∷ order) m r
EvictsTo-round limit oldest order m r v over rest = record {
  order_is =
      rest.order_is
      ∙ ap (λ n. drop n (oldest ∷ order))
          (let n : suc (length order - limit) ≡ suc (length order) - limit =
              omega (arith, v.same_length) in
            n);
  synced = rest.synced;
  kept = λ h e. rest.kept h e ∙ lookup-remove oldest h m ∙ apart h (stays h e);
}
  where
    stays : (h : Text) → elem h r.0 ≡ true → elem h order ≡ true
    stays h e = elem-drop h (length order - limit) order (sym (ap (elem h) rest.order_is) ∙ e)

    apart :
        (h : Text) → elem h order ≡ true → (if oldest == h then none else lookup h m) ≡ lookup h m
    apart h e = ground (arith, text_eq_iff oldest h, v.unique.0, e)

pub evict-EvictsTo :
    (limit : ℕ) (order : List Text) (m : Artifacts) (files : List Text)
    → Synced order m
    → EvictsTo limit order m (evict limit order m files)
unfolding evict
evict-EvictsTo limit [] m files v = record {
  order_is = ground arith;
  synced = v;
  kept = λ h e. refl;
}
evict-EvictsTo limit (oldest ∷ order) m files v =
    if_split (EvictsTo limit (oldest ∷ order) m) (ltb limit (length m))
      (λ over. EvictsTo-round limit oldest order m _ v (ground arith) (
        evict-EvictsTo limit order (remove oldest m) (log_removal (lookup oldest m) files)
          (Synced-tail oldest order m v)))
      (λ fits. record {
        order_is =
            ap (λ n. drop n (oldest ∷ order))
              (let n : 0 ≡ suc (length order) - limit = ground (arith, v.same_length) in n);
        synced = v;
        kept = λ h e. refl;
      })

-- The queue before the loop of `register`.
