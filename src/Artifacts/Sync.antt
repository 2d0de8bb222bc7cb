-- ===== src/Artifacts/Sync.antt =====
-- The invariant between the map and the queue of the export table of src/server.rs.
use postgres_mcp.Prelude.{
  ◌+◌, ◌≡◌, refl, sym, ap, ◌∙◌, true, false, ◌||◌, none, some, List, [], ◌∷◌, ◌++◌, ◌==◌,
  if◌then◌else◌, Text, text_Eq, text_eq_iff, length, length-append, elem, lookup, insert, remove,
  lookup-insert, lookup-remove, length-insert, length-remove, remove_absent, Distinct,
  insert-Distinct, remove-Distinct, is_some, Option-cases, inl, inr, arith,
}
use postgres_mcp.Artifacts.{ExportArtifactRecord, Artifacts, others}

abbrev pub Unique : List Text → Type 0
Unique [] = Unit {0}
Unique (h ∷ hs) = (elem h hs ≡ false) × Unique hs

-- The queue holds each key of the map once, and nothing else.
pub record Synced (order : List Text) (m : Artifacts) : Type 0 where
  pub distinct : Distinct m
  pub unique : Unique order
  pub agree : (h : Text) → is_some (lookup h m) ≡ elem h order
  pub same_length : length m ≡ length order

pub Synced-nil : Synced [] []
unfolding lookup
Synced-nil = record { distinct = tt; unique = tt; agree = λ h. refl; same_length = refl }

pub found_some :
    (h : Text) (m : Artifacts)
    → is_some (lookup h m) ≡ true
    → (a : ExportArtifactRecord) × (lookup h m ≡ some a)
found_some h m e = elim (Option-cases (lookup h m)) [
  | inl f ↦ absurd (ground (arith, e, f))
  | inr (a, f) ↦ (a, f)
]

-- To take the head of the queue out of the map keeps the two in step.
pub Synced-tail :
    (h : Text) (hs : List Text) (m : Artifacts) → Synced (h ∷ hs) m → Synced hs (remove h m)
Synced-tail h hs m v = record {
  distinct = remove-Distinct h m v.distinct;
  unique = v.unique.1;
  agree = λ j.
      ap is_some (lookup-remove h j m) ∙ ground (arith, v.agree j, text_eq_iff h j, v.unique.0);
  same_length =
      let a = found_some h m (v.agree h ∙ ground (arith, text_eq_iff h h)) in
      omega (arith, length-remove h m a.0 v.distinct a.1, v.same_length);
}

elem-others :
    (h j : Text) (hs : List Text) → elem j (others h hs) ≡ (if h == j then false else elem j hs)
elem-others h j [] = ground arith
elem-others h j (k ∷ hs) =
    ground (arith, elem-others h j hs, text_eq_iff k h, text_eq_iff k j, text_eq_iff h j)

others-Unique : (h : Text) (hs : List Text) → Unique hs → Unique (others h hs)
others-Unique h [] u = tt
others-Unique h (k ∷ hs) u = ground (arith, others-Unique h hs u.1, elem-others h k hs, u.0)

others_absent : (h : Text) (hs : List Text) → elem h hs ≡ false → others h hs ≡ hs
others_absent h [] e = refl
others_absent h (k ∷ hs) e = ground (arith, others_absent h hs)

length-others :
    (h : Text) (hs : List Text)
    → Unique hs
    → elem h hs ≡ true
    → length (others h hs) + 1 ≡ length hs
length-others h [] u e = absurd (cc)
length-others h (k ∷ hs) u e =
    ground (arith, length-others h hs u.1, others_absent k hs u.0, text_eq_iff k h, u.0)

same_length-others :
    (h : Text) (order : List Text) (m : Artifacts)
    → Synced order m
    → length (remove h m) ≡ length (others h order)
same_length-others h order m v = elim (Option-cases (lookup h m)) [
  | inl e ↦ omega (
    arith,
    v.same_length,
    ap length (remove_absent h m e),
    ap length (others_absent h order (sym (v.agree h) ∙ ap is_some e)),
  )
  | inr (a, e) ↦ omega (
    arith,
    v.same_length,
    length-remove h m a v.distinct e,
    length-others h order v.unique (sym (v.agree h) ∙ ap is_some e),
  )
]

-- To take any handle out of both keeps them in step.
pub Synced-others :
    (h : Text) (order : List Text) (m : Artifacts)
    → Synced order m
    → Synced (others h order) (remove h m)
Synced-others h order m v = record {
  distinct = remove-Distinct h m v.distinct;
  unique = others-Unique h order v.unique;
  agree = λ j. ap is_some (lookup-remove h j m) ∙ ground (arith, v.agree j, elem-others h j order);
  same_length = same_length-others h order m v;
}

-- The source filters the queue only if the handle is in the map; else it would change nothing.
pub requeue_lem :
    (h : Text) (order : List Text) (m : Artifacts)
    → Synced order m
    → (if is_some (lookup h m) then others h order else order) ≡ others h order
requeue_lem h order m v = ground (arith, v.agree h, others_absent h order)

elem-append : (j h : Text) (hs : List Text) → elem j (hs ++ h ∷ []) ≡ (elem j hs || h == j)
elem-append j h [] = ground arith
elem-append j h (k ∷ hs) = ground (arith, elem-append j h hs)

append-Unique : (h : Text) (hs : List Text) → Unique hs → elem h hs ≡ false → Unique (hs ++ h ∷ [])
append-Unique h [] u e = (refl, tt)
append-Unique h (k ∷ hs) u e =
    ground
      (arith, append-Unique h hs u.1, elem-append k h hs, u.0, text_eq_iff k h, text_eq_iff h k)

-- A handle that is in neither goes to the end of the queue and into the map.
pub Synced-push :
    (h : Text) (a : ExportArtifactRecord) (order : List Text) (m : Artifacts)
    → Synced order m
    → lookup h m ≡ none
    → Synced (order ++ h ∷ []) (insert h a m)
Synced-push h a order m v e = record {
  distinct = insert-Distinct h a m v.distinct;
  unique = append-Unique h order v.unique (sym (v.agree h) ∙ ap is_some e);
  agree =
      λ j. ap is_some (lookup-insert h j a m) ∙ ground (arith, v.agree j, elem-append j h order);
  same_length = ground (arith, length-insert h a m, e, length-append order (h ∷ []), v.same_length);
}
