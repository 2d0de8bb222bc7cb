-- ===== src/Advisor/Keys.antt =====
-- What the loop of src/advisor_extension.rs keeps: the index of its recommendations, and their
-- sizes.
use postgres_mcp.Prelude.{
  ℕ, zero, suc, ◌+◌, ◌≤◌, ◌≡◌, refl, sym, ap, ◌∙◌, subst, Bool, true, false, not, ◌&&◌, Option,
  none, some, List, [], ◌∷◌, ◌++◌, map, if◌then◌else◌, leb, some_eq_some, Text, text_Eq, codes,
  length, length-append, all, lookup, insert, insert-Distinct, Distinct, trim, is_empty,
  to_ascii_lowercase, byte_len, Value, arith,
}
use postgres_mcp.Advisor.{
  ExternalAdvisorRecommendation, RecommendationKey, NormalizedRecommendation, max_recommendations,
  max_errors, max_columns, max_reason_bytes, is_valid_index_method, dedupe_columns, with_columns,
  or_default, trim_quotes, split_at_char, join_with, merge_recommendation_reason,
  normalize_external_error_item, normalize_external_recommendation,
}
use postgres_mcp.Advisor.Rounds.{
  Answer, key_Eq, key_eq, LoopState, merge_at, placed, take_in, absorb, push_errors, fresh,
}

-- The places of the keys.
abbrev pub index_of : ℕ → List NormalizedRecommendation → List (RecommendationKey × ℕ)
index_of i [] = []
index_of i (r ∷ rs) = (r.key, i) ∷ index_of (suc i) rs

-- The limits of one recommendation.
abbrev pub within_limits : NormalizedRecommendation → Bool
within_limits r =
    not (is_empty r.key.columns)
    && leb (length r.key.columns) max_columns
    && is_valid_index_method r.key.using_method
    && leb (byte_len r.reason) max_reason_bytes

dedupe-le :
    (seen columns raws cs : List Text)
    → dedupe_columns seen columns raws ≡ some cs
    → length cs ≤ length columns + length raws
unfolding dedupe_columns
dedupe-le seen columns [] cs e = rw (← some_eq_some e) (omega arith)
dedupe-le seen columns (raw ∷ more) cs e =
    let column = trim_quotes (trim raw) in
    let lowered = to_ascii_lowercase column in
    ground (
      arith,
      e,
      dedupe-le seen columns more cs,
      dedupe-le (lowered ∷ seen) (columns ++ column ∷ []) more cs,
      length-append columns (column ∷ []),
    )

with_columns-within :
    (table method reason : Text) (o : Option (List Text)) (r : NormalizedRecommendation)
    → ((cs : List Text) → o ≡ some cs → length cs ≤ max_columns)
    → with_columns table method reason o ≡ some r
    → within_limits r ≡ true
with_columns-within table method reason none r h e = cc
with_columns-within table method reason (some cs) r h e = ground (arith, e, h cs refl)

pub normalize-within :
    (rec : ExternalAdvisorRecommendation) (r : NormalizedRecommendation)
    → normalize_external_recommendation rec ≡ some r
    → within_limits r ≡ true
unfolding normalize_external_recommendation
normalize-within rec r e =
    with_columns-within (join_with (codes ".") (map trim (split_at_char b'.' (trim rec.table))))
      (to_ascii_lowercase (or_default (codes "btree") rec.using_method))
      (or_default (codes "external advisor recommendation") rec.reason)
      (dedupe_columns [] [] rec.columns) r (λ cs k. few_columns cs k) (ground (arith, e))
  where
    few : length rec.columns ≤ max_columns
    few = ground (arith, e)

    few_columns :
        (cs : List Text) → dedupe_columns [] [] rec.columns ≡ some cs → length cs ≤ max_columns
    few_columns cs k = omega (arith, few, dedupe-le [] [] rec.columns cs k)

merge-le :
    (current incoming : Text)
    → byte_len current ≤ max_reason_bytes
    → byte_len (merge_recommendation_reason current incoming) ≤ max_reason_bytes
unfolding merge_recommendation_reason
merge-le current incoming h = ground (arith, h)

merge_at-within :
    (i : ℕ) (incoming : Text) (rs : List NormalizedRecommendation)
    → all within_limits rs ≡ true
    → all within_limits (merge_at i incoming rs) ≡ true
merge_at-within i incoming [] h = refl
merge_at-within zero incoming (r ∷ rs) h = ground (arith, h, merge-le r.reason incoming)
merge_at-within (suc i) incoming (r ∷ rs) h =
    ground (arith, h, merge_at-within i incoming rs (ground (arith, h)))

merge_at-index :
    (i j : ℕ) (incoming : Text) (rs : List NormalizedRecommendation)
    → index_of j (merge_at i incoming rs) ≡ index_of j rs
merge_at-index i j incoming [] = refl
merge_at-index zero j incoming (r ∷ rs) = refl
merge_at-index (suc i) j incoming (r ∷ rs) =
    ap (λ m. (r.key, j) ∷ m) (merge_at-index i (suc j) incoming rs)

length-merge_at :
    (i : ℕ) (incoming : Text) (rs : List NormalizedRecommendation)
    → length (merge_at i incoming rs) ≡ length rs
length-merge_at i incoming [] = refl
length-merge_at zero incoming (r ∷ rs) = refl
length-merge_at (suc i) incoming (r ∷ rs) = ap suc (length-merge_at i incoming rs)

add_zero : (j : ℕ) → j + 0 ≡ j
add_zero j = omega arith

zero_add : (n : ℕ) → n ≡ 0 + n
zero_add n = omega arith

add_suc : (j n : ℕ) → j + suc n ≡ suc j + n
add_suc j n = omega arith

insert-index :
    (j : ℕ) (r : NormalizedRecommendation) (rs : List NormalizedRecommendation)
    → lookup r.key (index_of j rs) ≡ none
    → insert r.key (j + length rs) (index_of j rs) ≡ index_of j (rs ++ r ∷ [])
unfolding insert lookup
insert-index j r [] h = rw (add_zero j) refl
insert-index j r (s ∷ rs) h =
    ap (λ n. insert r.key n (index_of j (s ∷ rs))) (add_suc j (length rs))
    ∙ rw ((apart (key_eq s.key r.key) h).0)
        (ap (λ m. (s.key, j) ∷ m) (insert-index (suc j) r rs (apart (key_eq s.key r.key) h).1))
  where
    apart :
        (t : Bool)
        → (if t then some j else lookup r.key (index_of (suc j) rs)) ≡ none
        → (t ≡ false) × (lookup r.key (index_of (suc j) rs) ≡ none)
    apart true e = cc
    apart false e = (refl, e)

all-snoc :
    (r : NormalizedRecommendation) (rs : List NormalizedRecommendation)
    → all within_limits rs ≡ true
    → within_limits r ≡ true
    → all within_limits (rs ++ r ∷ []) ≡ true
all-snoc r [] h k = ground (arith, k)
all-snoc r (s ∷ rs) h k = ground (arith, h, all-snoc r rs (ground (arith, h)) k)

-- The state before each attempt.
pub record IsLoopState (st : LoopState) : Type 0 where
  pub indexed : st.recommendation_index ≡ index_of 0 st.ordered
  pub distinct : Distinct st.recommendation_index
  pub few : length st.ordered ≤ max_recommendations
  pub few_errors : length st.external_errors ≤ max_errors
  pub limited : all within_limits st.ordered ≡ true

pub fresh-IsLoopState :
    (serialize : Value → Option Text) (invoke : ℕ → List Value → Answer)
    → IsLoopState (fresh serialize invoke)
fresh-IsLoopState serialize invoke = record {
  indexed = refl;
  distinct = tt;
  few = omega arith;
  few_errors = omega arith;
  limited = refl;
}

push-IsLoopState :
    (st : LoopState) (r : NormalizedRecommendation)
    → IsLoopState st
    → within_limits r ≡ true
    → lookup r.key st.recommendation_index ≡ none
    → leb max_recommendations (length st.ordered) ≡ false
    → IsLoopState (record st {
      recommendation_index = insert r.key (length st.ordered) st.recommendation_index;
      ordered = st.ordered ++ r ∷ [];
    })
push-IsLoopState st r h k e room = record {
  indexed =
      ap (insert r.key (length st.ordered)) h.indexed
      ∙ ap (λ n. insert r.key n (index_of 0 st.ordered)) (zero_add (length st.ordered))
      ∙ insert-index 0 r st.ordered (ap (lookup r.key) (sym h.indexed) ∙ e);
  distinct = insert-Distinct r.key (length st.ordered) st.recommendation_index h.distinct;
  few = ground (arith, room, length-append st.ordered (r ∷ []));
  few_errors = h.few_errors;
  limited = all-snoc r st.ordered h.limited k;
}

merge-IsLoopState :
    (st : LoopState) (i : ℕ) (incoming : Text)
    → IsLoopState st
    → IsLoopState (record st { ordered = merge_at i incoming st.ordered })
merge-IsLoopState st i incoming h = record {
  indexed = h.indexed ∙ sym (merge_at-index i 0 incoming st.ordered);
  distinct = h.distinct;
  few = omega (arith, h.few, length-merge_at i incoming st.ordered);
  few_errors = h.few_errors;
  limited = merge_at-within i incoming st.ordered h.limited;
}

none_or {ℓ} :
    {A : Type ℓ} (t : Bool) (x y : A)
    → (if t then none else some x) ≡ some y
    → (t ≡ false) × (x ≡ y)
none_or true x y e = cc
none_or false x y e = (refl, some_eq_some e)

placed-IsLoopState :
    (o : Option ℕ) (r : NormalizedRecommendation) (st next : LoopState) (added : ℕ)
    → IsLoopState st
    → within_limits r ≡ true
    → lookup r.key st.recommendation_index ≡ o
    → placed o r st ≡ some (next, added)
    → IsLoopState next
placed-IsLoopState (some i) r st next added h k found e =
    subst IsLoopState (ap (λ p. p.0) (some_eq_some e)) (merge-IsLoopState st i r.reason h)
placed-IsLoopState none r st next added h k found e =
    let room = none_or (leb max_recommendations (length st.ordered)) _ (next, added) e in
    subst IsLoopState (ap (λ p. p.0) room.1) (push-IsLoopState st r h k found room.0)

bound {ℓ κ} :
    {A : Type ℓ} {B : Type κ} (o : Option A) (k : A → Option B) (b : B)
    → (elim o [ none ↦ none | some a ↦ k a ]) ≡ some b
    → (a : A) × (o ≡ some a) × (k a ≡ some b)
bound none k b e = cc
bound (some a) k b e = (a, refl, e)

pub absorb-IsLoopState :
    (recs : List ExternalAdvisorRecommendation) (st next : LoopState) (new_items total : ℕ)
    → IsLoopState st
    → absorb recs st new_items ≡ some (next, total)
    → IsLoopState next
unfolding absorb
absorb-IsLoopState [] st next new_items total h e =
    subst IsLoopState (ap (λ p. p.0) (some_eq_some e)) h
absorb-IsLoopState (rec ∷ recs) st next new_items total h e =
    let normal = bound (normalize_external_recommendation rec) _ (next, total) e in
    let placed_at = bound (take_in normal.0 st) _ (next, total) normal.2 in
    absorb-IsLoopState recs placed_at.0.0 next (new_items + placed_at.0.1) total
      (placed-IsLoopState (lookup normal.0.key st.recommendation_index) normal.0 st placed_at.0.0
        placed_at.0.1 h (normalize-within rec normal.0 normal.1) refl placed_at.1)
      placed_at.2

pub push_errors-le :
    (serialize : Value → Option Text) (external_errors errors all_errors : List Value)
    → length external_errors ≤ max_errors
    → push_errors serialize external_errors errors ≡ some all_errors
    → length all_errors ≤ max_errors
unfolding push_errors
push_errors-le serialize external_errors [] all_errors h e = rw (← some_eq_some e) h
push_errors-le serialize external_errors (x ∷ errors) all_errors h e = ground (
  arith,
  e,
  h,
  length-append external_errors (normalize_external_error_item serialize x ∷ []),
  push_errors-le serialize (external_errors ++ normalize_external_error_item serialize x ∷ [])
      errors all_errors,
)
