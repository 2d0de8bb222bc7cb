-- ===== src/Advisor/Tests.antt =====
-- The external advisor of src/advisor_extension.rs on a concrete advisor, which proposes one index
-- and repeats it with another reason.
use postgres_mcp.Prelude.{
  ℕ, zero, suc, ◌≡◌, refl, true, Option, none, some, List, [], ◌∷◌, Text, text_eq, codes, Value,
  trim, is_empty, byte_len, to_ascii_lowercase, lookup, insert, arith,
}
use postgres_mcp.Advisor.{
  ExternalAdvisorRecommendation, NormalizedRecommendation, to_json, merge_recommendation_reason,
  normalize_external_recommendation,
}
use postgres_mcp.Advisor.Rounds.{Answer, answered, ok, run_external_advisor_loop, texts_eq}
use postgres_mcp.Advisor.Bounds.{Ended, loop-Ended}

abbrev serialize : Value → Option Text
serialize v = some []

abbrev proposed : Text → ExternalAdvisorRecommendation
proposed why = record {
  table = codes " public . users ";
  columns = codes "Email" ∷ codes "\"email\"" ∷ [];
  using_method = none;
  reason = some why;
}

abbrev answer : Text → Answer
answer why =
    answered (record { recommendations = proposed why ∷ []; errors = []; stop_reason = none })

abbrev advisor : ℕ → List Value → Answer
advisor (suc zero) told = answer (codes "slow")
advisor n told = answer (codes "unindexed")

abbrev merged : NormalizedRecommendation
merged = record {
  key = record {
    table = codes "public.users";
    columns = codes "Email" ∷ [];
    using_method = codes "btree";
  };
  reason = codes "slow | unindexed";
}

converged_test :
    run_external_advisor_loop serialize advisor true (some (codes "/bin/advisor")) 5
    ≡ ok (record {
      recommendations = to_json merged ∷ [];
      errors = [];
      attempt_count = 2;
      stop_reason = codes "converged";
    })
unfolding run_external_advisor_loop normalize_external_recommendation is_empty trim byte_len text_eq
    to_ascii_lowercase lookup insert texts_eq merge_recommendation_reason
converged_test = refl

loop-Ended_example :
    Ended serialize 5
      (run_external_advisor_loop serialize advisor true (some (codes "/bin/advisor")) 5)
loop-Ended_example = loop-Ended serialize advisor true (some (codes "/bin/advisor")) 5 (omega arith)
