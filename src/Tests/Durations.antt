-- ===== src/Tests/Durations.antt =====
-- The view duration over whole numbers in place of floats.
use hotstuff_repbased_leader.Prelude.{
  ℕ, ◌+◌, ◌-◌, ◌*◌, ◌/◌, ◌≡◌, ◌<◌, List, [], ◌∷◌, length, ltb, arith,
}
use hotstuff_repbased_leader.ViewDuration.{
  Floats, new_view_duration, Call, started, succeeded, timed_out, call_all, deviation_sum,
  deviation_size,
}
use hotstuff_repbased_leader.ViewDuration.Deviations.{terms, measured, measured_size, deviation_lem}

abbrev whole : Floats
whole = record {
  Float = ℕ;
  add = λ a b. a + b;
  sub = λ a b. a - b;
  mul = λ a b. a * b;
  div = λ a b. a / b;
  sqrt = λ a. a;
  greater = λ a b. ltb b a;
  float = λ n. n;
  conf = 2;
}

abbrev views : List (Call whole)
views =
    started 0
    ∷ succeeded 5000000
    ∷ started 6000000
    ∷ timed_out
    ∷ succeeded 26000000
    ∷ started 26000000
    ∷ succeeded 56000000
    ∷ []

deviation_lem_example :
    (q : ℕ) × (r : ℕ) × ((call_all whole views (new_view_duration whole 2 1 100 2)).count
      ≡ r + q * 2)
    × (r < 2)
    × (length (terms whole views (new_view_duration whole 2 1 100 2) []) ≡ r + q * 2)
    × (deviation_sum whole (call_all whole views (new_view_duration whole 2 1 100 2))
        ≡ measured whole 2 q r (terms whole views (new_view_duration whole 2 1 100 2) []))
    × (deviation_size whole (call_all whole views (new_view_duration whole 2 1 100 2))
        ≡ measured_size whole 2 q r)
deviation_lem_example = deviation_lem whole 2 1 100 2 views (omega arith) (omega arith)
