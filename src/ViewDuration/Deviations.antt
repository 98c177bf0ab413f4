-- ===== src/ViewDuration/Deviations.antt =====
-- What `Duration` of synchronizer/viewduration.go is made from, after any calls.
use hotstuff_repbased_leader.Prelude.{
  ℕ, zero, suc, ◌+◌, ◌*◌, ◌%◌, ◌≡◌, ◌≤◌, ◌<◌, refl, ap, sym, ◌∙◌, true, false, Option, none, some,
  List, [], ◌∷◌, arith, length, leb,
}
use hotstuff_repbased_leader.ViewDuration.{
  Floats, ViewDuration, new_view_duration, view_started, view_timeout, next_count, welford, term,
  elapsed, succeeded_at, view_succeeded, deviation_sum, deviation_size, Call, started, succeeded,
  timed_out, call, call_all,
}
use hotstuff_repbased_leader.ViewDuration.Measures.{
  take, drop, before, current, sum, Sums, measure-Sums, mod_lem,
}

take-length {ℓ} : {A : Type ℓ} (xs : List A) → take (length xs) xs ≡ xs
take-length [] = refl
take-length (x ∷ xs) = ap (λ ys. x ∷ ys) (take-length xs)

module _ (fl : Floats) where
  -- The term that a successful view adds, if its start is known.
  abbrev with_term : Option ℕ → ℕ → ViewDuration fl → List fl.Float → List fl.Float
  with_term none now v ts = ts
  with_term (some start) now v ts = term fl (elapsed fl start now) (next_count fl v) ∷ ts

  -- All terms of a run, the latest first.
  unfoldable pub terms : List (Call fl) → ViewDuration fl → List fl.Float → List fl.Float
  terms [] v ts = ts
  terms (succeeded now ∷ cs) v ts =
      terms cs (call fl (succeeded now) v) (with_term v.start_time now v ts)
  terms (c ∷ cs) v ts = terms cs (call fl c v) ts

  succeeded_at-Sums :
      (start : Option ℕ) (now limit : ℕ) (v : ViewDuration fl) (ts : List fl.Float)
      → v.count + 1 < 18446744073709551616
      → Sums fl limit v ts
      → Sums fl limit (succeeded_at fl start now v) (with_term start now v ts)
  unfolding succeeded_at welford
  succeeded_at-Sums none now limit v ts small s = s
  succeeded_at-Sums (some start) now limit v ts small s = measure-Sums fl limit v ts _ _ small s

  other_fields :
      (limit : ℕ) (v : ViewDuration fl) (ts : List fl.Float)
      → Sums fl limit v ts
      → (start : Option ℕ) (mean : fl.Float)
      → Sums fl limit (record v { start_time = start; mean = mean }) ts
  other_fields limit v ts s start mean = record {
    q = s.q;
    r = s.r;
    same_limit = s.same_limit;
    counted = s.counted;
    below = s.below;
    total = s.total;
    m2_lem = s.m2_lem;
    prev_lem = s.prev_lem;
  }

  length-with_term :
      (start : Option ℕ) (now : ℕ) (v : ViewDuration fl) (ts : List fl.Float)
      → length (with_term start now v ts) ≤ suc (length ts)
  length-with_term none now v ts = omega arith
  length-with_term (some start) now v ts = omega arith

  run-Sums :
      (cs : List (Call fl)) (limit : ℕ) (v : ViewDuration fl) (ts : List fl.Float)
      → length ts + length cs < 18446744073709551616
      → Sums fl limit v ts
      → Sums fl limit (call_all fl cs v) (terms cs v ts)
  unfolding call_all call view_started view_timeout view_succeeded terms
  run-Sums [] limit v ts small s = s
  run-Sums (started now ∷ cs) limit v ts small s =
      run-Sums cs limit (call fl (started now) v) ts (omega (arith, small))
        (other_fields limit v ts s (some now) v.mean)
  run-Sums (timed_out ∷ cs) limit v ts small s =
      run-Sums cs limit (call fl timed_out v) ts (omega (arith, small))
        (other_fields limit v ts s v.start_time (fl.mul v.mean v.multiplier))
  run-Sums (succeeded now ∷ cs) limit v ts small s =
      run-Sums cs limit (call fl (succeeded now) v) (with_term v.start_time now v ts)
        (omega (arith, length-with_term v.start_time now v ts, small))
        (succeeded_at-Sums v.start_time now limit v ts (omega (arith, small, s.total)) s)

  new-Sums :
      (limit : ℕ) (start max mult : fl.Float)
      → 0 < limit
      → Sums fl limit (new_view_duration fl limit start max mult) []
  unfolding new_view_duration
  new-Sums limit start max mult some_limit = record {
    q = 0;
    r = 0;
    same_limit = refl;
    counted = omega arith;
    below = some_limit;
    total = refl;
    m2_lem = refl;
    prev_lem = refl;
  }

  -- What the deviation is made from after `q` full periods and `r` measurements more.
  abbrev pub measured : ℕ → ℕ → ℕ → List fl.Float → fl.Float
  measured limit zero r ts = sum fl ts
  measured limit (suc q) r ts =
      fl.add (sum fl (take (suc r) ts)) (sum fl (take (before limit (suc q)) (drop (suc r) ts)))

  abbrev pub measured_size : ℕ → ℕ → ℕ → fl.Float
  measured_size limit zero r = fl.float r
  measured_size limit (suc q) r = fl.add (fl.float limit) (fl.float r)

  measured_lem :
      (q r limit : ℕ) (v : ViewDuration fl) (ts : List fl.Float)
      → v.limit ≡ limit
      → v.count ≡ r + q * limit
      → r < limit
      → v.count ≡ length ts
      → v.m2 ≡ sum fl (take (current q r) ts)
      → v.prev_m2 ≡ sum fl (take (before limit q) (drop (current q r) ts))
      → (deviation_sum fl v ≡ measured limit q r ts)
        × (deviation_size fl v ≡ measured_size limit q r)
  unfolding deviation_sum deviation_size
  measured_lem zero r limit v ts same counted below total m2 prev =
      let count_lem : v.count ≡ r = omega (arith, counted) in
      let early : leb v.limit v.count ≡ false = ground arith in
      let all_terms = ap (λ n. take n ts) (sym count_lem ∙ total) ∙ take-length ts in
      (rw early (m2 ∙ ap (sum fl) all_terms), rw early (ap fl.float count_lem))
  measured_lem (suc q) r limit v ts same counted below total m2 prev =
      let enough : limit ≤ v.count = omega (arith, counted) in
      let late : leb v.limit v.count ≡ true = ground arith in
      let count_mod : v.count % v.limit ≡ r = rw (same, counted) (mod_lem limit (suc q) r below) in
      (rw (late, m2, prev) refl, rw (late, count_mod, same) refl)

  -- After any calls of a view duration with a limit above 0, so many that the count does not wrap
  -- around, with `count` measurements in all, which are `q` full periods of `limit` and `r` more.
  -- Before the first period is full, the deviation is made from all terms, and divided by their
  -- number. Later it is made from the last `r + 1` terms and the `limit` terms before them, in the
  -- first such period the `limit - 1` ones, and always divided by `limit + r`.
  pub deviation_lem :
      (limit : ℕ) (start max mult : fl.Float) (cs : List (Call fl))
      → 0 < limit
      → length cs < 18446744073709551616
      → (q : ℕ) × (r : ℕ) × ((call_all fl cs (new_view_duration fl limit start max mult)).count
          ≡ r + q * limit)
        × (r < limit)
        × (length (terms cs (new_view_duration fl limit start max mult) []) ≡ r + q * limit)
        × (deviation_sum fl (call_all fl cs (new_view_duration fl limit start max mult))
            ≡ measured limit q r (terms cs (new_view_duration fl limit start max mult) []))
        × (deviation_size fl (call_all fl cs (new_view_duration fl limit start max mult))
            ≡ measured_size limit q r)
  deviation_lem limit start max mult cs some_limit short =
      let v = new_view_duration fl limit start max mult in
      let s =
        run-Sums cs limit v [] (omega (arith, short)) (new-Sums limit start max mult some_limit) in
      let w = call_all fl cs v in
      let (sum_lem, size_lem) =
        measured_lem s.q s.r limit w (terms cs v []) s.same_limit s.counted s.below s.total s.m2_lem
          s.prev_lem in
      (s.q, s.r, s.counted, s.below, sym s.total ∙ s.counted, sum_lem, size_lem)
