-- ===== src/ViewDuration/Measures.antt =====
-- Which measurements the deviation of synchronizer/viewduration.go is made from.
use native.Mathlib.Nat.{add-mul-mod_self_right, mod-eq_of_lt}
use hotstuff_repbased_leader.Prelude.{
  ℕ, zero, suc, ◌+◌, ◌-◌, ◌*◌, ◌%◌, ◌≡◌, ◌<◌, inl, inr, refl, ap, sym, ◌∙◌, false, List, [], ◌∷◌,
  arith, length, Bool-cases, ltb, ltb→lt, ◌==◌,
}
use hotstuff_repbased_leader.ViewDuration.{Floats, ViewDuration, next_count}

abbrev pub take {ℓ} : {A : Type ℓ} → ℕ → List A → List A
take zero xs = []
take (suc n) [] = []
take (suc n) (x ∷ xs) = x ∷ take n xs

abbrev pub drop {ℓ} : {A : Type ℓ} → ℕ → List A → List A
drop zero xs = xs
drop (suc n) [] = []
drop (suc n) (x ∷ xs) = drop n xs

-- How many terms the sum of the current period has, and that of the one before it, after `q`
-- full periods of `limit` and `r` measurements more.
abbrev pub current : ℕ → ℕ → ℕ
current zero r = r
current (suc q) r = suc r

abbrev pub before : ℕ → ℕ → ℕ
before limit zero = 0
before limit (suc zero) = limit - 1
before limit (suc (suc q)) = limit

-- When a period ends, its terms are those of the period before.
before-current : (limit q r : ℕ) → limit ≡ suc r → before limit (suc q) ≡ current q r
before-current limit zero r full = omega (arith, full)
before-current limit (suc q) r full = full

current-suc : (q r : ℕ) → current q (suc r) ≡ suc (current q r)
current-suc zero r = refl
current-suc (suc q) r = refl

pub mod_lem : (limit q r : ℕ) → r < limit → (r + q * limit) % limit ≡ r
mod_lem limit q r below = add-mul-mod_self_right r q limit ∙ mod-eq_of_lt below

mod_suc : (limit q r : ℕ) → suc r < limit → suc (r + q * limit) % limit ≡ suc r
mod_suc limit q r room = ap (λ n. n % limit) (omega arith) ∙ mod_lem limit q (suc r) room

mod_end : (r q : ℕ) → suc (r + q * suc r) % suc r ≡ 0
mod_end r q = ap (λ n. n % suc r) (omega arith) ∙ mod_lem (suc r) (suc q) 0 (omega arith)

module _ (fl : Floats) where
  next_on :
      (v : ViewDuration fl)
      → v.count + 1 < 18446744073709551616
      → 0 < suc v.count % v.limit
      → next_count fl v ≡ record v { count = suc v.count }
  unfolding next_count
  next_on v small going =
      let small_count : (v.count + 1) % 18446744073709551616 ≡ suc v.count = omega (arith, small) in
      let not_zero : (suc v.count % v.limit == 0) ≡ false = ground arith in
      rw (small_count, not_zero) refl

  next_end :
      (v : ViewDuration fl)
      → v.count + 1 < 18446744073709551616
      → suc v.count % v.limit ≡ 0
      → next_count fl v ≡ record v { count = suc v.count; prev_m2 = v.m2; m2 = fl.float 0 }
  unfolding next_count
  next_end v small ends =
      let small_count : (v.count + 1) % 18446744073709551616 ≡ suc v.count = omega (arith, small) in
      rw (small_count, ends) refl

  -- In the order of the additions, the latest term first.
  abbrev pub sum : List fl.Float → fl.Float
  sum [] = fl.float 0
  sum (t ∷ ts) = fl.add (sum ts) t

  pub record Sums (limit : ℕ) (v : ViewDuration fl) (ts : List fl.Float) : Type 0 where
    pub q : ℕ
    pub r : ℕ
    pub same_limit : v.limit ≡ limit
    pub counted : v.count ≡ r + q * limit
    pub below : r < limit
    pub total : v.count ≡ length ts
    pub m2_lem : v.m2 ≡ sum (take (current q r) ts)
    pub prev_lem : v.prev_m2 ≡ sum (take (before limit q) (drop (current q r) ts))

  abbrev pub moved : ViewDuration fl → fl.Float → fl.Float → ViewDuration fl
  moved w d t = record w { mean = d; m2 = fl.add w.m2 t }

  goes_on-Sums :
      (limit : ℕ) (v : ViewDuration fl) (ts : List fl.Float) (d t : fl.Float)
      → v.count + 1 < 18446744073709551616
      → (s : Sums limit v ts) → suc s.r < limit
      → Sums limit (moved (next_count fl v) d t) (t ∷ ts)
  goes_on-Sums limit v ts d t small s room =
      let count_mod : suc v.count % v.limit ≡ suc s.r =
        rw (s.same_limit, s.counted) (mod_suc limit s.q s.r room) in
      rw (next_on v small (omega (arith, count_mod))) (record {
        q = s.q;
        r = suc s.r;
        same_limit = s.same_limit;
        counted = ap suc s.counted ∙ omega arith;
        below = room;
        total = ap suc s.total;
        m2_lem = rw (current-suc s.q s.r) (ap (λ m. fl.add m t) s.m2_lem);
        prev_lem = rw (current-suc s.q s.r) s.prev_lem;
      })

  ends-Sums :
      (limit : ℕ) (v : ViewDuration fl) (ts : List fl.Float) (d t : fl.Float)
      → v.count + 1 < 18446744073709551616
      → (s : Sums limit v ts) → limit ≡ suc s.r
      → Sums limit (moved (next_count fl v) d t) (t ∷ ts)
  ends-Sums limit v ts d t small s full =
      let count_mod : suc v.count % v.limit ≡ 0 =
        rw (s.same_limit, s.counted, full) (mod_end s.r s.q) in
      rw (next_end v small count_mod) (record {
        q = suc s.q;
        r = 0;
        same_limit = s.same_limit;
        counted = rw (s.counted, full) (omega arith);
        below = omega (arith, full);
        total = ap suc s.total;
        m2_lem = refl;
        prev_lem = s.m2_lem ∙ ap (λ n. sum (take n ts)) (sym (before-current limit s.q s.r full));
      })

  pub measure-Sums :
      (limit : ℕ) (v : ViewDuration fl) (ts : List fl.Float) (d t : fl.Float)
      → v.count + 1 < 18446744073709551616
      → Sums limit v ts
      → Sums limit (moved (next_count fl v) d t) (t ∷ ts)
  measure-Sums limit v ts d t small s = elim (Bool-cases (ltb (suc s.r) limit)) [
    | inl goes_on ↦ goes_on-Sums limit v ts d t small s (ltb→lt (suc s.r) limit goes_on)
    | inr ends ↦ ends-Sums limit v ts d t small s (ground (arith, s.below))
  ]
