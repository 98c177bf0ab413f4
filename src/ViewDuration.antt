-- ===== src/ViewDuration.antt =====
-- synchronizer/viewduration.go: the estimate of how long a view lasts. The arithmetic of float64 and
-- `math.Sqrt` are a parameter; a time is a number of nanoseconds, and the zero time is `none`.

pub mod Measures
pub mod Deviations
use hotstuff_repbased_leader.Prelude.{
  ℕ, ◌+◌, ◌-◌, ◌%◌, Bool, true, false, ◌&&◌, Option, none, some, List, [], ◌∷◌, ltb, leb, ◌==◌,
  if◌then◌else◌,
}

pub record Floats : Type 1 where
  pub Float : Type 0
  pub add : Float → Float → Float
  pub sub : Float → Float → Float
  pub mul : Float → Float → Float
  pub div : Float → Float → Float
  pub sqrt : Float → Float
  pub greater : Float → Float → Bool
  -- `float64(n)`
  pub float : ℕ → Float
  -- 1.96
  pub conf : Float

module _ (fl : Floats) where
  pub record ViewDuration : Type 0 where
    pub multiplier : fl.Float
    pub limit : ℕ
    pub count : ℕ
    pub start_time : Option ℕ
    pub mean : fl.Float
    pub m2 : fl.Float
    pub prev_m2 : fl.Float
    pub max : fl.Float

  unfoldable pub new_view_duration : ℕ → fl.Float → fl.Float → fl.Float → ViewDuration
  new_view_duration sample_size start_timeout max_timeout multiplier = record {
    multiplier = multiplier;
    limit = sample_size;
    count = 0;
    start_time = none;
    mean = start_timeout;
    m2 = fl.float 0;
    prev_m2 = fl.float 0;
    max = max_timeout;
  }

  unfoldable pub view_started : ℕ → ViewDuration → ViewDuration
  view_started now v = record v { start_time = some now }

  unfoldable pub view_timeout : ViewDuration → ViewDuration
  view_timeout v = record v { mean = fl.mul v.mean v.multiplier }

  -- One measurement more, and the reset of the sum when a period begins.
  unfoldable pub next_count : ViewDuration → ViewDuration
  next_count v =
      let count = (v.count + 1) % 18446744073709551616 in
      if count % v.limit == 0
      then record v { count = count; prev_m2 = v.m2; m2 = fl.float 0 }
      else record v { count = count }

  -- The divisor `c`, and the mean without the measurement that is thrown away.
  unfoldable pub divisor : ViewDuration → fl.Float
  divisor v = fl.float (if ltb v.limit v.count then v.limit else v.count)

  unfoldable pub kept_mean : ViewDuration → fl.Float
  unfolding divisor
  kept_mean v = if ltb v.limit v.count then fl.sub v.mean (fl.div v.mean (divisor v)) else v.mean

  -- `v.mean` after the measurement, and the term `d1 * d2`.
  unfoldable pub new_mean : fl.Float → ViewDuration → fl.Float
  unfolding divisor kept_mean
  new_mean duration v = fl.add (kept_mean v) (fl.div (fl.sub duration (kept_mean v)) (divisor v))

  unfoldable pub term : fl.Float → ViewDuration → fl.Float
  unfolding kept_mean new_mean
  term duration v = fl.mul (fl.sub duration (kept_mean v)) (fl.sub duration (new_mean duration v))

  -- Welford's algorithm.
  unfoldable pub welford : fl.Float → ViewDuration → ViewDuration
  unfolding new_mean term
  welford duration v = record v { mean = new_mean duration v; m2 = fl.add v.m2 (term duration v) }

  abbrev pub elapsed : ℕ → ℕ → fl.Float
  elapsed start now = fl.div (fl.float (now - start)) (fl.float 1000000)

  unfoldable pub succeeded_at : Option ℕ → ℕ → ViewDuration → ViewDuration
  unfolding next_count welford
  succeeded_at none now v = v
  succeeded_at (some start) now v = welford (elapsed start now) (next_count v)

  -- `ViewSucceeded`, for a limit above 0; the division by a limit of 0 is a panic.
  unfoldable pub view_succeeded : ℕ → ViewDuration → ViewDuration
  unfolding succeeded_at
  view_succeeded now v = succeeded_at v.start_time now v

  -- The sum of the squares in `Duration`, and the number that it is divided by.
  unfoldable pub deviation_sum : ViewDuration → fl.Float
  deviation_sum v = if leb v.limit v.count then fl.add v.m2 v.prev_m2 else v.m2

  unfoldable pub deviation_size : ViewDuration → fl.Float
  deviation_size v =
      if leb v.limit v.count
      then fl.add (fl.float v.limit) (fl.float (v.count % v.limit))
      else fl.float v.count

  unfoldable pub deviation : ViewDuration → fl.Float
  unfolding deviation_sum deviation_size
  deviation v =
      if ltb 1 v.count then fl.sqrt (fl.div (deviation_sum v) (deviation_size v)) else fl.float 0

  abbrev bounded : fl.Float → fl.Float → fl.Float
  bounded max duration =
      if fl.greater max (fl.float 0) && fl.greater duration max then max else duration

  -- `Duration`, in milliseconds.
  unfoldable pub duration : ViewDuration → fl.Float
  unfolding deviation
  duration v = bounded v.max (fl.add v.mean (fl.mul (deviation v) fl.conf))

  -- The calls of the synchronizer, with the time now.
  pub data Call : Type 0 where
    started : ℕ → Call
    succeeded : ℕ → Call
    timed_out : Call

  unfoldable pub call : Call → ViewDuration → ViewDuration
  unfolding view_started view_succeeded view_timeout
  call (started now) v = view_started now v
  call (succeeded now) v = view_succeeded now v
  call timed_out v = view_timeout v

  unfoldable pub call_all : List Call → ViewDuration → ViewDuration
  unfolding call
  call_all [] v = v
  call_all (c ∷ cs) v = call_all cs (call c v)
