-- ===== src/Models/Processor.antt =====
-- include/cadmia/basic_model/iadevs/processor.hpp: a FIFO of jobs with a fixed processing time.
pub mod Fifo
pub mod Time
use cadmia.Prelude.{
  Bool, true, false, not, ◌&&◌, ◌||◌, ◌++◌, if◌then◌else◌, codes, Text, List, [], ◌∷◌, is_nil,
  length, leb, ltb, ◌==◌, Result, ok, err, ◌>>=◌, ◌>>◌, throw_if, invalid_argument, logic_error,
  out_of_range,
}
use cadmia.Prelude.Int.{ℤ, ltb_ℤ}
use cadmia.Scalar.{Scalar, Arith, to_nearest}
use cadmia.Scalar.Instances.{equal_ℤ, int_scalar}
use cadmia.Interval.{Interval, closed, right_open, is_empty, empty_interval, subtract}
use cadmia.AtomicModel.{AtomicModel}
use cadmia.Models.Literals.{Literals}
use cadmia.Models.Generator.{out_of_bounds}

-- Time on the current job, and the job identifiers in the queue, first come first.
pub record Jobs {ℓ} (T : Type ℓ) : Type ℓ where
  pub tocj : T
  pub qj : List ℤ

abbrev pub jobs {ℓ} : {T : Type ℓ} → T → List ℤ → Jobs T
jobs t q = record { tocj = t; qj = q }

-- The loop of `operator<=>` over two queues of one length.
abbrev pub queue_less : List ℤ → List ℤ → Bool
queue_less [] bs = false
queue_less (a ∷ as') [] = false
queue_less (a ∷ as') (b ∷ bs) =
    let rest = queue_less as' bs in if ltb_ℤ a b then true else if ltb_ℤ b a then false else rest

abbrev pub queue_eq : List ℤ → List ℤ → Bool
queue_eq [] [] = true
queue_eq [] (b ∷ bs) = false
queue_eq (a ∷ as') [] = false
queue_eq (a ∷ as') (b ∷ bs) = equal_ℤ a b && queue_eq as' bs

abbrev pub pop_front : List ℤ → List ℤ
pop_front [] = []
pop_front (j ∷ q) = q

-- The front of a queue that is not empty.
front_interval : List ℤ → List ℤ → Result (Interval ℤ)
front_interval (a ∷ q) (b ∷ r) = closed a b
front_interval _ _ =
    err (logic_error (codes "output: queue endpoint is empty despite non-empty state interval"))

module _ {ℓ} {T : Type ℓ} ⦃s : Scalar T⦄ where
  -- `operator<=>` is `less`: by time, then by length, then by the jobs.
  abbrev pub jobs_less : Jobs T → Jobs T → Bool
  jobs_less a b =
      if s.less a.tocj b.tocj
      then true
      else if s.less b.tocj a.tocj
      then false
      else if not (length a.qj == length b.qj)
      then ltb (length a.qj) (length b.qj)
      else queue_less a.qj b.qj

  instance abbrev pub jobs_scalar : Scalar (Jobs T)
  jobs_scalar = record {
    less = jobs_less;
    equal = λ a b. s.equal a.tocj b.tocj && queue_eq a.qj b.qj;
    default_value = jobs s.default_value [];
    has_infinity = false;
    infinity = jobs s.default_value [];
    neg_infinity = jobs s.default_value [];
  }

  -- With one job left, or none, at either end the result is the empty interval.
  unfoldable pub internal_transition : Interval (Jobs T) → Result (Interval (Jobs T))
  internal_transition i =
      if is_empty i
      then err (invalid_argument (codes "internal_transition: empty state interval"))
      else if leb (length i.lower.qj) 1 || leb (length i.upper.qj) 1
      then ok empty_interval
      else closed (jobs s.default_value (pop_front i.lower.qj))
          (jobs s.default_value (pop_front i.upper.qj))

  unfoldable pub clamp_non_negative : Interval T → Interval T
  clamp_non_negative i = if is_empty i then i else record {
    lower = if s.less i.lower s.default_value then s.default_value else i.lower;
    upper = if s.less i.upper s.default_value then s.default_value else i.upper;
    lower_closed = if s.less i.lower s.default_value then true else i.lower_closed;
    upper_closed = if s.less i.upper s.default_value then true else i.upper_closed;
  }

  unfoldable pub output : Interval (Jobs T) → Result (Interval ℤ)
  unfolding front_interval
  output i =
      if is_empty i
      then err (invalid_argument (codes "output: empty queue (should not be called when passive)"))
      else front_interval i.lower.qj i.upper.qj

module _ {T : Type 0} ⦃s : Scalar T⦄ ⦃m : Arith T⦄ (lit : Literals T) where
  unfoldable pub validate_time : Interval T → Text → Result (Unit {0})
  validate_time t place =
      if is_empty t
      then ok tt
      else throw_if (out_of_bounds lit.processing_time t)
          (invalid_argument (place ++ codes ": time outside [0, 0.250]"))

  unfoldable pub external_transition :
      Interval (Jobs T) → Interval T → Interval ℤ → Result (Interval (Jobs T))
  unfolding validate_time
  external_transition i elapsed x = do
    validate_time elapsed (codes "external_transition")
    closed (jobs (m.plus to_nearest i.lower.tocj elapsed.lower) (i.lower.qj ++ (x.lower ∷ [])))
        (jobs (m.plus to_nearest i.upper.tocj elapsed.upper) (i.upper.qj ++ (x.upper ∷ [])))

  -- Both queues hold a job: the processing time less the time already spent.
  unfoldable pub remaining : Interval (Jobs T) → Result (Interval T)
  unfolding clamp_non_negative
  remaining i = do
    processing ← closed lit.processing_time lit.processing_time
    spent ← closed i.lower.tocj i.upper.tocj
    ok (clamp_non_negative (subtract processing spent))

  unfoldable pub time_advance : Interval (Jobs T) → Result (Interval T)
  unfolding remaining
  time_advance i =
      let bound = m.minus to_nearest lit.processing_time i.upper.tocj in
      if is_empty i
      then ok empty_interval
      else if is_nil i.lower.qj && is_nil i.upper.qj
      then ok empty_interval
      else if is_nil i.lower.qj && not (is_nil i.upper.qj)
      then right_open (if s.less bound s.default_value then s.default_value else bound) s.infinity
      else if is_nil i.upper.qj
      then ok empty_interval
      else remaining i

  -- Declared in the source and called nowhere.
  unfoldable pub clamp_tocj_interval : Interval T → Interval T
  clamp_tocj_interval i =
      let z = s.default_value in
      let ub = lit.processing_time in
      if is_empty i then i else record {
        lower = if s.less i.lower z then z else if s.less ub i.lower then ub else i.lower;
        upper = if s.less i.upper z then z else if s.less ub i.upper then ub else i.upper;
        lower_closed =
            if s.less i.lower z then true else if s.less ub i.lower then true else i.lower_closed;
        upper_closed =
            if s.less i.upper z then true else if s.less ub i.upper then true else i.upper_closed;
      }

  abbrev pub processor : AtomicModel (Jobs T) T ℤ ℤ
  processor = record {
    internal_transition = internal_transition;
    external_transition = external_transition;
    output = output;
    time_advance = time_advance;
  }
