-- ===== src/Models/Processor/Fifo.antt =====
-- The queue of processor.hpp, on states and jobs that are known exactly.
use cadmia.Prelude.{
  ◌≡◌, refl, sym, true, false, List, [], ◌∷◌, ◌++◌, map, length, Result, ok, ◌>>=◌, arith, suc, ℕ,
  zero,
}
use mathlib.Core.List.{append_assoc, append-nil}
use cadmia.Prelude.Int.{ℤ}
use cadmia.Scalar.{Scalar, Arith, to_nearest}
use cadmia.Scalar.Laws.{IsOrdered}
use cadmia.Scalar.Instances.{int_scalar}
use cadmia.Interval.{Interval, interval, closed, is_empty, empty_interval}
use cadmia.Interval.Factories.{closed_ok}
use cadmia.Models.Literals.{Literals}
use cadmia.Models.Processor.{
  Jobs, jobs, jobs_less, jobs_scalar, queue_less, internal_transition, output, external_transition,
}

abbrev pub point {ℓ} : {A : Type ℓ} → A → Interval A
point a = interval a a true true

queue_less_irrefl : (q : List ℤ) → queue_less q q ≡ false
queue_less_irrefl [] = refl
queue_less_irrefl (j ∷ q) = ground (arith, queue_less_irrefl q)

module _ {T : Type 0} ⦃s : Scalar T⦄ where
  -- Firing `n` times: each time the output, then the internal transition.
  pub drain : ℕ → Interval (Jobs T) → Result (List (Interval ℤ))
  drain zero i = ok []
  drain (suc n) i = do y ← output i; i' ← internal_transition i; rest ← drain n i'; ok (y ∷ rest)

  -- Jobs that arrive one after the other, each with no time elapsed since the event before.
  pub receive_jobs :
      ⦃m : Arith T⦄ → Literals T → List ℤ → Interval (Jobs T) → Result (Interval (Jobs T))
  receive_jobs lit [] i = ok i
  receive_jobs lit (j ∷ js) i =
      external_transition lit i (point s.default_value) (point j) >>= receive_jobs lit js

module _ {T : Type 0} ⦃s : Scalar T⦄ (laws : IsOrdered T) where
  jobs_less_irrefl : (a : Jobs T) → jobs_less a a ≡ false
  jobs_less_irrefl a = ground (arith, laws.irrefl a.tocj, queue_less_irrefl a.qj)

  closed-point : (a : Jobs T) → closed a a ≡ ok (point a)
  closed-point a = closed_ok a a (jobs_less_irrefl a)

  output_front : (t : T) (j : ℤ) (q : List ℤ) → output (point (jobs t (j ∷ q))) ≡ ok (point j)
  unfolding output is_empty closed
  output_front t j q = ground arith

  internal_more :
      (t : T) (j k : ℤ) (q : List ℤ)
      → internal_transition (point (jobs t (j ∷ k ∷ q))) ≡ ok (point (jobs s.default_value (k ∷ q)))
  unfolding internal_transition is_empty
  internal_more t j k q = ground (arith, closed-point (jobs s.default_value (k ∷ q)))

  internal_last :
      (t : T) (j : ℤ) → internal_transition (point (jobs t (j ∷ []))) ≡ ok empty_interval
  unfolding internal_transition is_empty
  internal_last t j = refl

  -- Firing once for each job of the queue outputs the jobs, first come first.
  pub drain_lem : (t : T) (q : List ℤ) → drain (length q) (point (jobs t q)) ≡ ok (map point q)
  unfolding drain
  drain_lem t [] = refl
  drain_lem t (j ∷ []) = rw (output_front t j [], internal_last t j)
  drain_lem t (j ∷ k ∷ q) =
      rw (output_front t j (k ∷ q), internal_more t j k q, drain_lem s.default_value (k ∷ q))

  module _ ⦃m : Arith T⦄ (lit : Literals T)
      (running : s.less lit.processing_time s.default_value ≡ false) where
    receive_one :
        (t : T) (q : List ℤ) (j : ℤ)
        → external_transition lit (point (jobs t q)) (point s.default_value) (point j)
          ≡ ok (point (jobs (m.plus to_nearest t s.default_value) (q ++ (j ∷ []))))
    unfolding external_transition is_empty
    receive_one t q j = ground (
      arith,
      running,
      laws.irrefl s.default_value,
      closed-point (jobs (m.plus to_nearest t s.default_value) (q ++ (j ∷ []))),
    )

    -- From a state interval of a single point, over an ordered type and with a processing time that is not
    -- negative: jobs that are each known exactly, and that arrive with no time elapsed while nothing fires,
    -- stand in the queue behind those before them, and then leave in the order in which they came, one for
    -- each firing.
    pub receive_jobs-drain :
        (js : List ℤ) (t : T) (q : List ℤ)
        → (receive_jobs lit js (point (jobs t q)) >>= drain (length (q ++ js)))
          ≡ ok (map point (q ++ js))
    unfolding receive_jobs
    receive_jobs-drain [] t q = rw (append-nil q) (drain_lem t q)
    receive_jobs-drain (j ∷ js) t q =
        rw (receive_one t q j, sym (append_assoc q (j ∷ []) js))
          (receive_jobs-drain js (m.plus to_nearest t s.default_value) (q ++ (j ∷ [])))
