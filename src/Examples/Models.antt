-- ===== src/Examples/Models.antt =====
-- Runs of the basic models of include/cadmia/basic_model/iadevs/.
use cadmia.Prelude.{
  ◌≡◌, refl, true, false, err, invalid_argument, codes, ok, ◌>>=◌, [], ◌∷◌, map, arith,
}
use cadmia.Prelude.Int.{ℤ, pos, ◌-ℤ◌}
use cadmia.Scalar.Instances.{int_scalar, int_arith, int_exact, ℤ-IsOrdered, ℤ-RoundsOutward}
use cadmia.Interval.{Interval, empty_interval, interval, closed, is_empty, subtract}
use cadmia.Interval.Membership.{has}
use cadmia.Interval.Rounding.{encloses}
use cadmia.Models.Literals.{Literals}
use cadmia.Models.Counter
use cadmia.Models.Accumulator
use cadmia.Models.Generator
use cadmia.Models.Processor
use cadmia.Simulator.Exactly.{IsSound}
use cadmia.Models.Generator.Sound.{exact_generator, generator-IsSound}

-- Milliseconds in the place of seconds.
abbrev lit : Literals ℤ
lit = record {
  short_period = pos 997;
  long_period = pos 1005;
  low_output = pos 1997;
  high_output = pos 2003;
  processing_time = pos 250;
}

abbrev point_time : Interval ℤ
point_time = interval (pos 0) (pos 0) true true

abbrev three_to_five : Interval Counter.State
three_to_five =
    interval (Counter.state Counter.passive (pos 3)) (Counter.state Counter.passive (pos 5)) true
      true

abbrev any_event : Interval Counter.Event
any_event = interval Counter.add Counter.reset true true

add_times-read_back_example :
    (Counter.RoundTrip.add_times point_time 3 (
        interval
          (Counter.state Counter.passive (pos 0))
          (Counter.state Counter.passive (pos 0))
          true
          true)
      >>= λ i.
          Counter.external_transition i point_time (interval Counter.reset Counter.reset true true)
          >>= Counter.output_function)
    ≡ ok (interval (pos 3) (pos 3) true true)
add_times-read_back_example = Counter.RoundTrip.add_times-read_back point_time 3 (omega arith)

abbrev totals : Interval Accumulator.State
totals =
    interval (Accumulator.state Counter.passive (pos 1)) (Accumulator.state Counter.passive (pos 4))
      true true

generator-IsSound_example :
    IsSound {T = ℤ} (Generator.generator lit) (exact_generator (pos 0) (pos 1000) (pos 2000))
generator-IsSound_example =
    generator-IsSound ℤ-RoundsOutward lit (pos 0) (pos 1000) (pos 2000) refl refl refl

receive_jobs-drain_example :
    (Processor.Fifo.receive_jobs lit
        (pos 8 ∷ pos 7 ∷ [])
        (Processor.Fifo.point (Processor.jobs (pos 20) (pos 9 ∷ [])))
      >>= Processor.Fifo.drain 3)
    ≡ ok (map Processor.Fifo.point (pos 9 ∷ pos 8 ∷ pos 7 ∷ []))
receive_jobs-drain_example =
    Processor.Fifo.receive_jobs-drain ℤ-IsOrdered lit refl (pos 8 ∷ pos 7 ∷ []) (pos 20)
      (pos 9 ∷ [])

abbrev busy : Interval (Processor.Jobs ℤ)
busy =
    interval (Processor.jobs (pos 40) (pos 9 ∷ [])) (Processor.jobs (pos 90) (pos 9 ∷ [])) true true

remaining_sound_example : encloses (interval (pos 160) (pos 210) true true) (pos 200) ≡ true
unfolding Processor.time_advance closed is_empty subtract ◌-ℤ◌
remaining_sound_example =
    Processor.Time.remaining_sound ℤ-RoundsOutward lit busy (interval (pos 160) (pos 210) true true)
      (pos 50) (pos 250) refl refl refl refl refl refl refl

-- One job at the lower endpoint, two at the upper: the state in which a job is left is lost.
lost_job :
    Processor.internal_transition (
      interval
        (Processor.jobs (pos 0) (pos 1 ∷ []))
        (Processor.jobs (pos 5) (pos 1 ∷ pos 2 ∷ []))
        true
        true)
    ≡ ok (empty_interval ⦃s = Processor.jobs_scalar⦄)
unfolding Processor.internal_transition is_empty
lost_job = refl

-- One job known for sure and perhaps a second: when job 3 has come and job 1 has gone, the front of the queue is
-- between 3 and 2, and the output throws.
fronts_cross :
    (Processor.external_transition lit
        (interval
          (Processor.jobs (pos 0) (pos 1 ∷ []))
          (Processor.jobs (pos 0) (pos 1 ∷ pos 2 ∷ []))
          true
          true)
        point_time
        (interval (pos 3) (pos 3) true true)
      >>= λ i. Processor.internal_transition i >>= Processor.output)
    ≡ err (invalid_argument (codes "interval.closed: hi < lo"))
unfolding Processor.external_transition Processor.validate_time Processor.internal_transition
    Processor.output closed is_empty cadmia.Prelude.Int.◌+ℤ◌
fronts_cross = refl

-- A passive state with a count of 7 comes before an output state with a count of 3; after a reset it is lost.
abbrev mixed_phases : Interval Counter.State
mixed_phases =
    interval (Counter.state Counter.passive (pos 0)) (Counter.state Counter.output (pos 3)) true
      true

holds_seven :
    has ⦃s = Counter.state_scalar⦄ mixed_phases (Counter.state Counter.passive (pos 7)) ≡ true
holds_seven = refl

abbrev after_reset : Interval Counter.State
after_reset =
    interval (Counter.state Counter.output (pos 0)) (Counter.state Counter.output (pos 3)) true true

resets :
    Counter.external_transition mixed_phases point_time
      (interval Counter.reset Counter.reset true true)
    ≡ ok after_reset
unfolding Counter.external_transition is_empty closed
resets = refl

loses_seven :
    has ⦃s = Counter.state_scalar⦄ after_reset (Counter.state Counter.output (pos 7)) ≡ false
loses_seven = refl
