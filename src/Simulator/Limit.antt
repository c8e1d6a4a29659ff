-- ===== src/Simulator/Limit.antt =====
-- `advance_t_next_past_limit` against the points of the two intervals.
use cadmia.Prelude.{◌≡◌, true, false, not, ◌&&◌, ◌||◌, arith}
use cadmia.Scalar.{Scalar}
use cadmia.Scalar.Laws.{IsOrdered}
use cadmia.Interval.{Interval, intersects}
use cadmia.Interval.Membership.{has, intersects_complete}
use cadmia.Interval.Beyond.{
  beyond, is_punctual-beyond, beyond-above_lower, has-not-beyond, intersects-not-is_empty,
}
use cadmia.Simulator.{Simulator, advance}

module _ {ℓ} {S T : Type ℓ} ⦃s : Scalar T⦄ (laws : IsOrdered T) where
  -- `advance_t_next_past_limit` keeps the points of `t_next` that lie after the limit, and all of them
  -- where `t_next` does not meet the limit.
  pub has-advance :
      (limit : Interval T) (sim : Simulator S T) (v : T)
      → has (advance limit sim).t_next v
        ≡ (has sim.t_next v && (not (intersects sim.t_next limit) || beyond limit v))
  unfolding advance
  has-advance limit sim v = ground (
    arith,
    intersects-not-is_empty sim.t_next limit,
    is_punctual-beyond laws limit v,
    beyond-above_lower laws sim.t_next limit v,
  )

  -- After `advance_t_next_past_limit` no point of the limit is left in `t_next`.
  pub advance_excludes :
      (limit : Interval T) (sim : Simulator S T) (v : T)
      → has limit v ≡ true
      → has (advance limit sim).t_next v ≡ false
  advance_excludes limit sim v h = ground (
    arith,
    has-advance limit sim v,
    has-not-beyond laws limit v h,
    intersects_complete laws sim.t_next limit v,
  )
