-- ===== src/RootCoordinator.antt =====
-- include/cadmia/engine/root_coordinator.hpp: `root_coordinator<T>`, the breadth-first exploration of the
-- branches.
pub mod Halt
pub mod Budget
pub mod Steps
pub mod Ready
pub mod Safe
pub mod Nested
pub mod Extends
pub mod Longer
pub mod Fresh
pub mod Reached
use cadmia.Prelude.{
  Bool, true, false, not, ◌==◌, ltb, if◌then◌else◌, List, [], ◌∷◌, ◌++◌, Option, none, some, Text,
  codes, Result, ok, err, ◌>>=◌, ◌>>◌, throw_if, map_ok, simulation_limit, is_nil, length, ℕ, zero,
  suc, ◌+◌, ◌-◌, ◌*◌, ◌/◌, ◌%◌, ◌^◌,
}
use cadmia.Prelude.Int.{ℤ, pos, negsuc, ltb_ℤ, pos_part}
use cadmia.Prelude.Maps.{map_at}
use cadmia.Scalar.{Scalar}
use cadmia.Interval.{Interval, is_empty, is_lower_infinite, is_upper_infinite}
use cadmia.Engine.{IadevsEngine}
use cadmia.CoupledModel.{CoupledModel}
use cadmia.Coordinator.State.{Coordinator, new_coordinator, init}
use cadmia.Coordinator.Branching.{BranchAction, compute_branches}
use cadmia.Coordinator.Routing.{Outcome, execute_branch}
use cadmia.Coordinator.Interface.{clone, engine_equals}

pub record LogEntry {ℓ} (V : Type ℓ) : Type ℓ where
  pub step : ℕ
  pub branch : Text
  pub kind : Text
  pub parent_branch : Option Text
  pub time : Text
  pub component : Text
  pub output : Option Text
  pub raw_output : Option V
  pub merged_into : Option Text

-- `std::to_string`: the last digits first, each in front of those after it.
unfoldable pub digits : ℕ → ℕ → Text → Text
digits zero n after = after
digits (suc fuel) n after =
    let rest = digits fuel (n / 10) ((48 + n % 10) ∷ after) in
    if ltb n 10 then (48 + n % 10) ∷ after else rest

unfoldable pub to_string : ℕ → Text
unfolding digits
to_string n = digits (suc n) n []

unfoldable pub int_to_string : ℤ → Text
int_to_string (pos n) = to_string n
int_to_string (negsuc n) = 45 ∷ to_string (suc n)

-- `static_cast<std::size_t>` of an `int`.
abbrev pub to_size : ℤ → ℕ
to_size (pos n) = n
to_size (negsuc n) = 2 ^ 64 - suc n

-- A branch of `simulate`, with `K` the type of its coordinator.
pub record Branch {ℓ} (K : Type ℓ) : Type ℓ where
  pub branch_id : Text
  pub coordinator : K
  pub parent_branch_id : Option Text
  pub step : ℕ

-- The variables of the loop of `simulate`.
pub record Run {ℓ} (V K : Type ℓ) : Type ℓ where
  pub queue : List (Branch K)
  pub log : List (LogEntry V)
  pub total_steps : ℕ
  pub next_branch_id : ℕ

abbrev limit_error : ℤ → ℕ → Text
limit_error max_branches total_steps =
    codes "Simulation exceeded max_branches limit ("
    ++ (int_to_string max_branches
        ++ (codes ") after " ++ (to_string total_steps ++ codes " steps")))

abbrev pub spent : ℤ → ℕ → Bool
spent max_steps total_steps = not (ltb_ℤ (pos total_steps) max_steps)

module _ {ℓ} {T : Type ℓ} ⦃s : Scalar T⦄ where
  unfoldable pub interval_str : (T → Text) → Interval T → Text
  unfolding is_lower_infinite is_upper_infinite
  interval_str val_str i =
      codes (if i.lower_closed then "[" else "(")
      ++ ((if is_lower_infinite i then codes "-inf" else val_str i.lower)
          ++ (codes ", "
              ++ ((if is_upper_infinite i then codes "+inf" else val_str i.upper)
                  ++ codes (if i.upper_closed then "]" else ")"))))

module _ {ℓ} {T V C E : Type ℓ} ⦃s : Scalar T⦄ (child : IadevsEngine T V E)
    (val_str : T → Text) where
  abbrev pub kind_of : Text → Coordinator T V C E → Result Text
  kind_of [] c = ok (codes "skip")
  kind_of (n ∷ ns) c = do
    e ← map_at (n ∷ ns) c.engines
    ok (if child.is_coordinator e then codes "coupled" else codes "atomic")

  unfoldable pub make_entry :
      ℕ
      → Text
      → Option Text
      → BranchAction T
      → Outcome V
      → Coordinator T V C E
      → Result (LogEntry V)
  make_entry step branch_id parent_id action outcome c = do
    kind ← kind_of action.engine_name c
    ok (record {
      step = step;
      branch = branch_id;
      kind = kind;
      parent_branch = parent_id;
      time = interval_str val_str action.limit;
      component = action.engine_name;
      output = outcome.text;
      raw_output = outcome.component_output;
      merged_into = none;
    })

  -- The log entry of a branch that is dropped, with the time and the identifier of the head.
  pub dedup_entry : Branch (Coordinator T V C E) → Branch (Coordinator T V C E) → LogEntry V
  dedup_entry head b = record {
    step = b.step;
    branch = b.branch_id;
    kind = codes "dedup";
    parent_branch = b.parent_branch_id;
    time = interval_str val_str (head.coordinator).t_next;
    component = [];
    output = none;
    raw_output = none;
    merged_into = some head.branch_id;
  }

  abbrev drop_first :
      Bool
      → Branch (Coordinator T V C E)
      → LogEntry V
      → List (Branch (Coordinator T V C E)) × List (LogEntry V)
      → List (Branch (Coordinator T V C E)) × List (LogEntry V)
  drop_first equal b entry (kept, entries) =
      if equal then (kept, entry ∷ entries) else (b ∷ kept, entries)

  -- The branches after the head that stay, and the entries of those that are equal to it.
  unfoldable pub deduplicate :
      Branch (Coordinator T V C E)
      → List (Branch (Coordinator T V C E))
      → List (Branch (Coordinator T V C E)) × List (LogEntry V)
  unfolding dedup_entry
  deduplicate head [] = ([], [])
  deduplicate head (b ∷ bs) =
      drop_first (engine_equals child head.coordinator b.coordinator) b (dedup_entry head b)
        (deduplicate head bs)

  -- A branch whose coordinator has become passive leaves the queue.
  abbrev pub unless_passive :
      Branch (Coordinator T V C E)
      → List (Branch (Coordinator T V C E))
      → List (Branch (Coordinator T V C E))
  unless_passive b bs = if is_empty (b.coordinator).t_next then bs else b ∷ bs

  -- One action: executed in place.
  unfoldable pub run_in_place :
      BranchAction T
      → Branch (Coordinator T V C E)
      → Run V (Coordinator T V C E)
      → Result (Run V (Coordinator T V C E))
  unfolding make_entry
  run_in_place action b r = do
    result ← execute_branch child action b.coordinator
    entry ← make_entry b.step b.branch_id b.parent_branch_id action (result.1) (result.0)
    ok (record r {
      queue = unless_passive (record b { coordinator = result.0; step = suc b.step }) r.queue;
      log = r.log ++ (entry ∷ []);
      total_steps = suc r.total_steps;
    })

  -- Several actions: each on a clone of the coordinator, until the steps are spent. The cast of the clone
  -- back to a coordinator cannot fail.
  unfoldable pub run_branches :
      ℤ
      → List (BranchAction T)
      → Branch (Coordinator T V C E)
      → Run V (Coordinator T V C E)
      → Result (Run V (Coordinator T V C E))
  unfolding make_entry
  run_branches max_steps [] original r = ok r
  run_branches max_steps (action ∷ actions) original r =
      if spent max_steps r.total_steps then ok r else do
        result ← execute_branch child action (clone child original.coordinator)
        let new_id = to_string r.next_branch_id
        entry ←
            make_entry original.step new_id (some original.branch_id) action (result.1) (result.0)
        run_branches max_steps actions original (record r {
          queue =
              r.queue
              ++ unless_passive
                  (record {
                    branch_id = new_id;
                    coordinator = result.0;
                    parent_branch_id = some original.branch_id;
                    step = suc original.step;
                  })
                  [];
          log = r.log ++ (entry ∷ []);
          total_steps = suc r.total_steps;
          next_branch_id = suc r.next_branch_id;
        })

  -- What happens to the head `b`, with `r.queue` the rest of the queue.
  unfoldable pub expand :
      ℤ
      → ℤ
      → Branch (Coordinator T V C E)
      → List (BranchAction T)
      → Run V (Coordinator T V C E)
      → Result (Run V (Coordinator T V C E))
  unfolding run_in_place run_branches
  expand max_steps max_branches b [] r = ok r
  expand max_steps max_branches b (action ∷ []) r = run_in_place action b r
  expand max_steps max_branches b (a₁ ∷ a₂ ∷ actions) r = do
    throw_if (ltb (to_size max_branches) (length r.queue + length (a₁ ∷ a₂ ∷ actions)))
        (simulation_limit (limit_error max_branches r.total_steps))
    run_branches max_steps (a₁ ∷ a₂ ∷ actions) b r

  -- One round for a queue with a head: duplicates are dropped, and the head is discarded or expanded.
  unfoldable pub visit :
      ℤ
      → ℤ
      → Branch (Coordinator T V C E)
      → List (Branch (Coordinator T V C E))
      → Run V (Coordinator T V C E)
      → Result (Run V (Coordinator T V C E))
  unfolding deduplicate expand compute_branches
  visit max_steps max_branches b bs r =
      let (kept, entries) = deduplicate b bs in
      let rest = record r { queue = kept; log = r.log ++ entries } in
      let t_current = (b.coordinator).t_next in
      if is_empty t_current then ok rest else do
        actions ← compute_branches child t_current b.coordinator
        expand max_steps max_branches b actions rest

  abbrev pub visit_head :
      ℤ
      → ℤ
      → List (Branch (Coordinator T V C E))
      → Run V (Coordinator T V C E)
      → Result (Option (Run V (Coordinator T V C E)))
  visit_head max_steps max_branches [] r = ok none
  visit_head max_steps max_branches (b ∷ bs) r = map_ok some (visit max_steps max_branches b bs r)

  -- One round of the loop: `none` when it ends.
  unfoldable pub round :
      ℤ → ℤ → Run V (Coordinator T V C E) → Result (Option (Run V (Coordinator T V C E)))
  unfolding visit
  round max_steps max_branches r =
      if spent max_steps r.total_steps then ok none else visit_head max_steps max_branches r.queue r

  -- The loop, on fuel: `none` when the fuel ran out.
  unfoldable pub loop :
      ℤ → ℤ → ℕ → Run V (Coordinator T V C E) → Result (Option (List (LogEntry V)))
  unfolding round
  loop max_steps max_branches zero r = ok none
  loop max_steps max_branches (suc fuel) r = do
    next ← round max_steps max_branches r
    elim next [ none ↦ ok (some r.log) | some r' ↦ loop max_steps max_branches fuel r' ]

  -- `simulate`, with `start` as in `init`. The fuel is enough, whatever the model does.
  unfoldable pub simulate :
      (C → Interval T → Result E)
      → CoupledModel T V C
      → Interval T
      → ℤ
      → ℤ
      → Result (Option (List (LogEntry V)))
  unfolding loop init new_coordinator
  simulate start model t max_steps max_branches = do
    root ← init child start t (new_coordinator model)
    loop max_steps max_branches (pos_part max_steps * suc (to_size max_branches) + 2) (record {
      queue =
          (record { branch_id = codes "0"; coordinator = root; parent_branch_id = none; step = 0 })
          ∷ [];
      log = [];
      total_steps = 0;
      next_branch_id = 1;
    })
