-- ===== src/Examples/Scheduler.antt =====
-- A pool of three resources for two claims (crates/openark-spectrum-scheduler/src/lib.rs).
use Prim.Native.Nat.{◌/◌}
use eecs_k8s.Prelude.{
  ◌<◌, ℕ, zero, suc, ◌+◌, ◌-◌, ◌*◌, ◌≤◌, ◌<◌, ◌≡◌, refl, ◌⊎◌, Bool, true, false, Option, none, some,
  List, [], ◌∷◌, ◌==◌, ==→eq, ltb, leb, length, All, get_elem?, arith, if◌then◌else◌, ◌&&◌,
  Bool-cases, inl, inr,
}
use eecs_k8s.Prelude.Int.{ℤ, pos}
use eecs_k8s.Prelude.Select.{count_if}
use eecs_k8s.Prelude.Panic.{Safe, Yields, ok}
use eecs_k8s.Spectrum.Float.{Float, FloatLaws, OrderLaws}
use eecs_k8s.Spectrum.Schema.{PoolResource, pending, preparing}
use eecs_k8s.Spectrum.Item.{Item, WeightedItems}
use eecs_k8s.Spectrum.Milp.{
  Problem, Solution, Variable, Constraint, y, deviation, solved, unsolved, infeasible, eq_to, le_to,
  ge_to,
}
use eecs_k8s.Spectrum.Milp.Rows.{eval, Meets, Solves}
use eecs_k8s.Spectrum.Milp.Store.{placed}
use eecs_k8s.Spectrum.Milp.Round.{IsHonest}
use eecs_k8s.Spectrum.Scheduler.{schedule, plan, weights_avg, least, group_tiers}
use eecs_k8s.Spectrum.Scheduler.Total.{schedule-Safe}
use eecs_k8s.Spectrum.Scheduler.Collect.{schedule_once, handed}
use eecs_k8s.Spectrum.Scheduler.Locked.{held, plan_locks}
use eecs_k8s.Spectrum.Scheduler.Conserve.{plan_conserves}
use eecs_k8s.Spectrum.Scheduler.Weights.{weights_avg-least}
use eecs_k8s.Spectrum.Scheduler.Ascending.{group_tiers-IsAscending, IsAscending, tiers_count}

abbrev min_ℕ : ℕ → ℕ → ℕ
min_ℕ a b = if leb a b then a else b

abbrev max_ℕ : ℕ → ℕ → ℕ
max_ℕ a b = if leb b a then a else b

-- Numbers in halves.
abbrev halves : Float
halves = record {
  F = ℕ;
  zero = 0;
  half = 1;
  one = 2;
  two = 4;
  of_nat = λ n. 2 * n;
  add = λ a b. a + b;
  div = λ a b. a * 2 / b;
  mul = λ a b. a * b / 2;
  sub = λ a b. a - b;
  lt = ltb;
  le = leb;
  min = min_ℕ;
  max = max_ℕ;
}

halves_laws : FloatLaws halves
halves_laws = record {
  over_half = λ a b c h hb hc ba. ground arith;
  add_nonneg = λ a b ha hb. ground arith;
  add_nonneg_right = λ a b ha hb. ground arith;
  le_refl = λ a. ground arith;
  le_trans = λ a b c h k. ground arith;
}

halves_order : OrderLaws halves
halves_order = record {
  le_refl = λ a. ground arith;
  le_total = λ a b h. ground arith;
  le_trans = λ a b c h k. ground arith;
  min_right = λ a b h. ground arith;
  max_left = λ a b h. ground arith;
}

-- Each row takes the first column, if this meets the constraints.
abbrev first_column : Variable → ℕ
first_column (y row zero) = 2
first_column (y row (suc col)) = 0
first_column deviation = 2000

abbrev meets? : Constraint ℕ → Bool
meets? (eq_to a b) = eval halves first_column a == eval halves first_column b
meets? (le_to a b) = leb (eval halves first_column a) (eval halves first_column b)
meets? (ge_to a b) = leb (eval halves first_column b) (eval halves first_column a)

abbrev all_meet? : List (Constraint ℕ) → Bool
all_meet? [] = true
all_meet? (c ∷ cs) = meets? c && all_meet? cs

All-Meets : (cs : List (Constraint ℕ)) → all_meet? cs ≡ true → All (Meets halves first_column) cs
All-Meets [] h = tt
All-Meets (eq_to a b ∷ cs) h = ground (arith, All-Meets cs)
All-Meets (le_to a b ∷ cs) h = ground (arith, All-Meets cs)
All-Meets (ge_to a b ∷ cs) h = ground (arith, All-Meets cs)

abbrev answer : Bool → Solution ℕ
answer true = solved first_column
answer false = unsolved infeasible

abbrev solver : Problem ℕ → Solution ℕ
solver p = answer (all_meet? p.constraints)

first_column-nonneg : (row col : ℕ) → leb 0 (first_column (y row col)) ≡ true
first_column-nonneg row zero = refl
first_column-nonneg row (suc col) = refl

honest : IsHonest halves solver
honest p value e = elim (Bool-cases (all_meet? p.constraints)) [
  | inl met ↦
      rw (← same met) (record { meets = All-Meets p.constraints met; nonneg = first_column-nonneg })
  | inr not_met ↦ none_answered not_met
]
  where
    same : all_meet? p.constraints ≡ true → first_column ≡ value
    same met = ground (arith, e)

    none_answered : all_meet? p.constraints ≡ false → Solves halves p value
    none_answered not_met = ground (arith, e)

abbrev free : PoolResource ℕ
free = record { claim = none; state = pending }

abbrev locked : PoolResource ℕ
locked = record { claim = some 1; state = preparing }

abbrev claim_of : ℤ → Option ℕ → Option ℕ → ℕ → Item ℕ ℕ
claim_of priority min max item = record {
  lifecycle = record { pre_start = [] };
  resource = record { penalty = 0; priority = priority; min = min; max = max; weight = 1 };
  item = item;
}

abbrev items : List (Item ℕ ℕ)
items = claim_of (pos 0) (some 2) (some 600) 7 ∷ claim_of (pos 1) none none 8 ∷ []

abbrev bound : List (PoolResource ℕ)
bound = free ∷ locked ∷ free ∷ []

abbrev resources : WeightedItems ℕ ℕ
resources = record { items = 10 ∷ 11 ∷ 12 ∷ []; weights = some 200 ∷ none ∷ some 300 ∷ [] }

abbrev is_last : ℕ → Bool
is_last i = i == 12

abbrev outcome : Option ℕ
outcome = elim (schedule halves solver items bound resources) [
  | ok out ↦ some (handed is_last out)
  | _ ↦ none
]

-- The last resource is handed out, in a round that the solver answers.
outcome_lem : outcome ≡ some 1
unfolding schedule eecs_k8s.Prelude.Set.modify eecs_k8s.Prelude.Set.insert
    eecs_k8s.Prelude.Set.remove count_if
outcome_lem = refl

schedule-Safe_example :
    Safe
      (λ out. length out ≡ length items ⊎ (length resources.items ≡ 0 × length out ≡ 0))
      (schedule halves solver items bound resources)
schedule-Safe_example =
    schedule-Safe halves solver items bound resources refl (omega arith)
      ((λ j e. ground arith), ((λ j e. ground arith), ((λ j e. ground arith), tt)))

schedule_once_example :
    Yields
      (λ out. handed is_last out ≤ count_if is_last resources.items)
      (schedule halves solver items bound resources)
schedule_once_example = schedule_once is_last halves solver items bound resources

plan_conserves_example :
    Yields
      (λ st. placed st 2 ≡ (if ltb 2 3 then 1 else 0))
      (plan halves solver items bound resources)
plan_conserves_example = plan_conserves halves halves_laws solver honest items bound resources 2

least_weight : least halves (some 200 ∷ none ∷ some 300 ∷ []) none ≡ some 200
unfolding least
least_weight = refl

weights_avg-least_example :
    weights_avg halves (some 200 ∷ none ∷ some 300 ∷ []) ≡ (200 + 200) * 2 / 4
weights_avg-least_example =
    weights_avg-least halves halves_order (some 200 ∷ none ∷ some 300 ∷ []) 200 least_weight refl

group_tiers-IsAscending_example :
    Yields
      (λ out.
        IsAscending (pos 1 ∷ pos 0 ∷ []) is_last out
        × (tiers_count (pos 1 ∷ pos 0 ∷ []) is_last out
            ≡ count_if is_last (0 ∷ 1 ∷ []) + tiers_count (pos 1 ∷ pos 0 ∷ []) is_last []))
      (group_tiers (pos 1 ∷ pos 0 ∷ []) (0 ∷ 1 ∷ []) [])
group_tiers-IsAscending_example =
    group_tiers-IsAscending (pos 1 ∷ pos 0 ∷ []) is_last (0 ∷ 1 ∷ []) [] tt

plan_locks_example :
    Yields (λ st. 0 < held st.allocated 1 1) (plan halves solver items bound resources)
plan_locks_example = plan_locks halves solver items bound resources 1 1 refl
