-- ===== src/Vine/Session/Resources.antt =====
-- crates/openark-vine-session-api/src/lib.rs, `apply_node`: what of a node is left to its session.
use eecs_k8s.Prelude.{
  ℕ, ◌+◌, ◌-◌, ◌%◌, String, str_eq, Bool, ◌&&◌, Option, none, some, List, [], ◌∷◌, ◌++◌, ltb,
  unwrap_or, if◌then◌else◌,
}
use eecs_k8s.Prelude.Select.{filter}
use eecs_k8s.Prelude.Dict.{string_eq, Dict, get}

-- Quantities as the crate `kube_quantity` reads them, and `f64`. An i128 is its residue.
pub record Quantities : Type 1 where
  pub Q : Type 0
  pub F : Type 0
  pub parse : String → Option Q
  pub zero : Q
  pub add : Q → Q → Q
  pub sub : Q → Q → Q
  pub to_bytes_f64 : Q → Option F
  pub to_bytes_i128 : Q → Option ℕ
  pub float_zero : F
  pub minus_one : F → F
  pub floor : F → F
  pub is_finite : F → Bool
  pub is_sign_positive : F → Bool
  pub as_u32 : F → ℕ
  pub show : ℕ → String

pub record Container : Type 0 where
  pub restart_policy : Option String
  pub limits : Option (Dict String String)

pub record Pod : Type 0 where
  pub labels : Dict String String
  pub init_containers : List Container
  pub containers : List Container

abbrev pub is_always : Option String → Bool
is_always none = Bool.false
is_always (some policy) = str_eq policy "Always"

abbrev pub has_label : Dict String String → String → Bool
has_label labels key = elim (get labels key) [ none ↦ Bool.false | some _ ↦ Bool.true ]

unfoldable pub containers_of : Pod → List Container
unfolding filter
containers_of pod = filter (λ c. is_always c.restart_policy) pod.init_containers ++ pod.containers

module _ (q : Quantities) where
  abbrev pub limit_of : String → Container → Option q.Q
  limit_of key c = elim c.limits [
    | none ↦ none
    | some limits ↦ elim (get limits key) [ none ↦ none | some text ↦ q.parse text ]
  ]

  abbrev pub push : Option q.Q → List q.Q → List q.Q
  push none qs = qs
  push (some x) qs = x ∷ qs

  unfoldable pub limits_in : String → List Container → List q.Q
  limits_in key [] = []
  limits_in key (c ∷ cs) = push (limit_of key c) (limits_in key cs)

  unfoldable pub limits_of : String → List Pod → List q.Q
  unfolding limits_in containers_of
  limits_of key [] = []
  limits_of key (pod ∷ pods) = limits_in key (containers_of pod) ++ limits_of key pods

  unfoldable pub sum_from : q.Q → List q.Q → q.Q
  sum_from acc [] = acc
  sum_from acc (x ∷ xs) = sum_from (q.add acc x) xs

  -- `.reduce(|a, b| a + b).unwrap_or_default()`
  unfoldable pub reduce : List q.Q → q.Q
  unfolding sum_from
  reduce [] = q.zero
  reduce (x ∷ xs) = sum_from x xs

  unfoldable pub collect_resource_limits : String → List Pod → q.Q
  unfolding limits_of reduce
  collect_resource_limits key pods = reduce (limits_of key pods)

  abbrev pub read_quantity : Dict String String → String → Option q.Q
  read_quantity allocatable key = elim (get allocatable key) [
    | none ↦ none
    | some text ↦ q.parse text
  ]

  abbrev pub bytes_f64 : Option q.Q → q.Q → q.F
  bytes_f64 none used = q.float_zero
  bytes_f64 (some x) used = unwrap_or (q.to_bytes_f64 (q.sub x used)) q.float_zero

  -- One core is kept back.
  unfoldable pub cpu_of : q.F → ℕ
  cpu_of cpu =
      let left = q.floor (q.minus_one cpu) in
      if q.is_finite left && q.is_sign_positive left then q.as_u32 left else 0

  abbrev pub bytes_i128 : Option q.Q → q.Q → Option ℕ
  bytes_i128 none used = none
  bytes_i128 (some x) used = q.to_bytes_i128 (q.sub x used)

-- `v.checked_sub(2 << 30)`, where an i128 is negative from 2 ^ 127.
unfoldable pub keep_memory : ℕ → Option ℕ
keep_memory v =
    if ltb v 170_141_183_460_469_231_731_687_303_715_884_105_728
    then some (
        (v + 340_282_366_920_938_463_463_374_607_431_768_211_456 - 2_147_483_648)
        % 340_282_366_920_938_463_463_374_607_431_768_211_456)
    else if ltb (v - 2_147_483_648) 170_141_183_460_469_231_731_687_303_715_884_105_728
    then none
    else some (v - 2_147_483_648)

-- `.filter(|&v| v >= 0)`, or zero
abbrev pub non_negative : Option ℕ → ℕ
non_negative none = 0
non_negative (some v) = if ltb v 170_141_183_460_469_231_731_687_303_715_884_105_728 then v else 0

abbrev pub memory_of : Option ℕ → ℕ
unfolding keep_memory
memory_of none = 0
memory_of (some v) = non_negative (keep_memory v)
