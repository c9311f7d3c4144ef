-- ===== src/Telemetry/Classify.antt =====
-- agent/core/capacity_profiler_constants.py: `classify`. Percentages are whole thousandths of a
-- percent; the thresholds are whole percents.
use pitlane_agent.Common.{
  ℕ, max, ◌≡◌, ◌↔◌, Option, none, some, Bool, true, false, List, [], ◌∷◌, ◌++◌, ◌&&◌, ◌||◌, arith,
  if◌then◌else◌, leb, ltb, ◌==◌,
}

pub data Level : Type 0 where
  calm watch risk critical : Level

pub data Factor : Type 0 where
  cpu_single_core ram cpu_global stability no_factor : Factor

-- _SEVERITY_RANK.
unfoldable pub severity_rank : Level → ℕ
severity_rank calm = 0
severity_rank watch = 1
severity_rank risk = 2
severity_rank critical = 3

-- The index in _FACTOR_PRIORITY; the other factors are no candidates.
unfoldable pub priority : Factor → ℕ
priority cpu_single_core = 0
priority ram = 1
priority cpu_global = 2
priority stability = 3
priority no_factor = 3

unfoldable pub cpu_core_level : Option ℕ → Option Level
cpu_core_level none = none
cpu_core_level (some p) =
    if leb 95000 p
    then some critical
    else if leb 85000 p
    then some risk
    else if leb 75000 p
    then some watch
    else some calm

unfoldable pub ram_level : Option ℕ → Option Level
ram_level none = none
ram_level (some p) =
    if ltb p 15000 then some risk else if ltb p 25000 then some watch else some calm

unfoldable pub cpu_total_level : Option ℕ → Option Level
cpu_total_level none = none
cpu_total_level (some p) =
    if leb 95000 p then some risk else if leb 85000 p then some watch else some calm

abbrev pub candidate : Factor → Option Level → List (Factor × Level)
candidate f none = []
candidate f (some l) = (f, l) ∷ []

-- The order of the keys `(rank, -priority)`: the first is below the second.
unfoldable pub is_below : Factor × Level → Factor × Level → Bool
unfolding severity_rank priority
is_below (f, l) (g, m) =
    ltb (severity_rank l) (severity_rank m)
    || (severity_rank l == severity_rank m && ltb (priority g) (priority f))

-- `max(..., key=...)`, from a first candidate on: a later one takes its place where it is greater.
unfoldable pub best : Factor × Level → List (Factor × Level) → Factor × Level
unfolding is_below
best c [] = c
best c (d ∷ ds) = best (if is_below c d then d else c) ds

abbrev pub verdict : Factor × Level → Level × Factor
verdict (f, calm) = (calm, no_factor)
verdict (f, watch) = (watch, f)
verdict (f, risk) = (risk, f)
verdict (f, critical) = (critical, f)

abbrev pub choose : List (Factor × Level) → Level × Factor
choose [] = (calm, no_factor)
choose (c ∷ cs) = verdict (best c cs)

unfoldable pub classify : Option ℕ → Option ℕ → Option ℕ → ℕ → Level × Factor
unfolding best cpu_core_level ram_level cpu_total_level
classify cpu_core_max cpu_total ram_available crash_count =
    if ltb 0 crash_count
    then (critical, stability)
    else choose (
        candidate cpu_single_core (cpu_core_level cpu_core_max)
        ++ (candidate ram (ram_level ram_available)
            ++ candidate cpu_global (cpu_total_level cpu_total)))

-- The rank of a metric, 0 where it is not known.
abbrev pub rank_of : Option Level → ℕ
rank_of none = 0
rank_of (some calm) = 0
rank_of (some watch) = 1
rank_of (some risk) = 2
rank_of (some critical) = 3

-- The worst of the three ranks, and the factor that has it, in the order of priority.
unfoldable pub worst : Option Level → Option Level → Option Level → ℕ
worst core memory total = max (rank_of core) (max (rank_of memory) (rank_of total))

unfoldable pub limiting : Option Level → Option Level → Option Level → Factor
unfolding worst
limiting core memory total =
    let w = worst core memory total in
    if w == 0
    then no_factor
    else if rank_of core == w
    then cpu_single_core
    else if rank_of memory == w
    then ram
    else cpu_global

choose-limiting :
    (core memory total : Option Level)
    → let r =
        choose (
          candidate cpu_single_core core ++ (candidate ram memory ++ candidate cpu_global total)) in
      (severity_rank r.0 ≡ worst core memory total) × (r.1 ≡ limiting core memory total)
unfolding best is_below severity_rank priority worst limiting
choose-limiting core memory total = ground arith

-- Without a crash the level has the worst rank among the levels of the metrics that are known,
-- and the factor is the first of single core, memory and total CPU that has this rank, or none
-- where the rank is 0.
pub classify-worst :
    (core total memory : Option ℕ)
    → let r = classify core total memory 0 in
      let c = cpu_core_level core in
      let m = ram_level memory in
      let t = cpu_total_level total in (severity_rank r.0 ≡ worst c m t) × (r.1 ≡ limiting c m t)
unfolding classify
classify-worst core total memory =
    choose-limiting (cpu_core_level core) (ram_level memory) (cpu_total_level total)

-- The verdict is critical exactly after a crash or where a single core reaches 95 percent: memory
-- and the total CPU never make it so.
pub critical_iff :
    (core total memory : Option ℕ) (crashes : ℕ)
    → ((classify core total memory crashes).0 ≡ critical)
      ↔ ((ltb 0 crashes || (elim core [ none ↦ false | some p ↦ leb 95000 p ])) ≡ true)
unfolding classify cpu_core_level ram_level cpu_total_level best is_below severity_rank priority
critical_iff core total memory crashes = ((λ h. ground (arith, h)), (λ h. ground (arith, h)))
