-- ===== src/Core/Telemetry.antt =====
-- crates/overcrow-core/src/telemetry.rs: the processor share and the memory of a game's processes.
pub mod Laws
pub mod Share
use player_vox_over_crow.Common.{
  ℕ, zero, suc, ◌-◌, ◌*◌, ◌/◌, Bool, true, false, ◌&&◌, Option, none, some, List, [], ◌∷◌, any,
  keep, get, values, opt_eq, leb, ltb, ◌==◌, if◌then◌else◌,
}
use player_vox_over_crow.Common.Time.{u32_max, u64_max, u128_max, clamp_to, saturating_add}
use player_vox_over_crow.Protocol.{GameTelemetry}
use player_vox_over_crow.Core.Classifier.{
  ProcessInfo, ProcessResources, ProcessTable, max_ancestors, classify_process_identity,
}

pub data ProcessGroupIdentity : Type 0 where
  steam : ℕ → ProcessGroupIdentity
  native : ProcessGroupIdentity

pub record ProcessGroupKey : Type 0 where
  pub active_pid : ℕ
  pub active_start_ticks : ℕ
  pub identity : ProcessGroupIdentity

pub record ProcessSample : Type 0 where
  pub key : ProcessGroupKey
  pub resources : ProcessResources
  pub observed_at : ℕ  -- Instant

abbrev pub group_identity : Option ℕ → ProcessGroupIdentity
group_identity none = native
group_identity (some id) = steam id

unfoldable pub new_sample : ℕ → ℕ → Option ℕ → ProcessResources → ℕ → ProcessSample
new_sample active_pid active_start_ticks steam_app_id resources observed_at = record {
  key = record {
    active_pid = active_pid;
    active_start_ticks = active_start_ticks;
    identity = group_identity steam_app_id;
  };
  resources = resources;
  observed_at = observed_at;
}

abbrev pub group_eq : ProcessGroupIdentity → ProcessGroupIdentity → Bool
group_eq (steam m) (steam n) = m == n
group_eq native native = true
group_eq _ _ = false

abbrev pub key_eq : ProcessGroupKey → ProcessGroupKey → Bool
key_eq a b =
    a.active_pid == b.active_pid
    && (a.active_start_ticks == b.active_start_ticks && group_eq a.identity b.identity)

pub record TelemetrySampler : Type 0 where
  pub previous : Option ProcessSample

abbrev pub new_sampler : TelemetrySampler
new_sampler = record { previous = none }

-- `checked_duration_since`, `checked_mul` and `checked_sub` return early on `None`; the product and
-- the quotient are `u128`, the result saturates at `u32::MAX`.
unfoldable pub cpu_percent_hundredths : ProcessSample → ProcessSample → ℕ → Option ℕ
cpu_percent_hundredths previous current ticks_per_second =
    let elapsed_ticks = (current.observed_at - previous.observed_at) * ticks_per_second in
    let tick_delta = current.resources.total_cpu_ticks - previous.resources.total_cpu_ticks in
    if ltb current.observed_at previous.observed_at
    then none
    else if ltb u128_max elapsed_ticks
    then none
    else if elapsed_ticks == 0
    then none
    else if ltb current.resources.total_cpu_ticks previous.resources.total_cpu_ticks
    then none
    else some (
        clamp_to u32_max
          (clamp_to u128_max (clamp_to u128_max (tick_delta * 10000) * 1000000000) / elapsed_ticks))

abbrev pub cpu_since : Option ProcessSample → ProcessSample → ℕ → Option ℕ
cpu_since none sample ticks_per_second = none
cpu_since (some previous) sample ticks_per_second =
    if key_eq previous.key sample.key
    then cpu_percent_hundredths previous sample ticks_per_second
    else none

unfoldable pub observe : TelemetrySampler → ProcessSample → ℕ → TelemetrySampler × GameTelemetry
observe sampler sample ticks_per_second = (
  record { previous = some sample },
  record {
    cpu_percent_hundredths = cpu_since sampler.previous sample ticks_per_second;
    resident_bytes = some sample.resources.resident_bytes;
    cpu_temperature_millicelsius = none;
    gpu_temperature_millicelsius = none;
  },
)

unfoldable pub reset_sampler : TelemetrySampler → TelemetrySampler
reset_sampler sampler = record { previous = none }

abbrev pub no_resources : ProcessResources
no_resources = record { total_cpu_ticks = 0; resident_bytes = 0 }

abbrev pub add_resources : ProcessResources → ProcessInfo → ProcessResources
add_resources total p = record {
  total_cpu_ticks = saturating_add u64_max total.total_cpu_ticks p.resources.total_cpu_ticks;
  resident_bytes = saturating_add u64_max total.resident_bytes p.resources.resident_bytes;
}

-- The fold, from a running total.
unfoldable pub aggregate_from : ProcessResources → List ProcessInfo → ProcessResources
aggregate_from total [] = total
aggregate_from total (p ∷ ps) = aggregate_from (add_resources total p) ps

unfoldable pub aggregate_resources : List ProcessInfo → ProcessResources
unfolding aggregate_from
aggregate_resources = aggregate_from no_resources

unfoldable pub descends_loop : ℕ → List ℕ → ℕ → ℕ → ProcessTable → Bool
descends_loop zero seen pid active_pid table = false
descends_loop (suc fuel) seen pid active_pid table = elim (any (λ k. k == pid) seen) [
  | true ↦ false
  | false ↦ elim (pid == active_pid) [
    | true ↦ true
    | false ↦ elim (get pid table) [
      | none ↦ false
      | some p ↦ descends_loop fuel (pid ∷ seen) p.parent_pid active_pid table
    ]
  ]
]

unfoldable pub is_descendant_or_self : ℕ → ℕ → ProcessTable → Bool
unfolding descends_loop
is_descendant_or_self pid active_pid table = descends_loop max_ancestors [] pid active_pid table

abbrev pub in_steam_group : ℕ → ProcessTable → ProcessInfo → Bool
in_steam_group id table p =
    opt_eq (λ m n. m == n) (classify_process_identity p.pid table).steam_app_id (some id)

-- The processes that count for the game, and whether there is a group at all.
unfoldable pub group_resources : ℕ → Option ℕ → ProcessTable → Option ProcessResources
group_resources active_pid none table =
    some (
      aggregate_resources (keep (λ p. is_descendant_or_self p.pid active_pid table) (values table)))
group_resources active_pid (some id) table =
    if opt_eq (λ m n. m == n) (classify_process_identity active_pid table).steam_app_id (some id)
    then some (aggregate_resources (keep (in_steam_group id table) (values table)))
    else none

abbrev pub sample_of :
    Option ProcessInfo → Option ProcessResources → ℕ → Option ℕ → ℕ → Option ProcessSample
sample_of (some active) (some resources) active_pid steam_app_id observed_at =
    some (new_sample active_pid active.start_ticks steam_app_id resources observed_at)
sample_of _ _ active_pid steam_app_id observed_at = none

unfoldable pub collect_process_sample : ℕ → Option ℕ → ProcessTable → ℕ → Option ProcessSample
collect_process_sample active_pid steam_app_id table observed_at =
    sample_of (get active_pid table) (group_resources active_pid steam_app_id table) active_pid
      steam_app_id observed_at
