-- ===== src/Examples/Parts.antt =====
-- The smaller parts: settings, classification, telemetry, stopwatch and widgets.
use mathlib.Core.List.{Perm, Permᴰ}
use player_vox_over_crow.Common.{
  ℕ, ◌-◌, ◌*◌, ◌≤◌, ◌<◌, ◌≡◌, ◌↔◌, refl, true, false, ◌||◌, none, some, is_some, List, [], ◌∷◌, any,
  length, arith,
}
use player_vox_over_crow.Common.Result.{ok}
use player_vox_over_crow.Common.Text.{chars, split}
use player_vox_over_crow.Common.Time.{u128_max, duration_max, clamp_to}
use player_vox_over_crow.Config.Accelerator.{accelerator_is_valid}
use player_vox_over_crow.Config.Accelerator.Grammar.{Shape, accelerator_is_valid-Shape}
use player_vox_over_crow.Config.Settings.{validate}
use player_vox_over_crow.Config.Settings.Laws.{SettingsAreValid, validate-SettingsAreValid}
use player_vox_over_crow.Config.Allowlist.{
  ProcessIdentity, default_identity, from_settings, allows_identity,
}
use player_vox_over_crow.Config.Allowlist.Laws.{Selected, allows_identity-Selected}
use player_vox_over_crow.Config.Widgets.{
  WidgetId, WidgetSettings, default_profile, validate_profile, new_settings,
}
use player_vox_over_crow.Config.Widgets.Laws.{ProfileIsValid, validate_profile-ProfileIsValid}
use player_vox_over_crow.Core.Classifier.{
  ProcessInfo, ProcessTable, ProcessResources, looks_game_related, classify_process_identity,
}
use player_vox_over_crow.Core.Classifier.Walk.{chain_of, nearest_id, Distinct}
use player_vox_over_crow.Core.Classifier.Executables.{
  executables, firsts, classify_process_identity-chain,
}
use player_vox_over_crow.Core.Stopwatch.{new_stopwatch, elapsed}
use player_vox_over_crow.Core.Stopwatch.Laws.{presses, laps, elapsed-presses}
use player_vox_over_crow.Core.Telemetry.{
  ProcessSample, new_sample, aggregate_resources, is_descendant_or_self, cpu_percent_hundredths,
}
use player_vox_over_crow.Core.Telemetry.Laws.{
  clamped, sum_ticks, sum_bytes, aggregate_resources-sum,
}
use player_vox_over_crow.Core.Telemetry.Share.{IsShare, cpu_percent_hundredths-IsShare}
use player_vox_over_crow.Examples.Data.{selecting, launcher, game_process, table}

abbrev steam_identity : ProcessIdentity
steam_identity = record default_identity { steam_app_id = some 10; game_candidate = true }

abbrev two_processes : List ProcessInfo
two_processes = launcher ∷ game_process ∷ []

-- A child of the game, whose executable is the game's by another text.
abbrev helper_process : ProcessInfo
helper_process = record game_process {
  pid = 6;
  parent_pid = 5;
  executable = some (record { raw = chars "/games//game.exe" });
}

abbrev with_helper : ProcessTable
with_helper = (6, helper_process) ∷ table

abbrev swapped_processes : List ProcessInfo
swapped_processes = game_process ∷ launcher ∷ []

swapped : Perm two_processes swapped_processes
swapped = ∣ Permᴰ.swap refl refl ∣₁

is_child : is_descendant_or_self 5 4 table ≡ true
unfolding is_descendant_or_self
is_child = refl

abbrev ticks : ℕ → ProcessResources
ticks n = record { total_cpu_ticks = n; resident_bytes = 0 }

abbrev sample_1 : ProcessSample
sample_1 = new_sample 5 100 none (ticks 300) 1000000000

abbrev sample_2 : ProcessSample
sample_2 = new_sample 5 100 none (ticks 350) 2000000000

allows_identity-Selected_example :
    (allows_identity (from_settings selecting) steam_identity ≡ true) ↔ (
      (selecting.enabled ≡ true)
      × (validate selecting ≡ ok selecting)
      × Selected selecting steam_identity)
allows_identity-Selected_example = allows_identity-Selected selecting steam_identity

classify_process_identity-chain_example :
    let ps = chain_of 6 with_helper in
    let i = classify_process_identity 6 with_helper in
    (length ps ≤ 64)
    × (i.steam_app_id ≡ nearest_id ps)
    × (i.game_candidate ≡ (any looks_game_related ps || is_some (nearest_id ps)))
    × (i.executable_chain ≡ firsts (executables ps))
    × Distinct i.executable_chain
classify_process_identity-chain_example = classify_process_identity-chain 6 with_helper

aggregate_resources-sum_example :
    (aggregate_resources two_processes
      ≡ clamped (sum_ticks two_processes) (sum_bytes two_processes))
    × (aggregate_resources swapped_processes ≡ aggregate_resources two_processes)
aggregate_resources-sum_example = aggregate_resources-sum two_processes swapped_processes swapped

cpu_percent_hundredths-IsShare_example :
    let elapsed = (sample_2.observed_at - sample_1.observed_at) * 100 in
    let used = sample_2.resources.total_cpu_ticks - sample_1.resources.total_cpu_ticks in
    (cpu_percent_hundredths sample_1 sample_2 100 ≡ some 5000) ↔ (
      (sample_1.observed_at ≤ sample_2.observed_at)
      × (elapsed ≤ u128_max)
      × (0 < elapsed)
      × (sample_1.resources.total_cpu_ticks ≤ sample_2.resources.total_cpu_ticks)
      × IsShare used elapsed 5000)
unfolding new_sample
cpu_percent_hundredths-IsShare_example =
    cpu_percent_hundredths-IsShare sample_1 sample_2 100 5000 (omega arith)

elapsed-presses_example :
    elapsed (presses new_stopwatch (10 ∷ 15 ∷ 20 ∷ [])) 27
    ≡ clamp_to duration_max (laps (10 ∷ 15 ∷ 20 ∷ []) 27)
elapsed-presses_example = elapsed-presses (10 ∷ 15 ∷ 20 ∷ []) 27

accelerator_is_valid-Shape_example :
    (accelerator_is_valid (chars "Meta+Alt+O") ≡ true) ↔ Shape 0 (split b'+' (chars "Meta+Alt+O"))
accelerator_is_valid-Shape_example = accelerator_is_valid-Shape (chars "Meta+Alt+O")

validate_profile-ProfileIsValid_example :
    (validate_profile default_profile ≡ ok default_profile) ↔ ProfileIsValid default_profile
validate_profile-ProfileIsValid_example = validate_profile-ProfileIsValid default_profile

abbrev hidden_clock : WidgetSettings
hidden_clock = new_settings WidgetId.clock false

validate-SettingsAreValid_example : (validate selecting ≡ ok selecting) ↔ SettingsAreValid selecting
validate-SettingsAreValid_example = validate-SettingsAreValid selecting
