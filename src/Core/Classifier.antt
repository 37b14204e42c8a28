-- ===== src/Core/Classifier.antt =====
-- crates/overcrow-core/src/classifier.rs: the identity of a process, read off it and its ancestors.
-- A `HashMap` is an association list, of which the first entry of a key counts; a `HashSet` is the
-- list of what was inserted.
pub mod Walk
pub mod Executables
use player_vox_over_crow.Common.{
  ℕ, zero, suc, ◌-◌, Bool, true, false, not, ◌&&◌, ◌||◌, Option, none, some, List, [], ◌∷◌, ◌++◌,
  any, get, is_none, is_some, ◌==◌, if◌then◌else◌,
}
use player_vox_over_crow.Common.Time.{duration_max, saturating_add}
use player_vox_over_crow.Common.Text.{
  Text, chars, text_eq, FilePath, path_eq, to_ascii_lowercase, contains, ends_with, parse_u32,
}
use player_vox_over_crow.Config.Allowlist.{ProcessIdentity, default_identity}

abbrev pub max_ancestors : ℕ
max_ancestors = 64

pub record ProcessTiming : Type 0 where
  pub elapsed_at_observation : ℕ  -- Duration
  pub observed_at : ℕ  -- Instant

unfoldable pub elapsed_at : ProcessTiming → ℕ → ℕ
elapsed_at t now = saturating_add duration_max t.elapsed_at_observation (now - t.observed_at)

pub record ProcessResources : Type 0 where
  pub total_cpu_ticks : ℕ  -- u64
  pub resident_bytes : ℕ  -- u64

pub record ProcessInfo : Type 0 where
  pub pid : ℕ  -- u32
  pub parent_pid : ℕ  -- u32
  pub start_ticks : ℕ  -- u64
  pub timing : Option ProcessTiming
  pub resources : ProcessResources
  pub name : Text
  pub environment : List (Text × Text)
  pub command_line : List Text
  pub executable : Option FilePath

abbrev pub ProcessTable : Type 0
ProcessTable = List (ℕ × ProcessInfo)

pub record ProcessClassification : Type 0 where
  pub steam_app_id : Option ℕ
  pub is_game_candidate : Bool

abbrev pub variable : Text → List (Text × Text) → Option Text
variable key [] = none
variable key ((k, v) ∷ rest) = if text_eq k key then some v else variable key rest

abbrev pub nonzero : Option ℕ → Option ℕ
nonzero none = none
nonzero (some id) = if id == 0 then none else some id

-- One key of `STEAM_ID_KEYS`: present, a number, not zero.
abbrev pub parsed : Option Text → Option ℕ
parsed none = none
parsed (some s) = nonzero (parse_u32 s)

abbrev pub or_next : Option ℕ → Option ℕ → Option ℕ
or_next none next = next
or_next (some id) next = some id

unfoldable pub steam_app_id : ProcessInfo → Option ℕ
steam_app_id p =
    or_next (parsed (variable (chars "SteamAppId") p.environment))
      (parsed (variable (chars "SteamGameId") p.environment))

unfoldable pub related_text : Text → Bool
related_text s =
    let value = to_ascii_lowercase s in
    contains value (chars "wine")
    || contains value (chars "proton")
    || ends_with value (chars ".exe")

-- `to_string_lossy` is the text of the path.
abbrev pub related_path : Option FilePath → Bool
related_path none = false
related_path (some p) = related_text p.raw

unfoldable pub looks_game_related : ProcessInfo → Bool
looks_game_related p =
    related_text p.name || any related_text p.command_line || related_path p.executable

-- What one process of the chain adds to the identity. `seen` are the executables met before.
abbrev pub first_seen : List FilePath → Option FilePath → List FilePath
first_seen seen none = []
first_seen seen (some e) = if any (path_eq e) seen then [] else e ∷ []

unfoldable pub visit : ProcessInfo → ProcessIdentity → ProcessIdentity
visit p i = record {
  steam_app_id = if is_none i.steam_app_id then steam_app_id p else i.steam_app_id;
  executable_chain = i.executable_chain ++ first_seen i.executable_chain p.executable;
  game_candidate = i.game_candidate || looks_game_related p;
}

-- The loop: at most `fuel` processes, until a pid repeats or is unknown. The executables inserted
-- in `seen_executables` are those of the chain.
unfoldable pub classify_loop : ℕ → List ℕ → ℕ → ProcessTable → ProcessIdentity → ProcessIdentity
classify_loop zero seen pid table i = i
classify_loop (suc fuel) seen pid table i = elim (any (λ k. k == pid) seen) [
  | true ↦ i
  | false ↦ elim (get pid table) [
    | none ↦ i
    | some p ↦ classify_loop fuel (pid ∷ seen) p.parent_pid table (visit p i)
  ]
]

unfoldable pub classify_process_identity : ℕ → ProcessTable → ProcessIdentity
unfolding classify_loop
classify_process_identity pid table =
    let i = classify_loop max_ancestors [] pid table default_identity in
    record i { game_candidate = i.game_candidate || is_some i.steam_app_id }

unfoldable pub classify_active_pid : ℕ → ProcessTable → ProcessClassification
unfolding classify_process_identity
classify_active_pid pid table =
    let i = classify_process_identity pid table in
    record { steam_app_id = i.steam_app_id; is_game_candidate = i.game_candidate }
