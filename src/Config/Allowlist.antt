-- ===== src/Config/Allowlist.antt =====
-- crates/overcrow-config/src/allowlist.rs: which processes the user selected. A `BTreeSet` is a
-- list; the one over process ids is kept in ascending order, as the source walks it.
pub mod Laws
use player_vox_over_crow.Common.{
  ℕ, Bool, true, false, not, ◌&&◌, ◌||◌, Option, none, some, List, [], ◌∷◌, map, any, ltb, ◌==◌,
  bool_eq, opt_eq, list_eq, if◌then◌else◌,
}
use player_vox_over_crow.Common.Result.{is_ok}
use player_vox_over_crow.Common.Text.{FilePath, path_eq}
use player_vox_over_crow.Config.Settings.{LifecycleSettings, ManualGame, validate}

pub record ProcessIdentity : Type 0 where
  pub steam_app_id : Option ℕ  -- u32
  pub executable_chain : List FilePath
  pub game_candidate : Bool

abbrev pub default_identity : ProcessIdentity
default_identity = record { steam_app_id = none; executable_chain = []; game_candidate = false }

-- The derived equality of identities; paths compare as `PathBuf` does.
unfoldable pub identity_eq : ProcessIdentity → ProcessIdentity → Bool
identity_eq a b =
    opt_eq (λ m n. m == n) a.steam_app_id b.steam_app_id
    && (list_eq path_eq a.executable_chain b.executable_chain
        && bool_eq a.game_candidate b.game_candidate)

pub record GameAllowlist : Type 0 where
  pub steam_app_ids : List ℕ
  pub manual_executables : List FilePath

abbrev pub empty_allowlist : GameAllowlist
empty_allowlist = record { steam_app_ids = []; manual_executables = [] }

unfoldable pub from_settings : LifecycleSettings → GameAllowlist
from_settings s = if not s.enabled || not (is_ok (validate s)) then empty_allowlist else record {
  steam_app_ids = s.selected_steam_app_ids;
  manual_executables = map (λ (g : ManualGame). g.executable) s.manual_games;
}

abbrev pub contains_id : List ℕ → Option ℕ → Bool
contains_id ids none = false
contains_id ids (some id) = not (id == 0) && any (λ k. k == id) ids

abbrev pub contains_path : List FilePath → FilePath → Bool
contains_path paths p = any (λ q. path_eq q p) paths

unfoldable pub allows_identity : GameAllowlist → ProcessIdentity → Bool
allows_identity al identity =
    contains_id al.steam_app_ids identity.steam_app_id
    || any (contains_path al.manual_executables) identity.executable_chain

-- `BTreeSet::insert`.
unfoldable pub insert_sorted : ℕ → List ℕ → List ℕ
insert_sorted n [] = n ∷ []
insert_sorted n (k ∷ ks) =
    if ltb n k then n ∷ k ∷ ks else if n == k then k ∷ ks else k ∷ insert_sorted n ks

unfoldable pub to_sorted_set : List ℕ → List ℕ
unfolding insert_sorted
to_sorted_set [] = []
to_sorted_set (n ∷ ns) = insert_sorted n (to_sorted_set ns)

unfoldable pub any_selected_process : GameAllowlist → List ℕ → (ℕ → ProcessIdentity) → Bool
any_selected_process al pids classify =
    any (λ pid. allows_identity al (classify pid)) (to_sorted_set pids)
