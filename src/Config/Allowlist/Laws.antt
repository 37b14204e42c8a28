-- ===== src/Config/Allowlist/Laws.antt =====
-- Who is allowed: only what valid, enabled settings select, whatever the order of the processes.
use player_vox_over_crow.Common.{
  ℕ, ◌≡◌, refl, ◌≢◌, ◌⊎◌, Bool, true, false, not, ◌&&◌, ◌||◌, Option, none, some, List, [], ◌∷◌,
  any, arith, ◌==◌, ==_iff, opt_eq_iff, list_eq, &&_true, ap, Bool-cases, inl, inr,
}
use mathlib.Core.List.{Memᴰ}
use player_vox_over_crow.Common.{
  sym, subst, map, ◌↔◌, any-witness, any-mem, mem-map, mem-map_of_mem,
}
use player_vox_over_crow.Common.Result.{ok, is_ok}
use player_vox_over_crow.Common.Text.{FilePath, path_eq, path_eq_congr, path_eq_iff, SamePath}
use player_vox_over_crow.Config.Settings.{LifecycleSettings, ManualGame, validate}
use player_vox_over_crow.Config.Allowlist.{
  ProcessIdentity, default_identity, GameAllowlist, empty_allowlist, from_settings, contains_id,
  contains_path, identity_eq, allows_identity, insert_sorted, to_sorted_set, any_selected_process,
}

any-insert_sorted :
    (p : ℕ → Bool) (n : ℕ) (ks : List ℕ) → any p (insert_sorted n ks) ≡ (p n || any p ks)
unfolding insert_sorted
any-insert_sorted p n [] = refl
any-insert_sorted p n (k ∷ ks) = ground (arith, any-insert_sorted p n ks)

any-to_sorted_set : (p : ℕ → Bool) (ns : List ℕ) → any p (to_sorted_set ns) ≡ any p ns
unfolding to_sorted_set
any-to_sorted_set p [] = refl
any-to_sorted_set p (n ∷ ns) =
    ground (arith, any-insert_sorted p n (to_sorted_set ns), any-to_sorted_set p ns)

-- The set of process ids changes neither the outcome of the search nor its meaning: the answer is
-- that of a plain search through the ids as they come.
pub any_selected_process-any :
    (al : GameAllowlist) (pids : List ℕ) (classify : ℕ → ProcessIdentity)
    → any_selected_process al pids classify ≡ any (λ pid. allows_identity al (classify pid)) pids
unfolding any_selected_process
any_selected_process-any al pids classify = any-to_sorted_set _ pids

-- An identity with neither a Steam id nor an executable is never allowed.
pub allows_identity-default : (al : GameAllowlist) → allows_identity al default_identity ≡ false
unfolding allows_identity
allows_identity-default al = refl

-- What the user selected: the listed Steam id of the process (0 is none), or a manual game whose
-- executable is one of its chain.
abbrev pub Selected : LifecycleSettings → ProcessIdentity → Type 0
Selected s i =
    ((id : ℕ) × (i.steam_app_id ≡ some id) × (id ≢ 0) × Memᴰ id s.selected_steam_app_ids)
    ⊎ ((p : FilePath) × (g : ManualGame) × Memᴰ p i.executable_chain
        × Memᴰ g s.manual_games
        × SamePath g.executable p)

pub validate-ok : (s : LifecycleSettings) → is_ok (validate s) ≡ true → validate s ≡ ok s
unfolding validate
validate-ok s h = ground arith

abbrev executables : LifecycleSettings → List FilePath
executables s = map (λ (g : ManualGame). g.executable) s.manual_games

id_selected :
    (ids : List ℕ) (o : Option ℕ)
    → contains_id ids o ≡ true
    → (id : ℕ) × (o ≡ some id) × (id ≢ 0) × Memᴰ id ids
id_selected ids none h = cc
id_selected ids (some id) h =
    let (p, q) = &&_true (not (id == 0)) _ h in
    let (k, m, e) = any-witness (λ k. k == id) ids q in
    (id, refl, ground (arith, p), subst (λ x. Memᴰ x ids) ((==_iff k id).0 e) m)

path_selected :
    (s : LifecycleSettings) (chain : List FilePath)
    → any (contains_path (executables s)) chain ≡ true
    → (p : FilePath) × (g : ManualGame) × Memᴰ p chain
      × Memᴰ g s.manual_games
      × SamePath g.executable p
path_selected s chain h =
    let (p, m, c) = any-witness (contains_path (executables s)) chain h in
    let (q, k, e) = any-witness (λ r. path_eq r p) (executables s) c in
    let (g, n, f) = mem-map (λ (x : ManualGame). x.executable) s.manual_games q k in
    (p, g, m, n, (path_eq_iff g.executable p).0 (subst (λ x. path_eq x p ≡ true) (sym f) e))

Selected-allowed :
    (s : LifecycleSettings) (i : ProcessIdentity)
    → Selected s i
    → (contains_id s.selected_steam_app_ids i.steam_app_id
        || any (contains_path (executables s)) i.executable_chain)
      ≡ true
Selected-allowed s i (inl (id, e, z, m)) =
    let found = any-mem (λ k. k == id) s.selected_steam_app_ids id m ((==_iff id id).1 refl) in
    ground (arith, found, e, z)
Selected-allowed s i (inr (p, g, m, n, same)) =
    let k = mem-map_of_mem (λ (x : ManualGame). x.executable) s.manual_games g n in
    let c =
      any-mem (λ r. path_eq r p) (executables s) g.executable k
        ((path_eq_iff g.executable p).1 same) in
    let found = any-mem (contains_path (executables s)) i.executable_chain p m c in
    ground (arith, found)

abbrev selected_allowlist : LifecycleSettings → GameAllowlist
selected_allowlist s = record {
  steam_app_ids = s.selected_steam_app_ids;
  manual_executables = executables s;
}

from_settings_cases :
    (s : LifecycleSettings)
    → ((s.enabled ≡ true) × (validate s ≡ ok s) × (from_settings s ≡ selected_allowlist s))
      ⊎ ((s.enabled && is_ok (validate s) ≡ false) × (from_settings s ≡ empty_allowlist))
unfolding from_settings
from_settings_cases s = elim (Bool-cases s.enabled) [
  | inl on ↦ elim (Bool-cases (is_ok (validate s))) [
    | inl v ↦ inl (on, validate-ok s v, ground arith)
    | inr v ↦ inr (ground arith, ground arith)
  ]
  | inr off ↦ inr (ground arith, ground arith)
]

any-contains_path-empty : (chain : List FilePath) → any (contains_path []) chain ≡ false
any-contains_path-empty [] = refl
any-contains_path-empty (p ∷ chain) = any-contains_path-empty chain

contains_id-empty : (o : Option ℕ) → contains_id [] o ≡ false
contains_id-empty none = refl
contains_id-empty (some id) = ground arith

allows_identity-empty : (i : ProcessIdentity) → allows_identity empty_allowlist i ≡ false
unfolding allows_identity
allows_identity-empty i =
    ground (arith, contains_id-empty i.steam_app_id, any-contains_path-empty i.executable_chain)

allowed-Selected :
    (s : LifecycleSettings) (i : ProcessIdentity)
    → allows_identity (selected_allowlist s) i ≡ true
    → Selected s i
unfolding allows_identity
allowed-Selected s i h = elim (Bool-cases (contains_id s.selected_steam_app_ids i.steam_app_id)) [
  | inl e ↦ inl (id_selected s.selected_steam_app_ids i.steam_app_id e)
  | inr e ↦ inr (path_selected s i.executable_chain (ground arith))
]

-- A process is allowed exactly when the settings are enabled and valid and select it: by a listed
-- Steam id other than 0, or by a manual game's executable in its chain.
pub allows_identity-Selected :
    (s : LifecycleSettings) (i : ProcessIdentity)
    → (allows_identity (from_settings s) i ≡ true)
      ↔ ((s.enabled ≡ true) × (validate s ≡ ok s) × Selected s i)
allows_identity-Selected s i = elim (from_settings_cases s) [
  | inl (on, v, e) ↦ (
    λ h. (on, v, allowed-Selected s i (subst (λ al. allows_identity al i ≡ true) e h)),
    λ h. rw e (unfold allows_identity in Selected-allowed s i (h.2)),
  )
  | inr (off, e) ↦ (
    λ h. allowed_by_empty (subst (λ al. allows_identity al i ≡ true) e h),
    λ h. absurd (refused (h.0) (h.1) off),
  )
]
  where
    allowed_by_empty :
        allows_identity empty_allowlist i ≡ true
        → (s.enabled ≡ true) × (validate s ≡ ok s) × Selected s i
    allowed_by_empty h = cc (allows_identity-empty i)

    refused : s.enabled ≡ true → validate s ≡ ok s → s.enabled && is_ok (validate s) ≡ false → ⊥
    refused on v off = let q = ap is_ok v in ground arith

contains_path-congr :
    (paths : List FilePath) (p q : FilePath)
    → path_eq p q ≡ true
    → contains_path paths p ≡ contains_path paths q
contains_path-congr [] p q h = refl
contains_path-congr (r ∷ paths) p q h =
    ground (arith, path_eq_congr p q r h, contains_path-congr paths p q h)

any-contains_path-congr :
    (paths xs ys : List FilePath)
    → list_eq path_eq xs ys ≡ true
    → any (contains_path paths) xs ≡ any (contains_path paths) ys
any-contains_path-congr paths [] [] h = refl
any-contains_path-congr paths [] (y ∷ ys) h = cc
any-contains_path-congr paths (x ∷ xs) [] h = cc
any-contains_path-congr paths (x ∷ xs) (y ∷ ys) h =
    let (p, q) = &&_true _ _ h in
    ground (arith, contains_path-congr paths x y p, any-contains_path-congr paths xs ys q)

-- Equal identities are allowed alike.
pub allows_identity-congr :
    (al : GameAllowlist) (i j : ProcessIdentity)
    → identity_eq i j ≡ true
    → allows_identity al i ≡ allows_identity al j
unfolding allows_identity identity_eq
allows_identity-congr al i j h =
    let (p, r) = &&_true _ _ h in
    let (q, s) = &&_true _ _ r in
    let e = (opt_eq_iff (λ (m n : ℕ). m == n) ==_iff i.steam_app_id j.steam_app_id).0 p in
    ground (
      arith,
      e,
      any-contains_path-congr al.manual_executables i.executable_chain j.executable_chain q,
    )
