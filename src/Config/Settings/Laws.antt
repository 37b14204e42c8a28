-- ===== src/Config/Settings/Laws.antt =====
-- Which settings validation accepts, without its searches.
use mathlib.Core.List.{Memᴰ}
use player_vox_over_crow.Common.{
  ℕ, ◌≡◌, ◌≢◌, refl, ap, ◌∙◌, ◌↔◌, Bool, true, false, not, ◌||◌, Option, none, some, List, [], ◌∷◌,
  any, any-witness, any-mem, arith, Bool-cases, inl, inr, ◌==◌, ==_iff, if◌then◌else◌,
}
use player_vox_over_crow.Common.Result.{ok, err}
use player_vox_over_crow.Common.Text.{Text, text_eq, text_eq_iff, is_absolute}
use player_vox_over_crow.Config.Accelerator.{accelerator_is_valid}
use player_vox_over_crow.Config.Settings.{
  ManualGame, LifecycleSettings, SettingsError, settings_schema_version, manual_games_error,
  or_error, validate,
}

-- No manual game has the id of an earlier one.
unfoldable pub DistinctIds : List ManualGame → Type 0
DistinctIds [] = Unit {0}
DistinctIds (g ∷ gs) = ((h : ManualGame) → Memᴰ h gs → h.id ≢ g.id) × DistinctIds gs

abbrev pub AllAbsolute : List ManualGame → Type 0
AllAbsolute gs = (g : ManualGame) → Memᴰ g gs → is_absolute g.executable ≡ true

abbrev pub SettingsAreValid : LifecycleSettings → Type 0
SettingsAreValid s =
    (s.schema_version ≡ settings_schema_version)
    × ((id : ℕ) → Memᴰ id s.selected_steam_app_ids → id ≢ 0)
    × AllAbsolute s.manual_games
    × DistinctIds s.manual_games
    × (accelerator_is_valid s.shortcut.accelerator ≡ true)

-- A search that finds nothing.
any-none :
    {A : Type 0} (p : A → Bool) (xs : List A)
    → (any p xs ≡ false) ↔ ((x : A) → Memᴰ x xs → p x ≡ false)
any-none p xs = (
  λ h x m. elim (Bool-cases (p x)) [
    | inl e ↦ absurd (ground (arith, any-mem p xs x m e, h))
    | inr e ↦ e
  ],
  λ h. elim (Bool-cases (any p xs)) [
    | inl e ↦ let (x, m, q) = any-witness p xs e in absurd (ground (arith, h x m, q))
    | inr e ↦ e
  ],
)

text_eq-false : (s t : Text) → (text_eq s t ≡ false) ↔ (s ≢ t)
text_eq-false s t = (
  λ h e. ground (arith, (text_eq_iff s t).1 e, h),
  λ n. elim (Bool-cases (text_eq s t)) [ inl e ↦ absurd (n ((text_eq_iff s t).0 e)) | inr e ↦ e ],
)

-- No game has an id that was seen.
abbrev Unseen : List Text → List ManualGame → Type 0
Unseen seen gs = (g : ManualGame) → Memᴰ g gs → any (text_eq g.id) seen ≡ false

guards :
    (seen_before absolute : Bool) (rest : Option SettingsError)
    → ((if seen_before
          then some SettingsError.duplicate_manual_id
          else if not absolute
          then some SettingsError.non_absolute_executable
          else rest)
        ≡ none)
      ↔ ((seen_before ≡ false) × (absolute ≡ true) × (rest ≡ none))
guards seen_before absolute rest = ground arith

or-false : (a b : Bool) → ((a || b) ≡ false) ↔ ((a ≡ false) × (b ≡ false))
or-false a b = ground arith

manual_games_error-DistinctIds :
    (seen : List Text) (gs : List ManualGame)
    → (manual_games_error seen gs ≡ none) ↔ (Unseen seen gs × AllAbsolute gs × DistinctIds gs)
unfolding manual_games_error DistinctIds
manual_games_error-DistinctIds seen [] =
    (λ h. (λ g m. elim m [ ], λ g m. elim m [ ], tt), λ h. refl)
manual_games_error-DistinctIds seen (g ∷ gs) =
    let (onto, back) = manual_games_error-DistinctIds (g.id ∷ seen) gs in
    let (open_guards, close) =
      guards (any (text_eq g.id) seen) (is_absolute g.executable)
        (manual_games_error (g.id ∷ seen) gs) in
    (
      λ h.
          let (fresh, absolute, rest) = open_guards h in
          let (unseen, all_absolute, distinct) = onto rest in
          (
            λ k m. elim m [
              | Memᴰ.head e ↦ ap (λ (x : ManualGame). any (text_eq x.id) seen) e ∙ fresh
              | Memᴰ.tail n ↦ ((or-false _ _).0 (unseen k n)).1
            ],
            λ k m. elim m [
              | Memᴰ.head e ↦ ap (λ (x : ManualGame). is_absolute x.executable) e ∙ absolute
              | Memᴰ.tail n ↦ all_absolute k n
            ],
            (λ k n. (text_eq-false k.id g.id).0 ((or-false _ _).0 (unseen k n)).0, distinct),
          ),
      λ (unseen, all_absolute, (differ, distinct)). close (
        unseen g (Memᴰ.head refl),
        all_absolute g (Memᴰ.head refl),
        back (
          λ k n.
              (or-false _ _).1 ((text_eq-false k.id g.id).1 (differ k n), unseen k (Memᴰ.tail n)),
          λ k n. all_absolute k (Memᴰ.tail n),
          distinct,
        ),
      ),
    )

nonzero-ids : (ids : List ℕ) → (any (λ id. id == 0) ids ≡ false) ↔ ((id : ℕ) → Memᴰ id ids → id ≢ 0)
nonzero-ids ids = (
  λ h id m e. ground (arith, (any-none (λ k. k == 0) ids).0 h id m, e),
  λ h. (any-none (λ k. k == 0) ids).1 (λ id m. nonzero_test id (h id m)),
)
  where
    nonzero_test : (id : ℕ) → id ≢ 0 → (id == 0) ≡ false
    nonzero_test id n = ground arith

-- The guards of the validation, in their order.
validation-guards :
    (s : LifecycleSettings) (current zero_id accelerator : Bool) (games : Option SettingsError)
    → ((if not current
          then err SettingsError.unsupported_schema_version
          else if zero_id
          then err SettingsError.zero_steam_app_id
          else or_error games
              (if not accelerator then err SettingsError.malformed_accelerator else ok s))
        ≡ ok s)
      ↔ ((current ≡ true) × (zero_id ≡ false) × (games ≡ none) × (accelerator ≡ true))
validation-guards s false zero_id accelerator games = (λ h. cc, λ h. cc (h.0))
validation-guards s true true accelerator games = (λ h. cc, λ h. cc (h.1))
validation-guards s true false accelerator (some e) = (λ h. cc, λ h. cc (h.2))
validation-guards s true false false none = (λ h. cc, λ h. cc (h.3))
validation-guards s true false true none = (λ h. (refl, refl, refl, refl), λ h. refl)

-- Settings pass validation, unchanged, exactly when their schema version is the current one, no
-- selected Steam id is 0, every manual game has an absolute executable and an id of its own, and the
-- shortcut is valid.
pub validate-SettingsAreValid : (s : LifecycleSettings) → (validate s ≡ ok s) ↔ SettingsAreValid s
unfolding validate
validate-SettingsAreValid s =
    let (onto, back) =
      validation-guards s (s.schema_version == settings_schema_version)
        (any (λ id. id == 0) s.selected_steam_app_ids) (accelerator_is_valid s.shortcut.accelerator)
        (manual_games_error [] s.manual_games) in
    (
      λ h.
          let (current, nonzero, games, accelerator) = onto h in
          let (_, absolute, distinct) =
            (manual_games_error-DistinctIds [] s.manual_games).0 games in
          (
            (==_iff _ _).0 current,
            (nonzero-ids s.selected_steam_app_ids).0 nonzero,
            absolute,
            distinct,
            accelerator,
          ),
      λ (current, nonzero, absolute, distinct, accelerator). back (
        (==_iff _ _).1 current,
        (nonzero-ids s.selected_steam_app_ids).1 nonzero,
        (manual_games_error-DistinctIds [] s.manual_games).1 (λ g m. refl, absolute, distinct),
        accelerator,
      ),
    )
