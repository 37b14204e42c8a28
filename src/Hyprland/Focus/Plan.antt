-- ===== src/Hyprland/Focus/Plan.antt =====
-- When the focus is moved.
use player_vox_over_crow.Common.{
  ◌≡◌, refl, ◌∙◌, Bool, true, false, not, ◌&&◌, ◌||◌, Option, none, some, List, [], ◌∷◌, ◌++◌, ◌⊎◌,
  inl, inr, any, is_none, Bool-cases, Option-cases, arith,
}
use mathlib.Core.List.{append-nil}
use player_vox_over_crow.Common.Text.{Text}
use player_vox_over_crow.Protocol.{OverlayMode, passive, interactive, CoreSnapshot, mode_eq}
use player_vox_over_crow.Hyprland.Model.{HyprWindow, WindowAddress}
use player_vox_over_crow.Hyprland.Focus.{
  FocusSyncState, InteractionTargets, observe_mode, is_at, focus_command, has_managed_tag,
  validated_game_address, interactive_focus, passive_focus, wanted_targets, interaction_targets,
  effective_mode, tag_commands, move_focus, focus_plan,
}

observe_mode-observed :
    (s : FocusSyncState) (mode : OverlayMode) → (observe_mode s mode).observed_mode ≡ some mode
unfolding observe_mode
observe_mode-observed s mode = ground arith

observe_mode_same :
    (s : FocusSyncState) (mode : OverlayMode)
    → s.observed_mode ≡ some mode
    → observe_mode s mode ≡ s
unfolding observe_mode
observe_mode_same s passive h = rw h
observe_mode_same s interactive h = rw h

move_focus-observed :
    (s : FocusSyncState) (targets : Option InteractionTargets) (clients : List HyprWindow)
    (active : Option HyprWindow) (snapshot : CoreSnapshot) (tags_settled : Bool)
    → (move_focus s targets clients active snapshot tags_settled).0.observed_mode ≡ s.observed_mode
unfolding interactive_focus passive_focus
move_focus-observed s targets clients active snapshot tags_settled = ground arith

abbrev pub game_has_focus : Option InteractionTargets → Option HyprWindow → Bool
game_has_focus none active = false
game_has_focus (some targets) active = is_at active targets.game

move_focus-again :
    (s : FocusSyncState) (targets : Option InteractionTargets) (clients : List HyprWindow)
    (active : Option HyprWindow) (snapshot : CoreSnapshot) (tags_settled : Bool)
    → game_has_focus targets active ≡ false
    → (move_focus
        (move_focus s targets clients active snapshot tags_settled).0
        targets
        clients
        active
        snapshot
        tags_settled).1
      ≡ []
unfolding interactive_focus passive_focus
move_focus-again s none clients active snapshot tags_settled h = ground arith
move_focus-again s (some targets) clients active snapshot tags_settled h = ground arith

-- The commands for the tags that the plan sends first.
abbrev pub plan_tags : List HyprWindow → CoreSnapshot → List Text × Bool
plan_tags clients snapshot = tag_commands clients (wanted_targets clients snapshot)

-- The focus is asked for once: when nothing has changed since, and the game whose input is blocked
-- does not have the focus, the next plan has the commands for the tags alone.
pub focus_plan-again :
    (s : FocusSyncState) (clients : List HyprWindow) (active : Option HyprWindow)
    (snapshot : CoreSnapshot)
    → game_has_focus (wanted_targets clients snapshot) active ≡ false
    → (focus_plan (focus_plan s clients active snapshot).0 clients active snapshot).1.commands
      ≡ (plan_tags clients snapshot).0
unfolding focus_plan
focus_plan-again s clients active snapshot h =
    let targets = wanted_targets clients snapshot in
    let mode = effective_mode targets in
    let settled = (tag_commands clients targets).1 in
    let s1 = observe_mode s mode in
    let s2 = (move_focus s1 targets clients active snapshot settled).0 in
    let observed =
      move_focus-observed s1 targets clients active snapshot settled
      ∙ observe_mode-observed s mode in
    rw
      (
        focus_plan,
        observe_mode_same s2 mode observed,
        move_focus-again s1 targets clients active snapshot settled h,
      )
      (append-nil _)

module _ (s : FocusSyncState) (clients : List HyprWindow) (active : Option HyprWindow)
    (snapshot : CoreSnapshot) where
  -- What a plan adds to the commands for the tags: nothing; the focus for the overlay, once both tags
  -- are settled and while nothing or the game has it; or the focus for the game, in passive mode and
  -- once no window has a managed tag.
  abbrev pub Moved : Option InteractionTargets → Bool → List Text → Type 0
  Moved targets settled focus =
      (focus ≡ [])
      ⊎ ((t : InteractionTargets) × (targets ≡ some t)
          × (focus ≡ focus_command t.overlay ∷ [])
          × (settled ≡ true)
          × (is_at active t.overlay ≡ false)
          × ((is_none active || is_at active t.game) ≡ true))
      ⊎ ((game : WindowAddress) × (validated_game_address clients snapshot ≡ some game)
          × (focus ≡ focus_command game ∷ [])
          × (snapshot.overlay_mode ≡ passive)
          × (any has_managed_tag clients ≡ false))

  move_focus-Moved :
      (targets : Option InteractionTargets) (settled : Bool)
      → Moved targets settled (move_focus s targets clients active snapshot settled).1
  unfolding interactive_focus passive_focus
  move_focus-Moved none settled =
      elim (Bool-cases (
        mode_eq snapshot.overlay_mode passive
        && (s.passive_focus_pending && not (any has_managed_tag clients)))) [
          | inl e ↦ elim (Option-cases (validated_game_address clients snapshot)) [
            | inl nowhere ↦ inl (rw (e, nowhere))
            | inr (game, found) ↦ inr (inr (game, found, rw (e, found), ground arith, ground arith))
          ]
          | inr e ↦ inl (rw e)
        ]
  move_focus-Moved (some t) settled =
      elim (Bool-cases (
        settled
        && (not (is_at active t.overlay)
            && ((is_none active || is_at active t.game)
                && (s.interactive_focus_pending || is_at active t.game))))) [
                  | inl e ↦ inr (inl (t, refl, rw e, ground arith, ground arith, ground arith))
                  | inr e ↦ inl (rw e)
                ]

wanted_targets-clear :
    (clients : List HyprWindow) (snapshot : CoreSnapshot)
    → (mode_eq snapshot.overlay_mode interactive && is_none (wanted_targets clients snapshot)) ≡ (
        mode_eq snapshot.overlay_mode interactive && is_none (interaction_targets clients snapshot))
unfolding wanted_targets
wanted_targets-clear clients snapshot =
    elim (Bool-cases (mode_eq snapshot.overlay_mode interactive)) [ inl e ↦ rw e | inr e ↦ rw e ]

-- A plan has the commands for the tags first. After them the focus is given to the overlay, when both
-- tags are settled and nothing or the game has it, or to the game, in passive mode and when no window
-- has a managed tag; or it is left. The core is to forget the game when the mode is interactive and
-- the targets are not found.
pub focus_plan-Moved :
    (s : FocusSyncState) (clients : List HyprWindow) (active : Option HyprWindow)
    (snapshot : CoreSnapshot)
    → ((focus : List Text) × ((focus_plan s clients active snapshot).1.commands
          ≡ (plan_tags clients snapshot).0 ++ focus)
        × Moved s clients active snapshot
            (wanted_targets clients snapshot)
            (plan_tags clients snapshot).1
            focus)
      × ((focus_plan s clients active snapshot).1.clear_core ≡ (
          mode_eq snapshot.overlay_mode interactive
          && is_none (interaction_targets clients snapshot)))
unfolding focus_plan
focus_plan-Moved s clients active snapshot = (
  (_, refl, move_focus-Moved _ clients active snapshot _ _),
  wanted_targets-clear clients snapshot,
)
