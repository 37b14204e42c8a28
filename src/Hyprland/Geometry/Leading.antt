-- ===== src/Hyprland/Geometry/Leading.antt =====
-- Who follows whom.
use player_vox_over_crow.Common.{
  ◌≡◌, ◌⊎◌, refl, true, false, not, ◌||◌, Option, none, some, List, [], inl, inr, all, keep,
  list_eq, opt_eq, Bool-cases, Option-cases, arith,
}
use player_vox_over_crow.Common.Options.{is_empty, flat_map}
use player_vox_over_crow.Common.Text.{Text, text_eq}
use player_vox_over_crow.Common.Int.{int_eq_iff}
use player_vox_over_crow.Protocol.{Rect, OverlayMode, interactive, CoreSnapshot, rect_eq}
use player_vox_over_crow.Hyprland.Model.{HyprWindow}
use player_vox_over_crow.Hyprland.Geometry.{
  GeometrySynchronizer, TrackedIdentity, LiveClient, dispatch_once, track, tracked_game, follow,
  active_overlay, exact_geometry_commands, overlay_follow_commands, leading_overlay,
  wanted_commands, live_overlays, commands, tracked_eq, is_aligned,
}
use player_vox_over_crow.Hyprland.Geometry.Settling.{commands_tracked}

leading_overlay-allowed :
    (g : GeometrySynchronizer) (mode : OverlayMode) (active : Option HyprWindow)
    (overlays : List LiveClient) (game leading : LiveClient)
    → leading_overlay g mode active overlays game ≡ some leading
    → (mode ≡ interactive)
      × (opt_eq rect_eq g.converged (some game.rect) ≡ true)
      × (active_overlay active overlays ≡ some leading)
      × (leading.workspace_id ≡ game.workspace_id)
      × (rect_eq leading.rect game.rect ≡ false)
unfolding leading_overlay
leading_overlay-allowed g mode active overlays game leading h =
    elim (Option-cases (active_overlay active overlays)) [
      | inl e ↦ ground arith
      | inr (o, e) ↦ ground (arith, int_eq_iff o.workspace_id game.workspace_id)
    ]

module _ (g : GeometrySynchronizer) (active : Option HyprWindow) where
  -- What is sent for a tracked game: nothing, its own move to the place of the active overlay, in
  -- interactive mode and after its rectangle had settled, or the moves of the overlays that are not
  -- where the game is.
  abbrev pub Sent :
      CoreSnapshot → List HyprWindow → TrackedIdentity → LiveClient → List Text → Type 0
  Sent snapshot clients identity game out =
      (out ≡ [])
      ⊎ ((leading : LiveClient) × (out ≡ exact_geometry_commands game.address leading.rect)
          × (snapshot.overlay_mode ≡ interactive)
          × (opt_eq tracked_eq g.identity (some identity) ≡ true)
          × (opt_eq rect_eq g.converged (some game.rect) ≡ true)
          × (active_overlay active (live_overlays clients) ≡ some leading)
          × (leading.workspace_id ≡ game.workspace_id))
      ⊎ (out
          ≡ flat_map (λ o. overlay_follow_commands o game)
              (keep (λ (o : LiveClient). not (is_aligned game o)) (live_overlays clients)))

  dispatch_once-cases :
      (h : GeometrySynchronizer) (cs : List Text)
      → ((dispatch_once h cs).1 ≡ []) ⊎ ((dispatch_once h cs).1 ≡ cs)
  unfolding dispatch_once
  dispatch_once-cases h cs =
      elim (Bool-cases (is_empty cs || opt_eq (list_eq text_eq) h.last_dispatch (some cs))) [
        | inl e ↦ inl (rw e)
        | inr e ↦ inr (rw e)
      ]

  follow-cases :
      (h : GeometrySynchronizer) (mode : OverlayMode) (overlays : List LiveClient)
      (game : LiveClient)
      → ((follow h mode active overlays game).1 ≡ [])
        ⊎ ((follow h mode active overlays game).1
            ≡ wanted_commands (leading_overlay h mode active overlays game) overlays game)
  unfolding follow
  follow-cases h mode overlays game = elim (Bool-cases (is_empty overlays)) [
    | inl e ↦ inl (rw e)
    | inr e ↦ elim (Bool-cases (all (is_aligned game) overlays)) [
      | inl settled ↦ inl (rw (e, settled))
      | inr moved ↦ rw (e, moved) (dispatch_once-cases h _)
    ]
  ]

  -- A rectangle that had settled before the game was looked up had settled for the same game.
  track-converged :
      (identity : TrackedIdentity) (rect : Rect)
      → opt_eq rect_eq (track g identity).converged (some rect) ≡ true
      → (opt_eq tracked_eq g.identity (some identity) ≡ true)
        × (opt_eq rect_eq g.converged (some rect) ≡ true)
  unfolding track
  track-converged identity rect h =
      elim (Bool-cases (opt_eq tracked_eq g.identity (some identity))) [
        | inl e ↦ (e, rw e at h)
        | inr e ↦ let q : false ≡ true = rw e at h in cc
      ]

  wanted_commands-Sent :
      (snapshot : CoreSnapshot) (clients : List HyprWindow) (identity : TrackedIdentity)
      (game : LiveClient) (o : Option LiveClient)
      → leading_overlay (track g identity) snapshot.overlay_mode active (live_overlays clients) game
        ≡ o
      → Sent snapshot clients identity game (wanted_commands o (live_overlays clients) game)
  unfolding wanted_commands
  wanted_commands-Sent snapshot clients identity game none e = inr (inr refl)
  wanted_commands-Sent snapshot clients identity game (some leading) e =
      let (mode, settled, found, workspace, _) =
        leading_overlay-allowed (track g identity) _ active (live_overlays clients) game leading
          e in
      let (same, converged) = track-converged identity game.rect settled in
      inr (inl (leading, refl, mode, same, converged, found, workspace))

  -- For a tracked game, what is sent is nothing, the game's own move to the place of the active
  -- overlay, in interactive mode on one workspace after the same game's rectangle had settled, or the
  -- moves of the overlays that are not where the game is.
  pub commands-Sent :
      (snapshot : CoreSnapshot) (clients : List HyprWindow) (identity : TrackedIdentity)
      (game : LiveClient)
      → tracked_game snapshot clients ≡ some (identity, game)
      → Sent snapshot clients identity game (commands g snapshot active clients).1
  commands-Sent snapshot clients identity game e =
      rw (commands_tracked g snapshot active clients identity game e)
        (elim (follow-cases (track g identity) snapshot.overlay_mode (live_overlays clients) game) [
          | inl nothing ↦ inl nothing
          | inr all_of ↦ rw all_of (wanted_commands-Sent snapshot clients identity game _ refl)
        ])
