-- ===== src/Hyprland/Geometry/Settling.antt =====
-- Commands are sent once for a state of the windows.
use player_vox_over_crow.Common.{
  ◌≡◌, refl, ap, ◌∙◌, true, ◌||◌, Option, some, List, [], inl, inr, all, list_eq, list_eq_iff,
  opt_eq, Bool-cases, Option-cases, arith,
}
use player_vox_over_crow.Common.Options.{is_empty}
use player_vox_over_crow.Common.Text.{Text, text_eq, text_eq_iff}
use player_vox_over_crow.Protocol.{OverlayMode, CoreSnapshot}
use player_vox_over_crow.Hyprland.Model.{HyprWindow}
use player_vox_over_crow.Hyprland.Geometry.{
  GeometrySynchronizer, TrackedIdentity, LiveClient, dispatch_once, track, tracked_eq, tracked_game,
  follow, leading_overlay, wanted_commands, live_overlays, commands, is_aligned,
}

dispatch_once-again :
    (g : GeometrySynchronizer) (cs : List Text)
    → dispatch_once (dispatch_once g cs).0 cs ≡ ((dispatch_once g cs).0, [])
unfolding dispatch_once
dispatch_once-again g cs =
    elim (Bool-cases (is_empty cs || opt_eq (list_eq text_eq) g.last_dispatch (some cs))) [
      | inl e ↦ rw (e, e)
      | inr e ↦
          let same : (is_empty cs || list_eq text_eq cs cs) ≡ true =
            ground (arith, (list_eq_iff text_eq text_eq_iff cs cs).1 refl) in
          rw (e, same)
    ]

dispatch_once-converged :
    (g : GeometrySynchronizer) (cs : List Text) → (dispatch_once g cs).0.converged ≡ g.converged
unfolding dispatch_once
dispatch_once-converged g cs =
    elim (Bool-cases (is_empty cs || opt_eq (list_eq text_eq) g.last_dispatch (some cs))) [
      | inl e ↦ rw e
      | inr e ↦ rw e
    ]

leading_overlay-converged :
    (g h : GeometrySynchronizer) (mode : OverlayMode) (active : Option HyprWindow)
    (overlays : List LiveClient) (game : LiveClient)
    → g.converged ≡ h.converged
    → leading_overlay g mode active overlays game ≡ leading_overlay h mode active overlays game
unfolding leading_overlay
leading_overlay-converged g h mode active overlays game e = rw e

pub follow-again :
    (g : GeometrySynchronizer) (mode : OverlayMode) (active : Option HyprWindow)
    (overlays : List LiveClient) (game : LiveClient)
    → follow (follow g mode active overlays game).0 mode active overlays game
      ≡ ((follow g mode active overlays game).0, [])
unfolding follow
follow-again g mode active overlays game = elim (Bool-cases (is_empty overlays)) [
  | inl e ↦ rw e
  | inr some_overlay ↦ elim (Bool-cases (all (is_aligned game) overlays)) [
    | inl e ↦ rw (some_overlay, e)
    | inr moved ↦
        let cs = wanted_commands (leading_overlay g mode active overlays game) overlays game in
        let after = (dispatch_once g cs).0 in
        let unchanged =
          leading_overlay-converged after g mode active overlays game
            (dispatch_once-converged g cs) in
        rw (some_overlay, moved, unchanged) (dispatch_once-again g cs)
  ]
]

follow-identity :
    (g : GeometrySynchronizer) (mode : OverlayMode) (active : Option HyprWindow)
    (overlays : List LiveClient) (game : LiveClient)
    → (follow g mode active overlays game).0.identity ≡ g.identity
unfolding follow dispatch_once
follow-identity g mode active overlays game = ground arith

tracked_eq_refl : (a : TrackedIdentity) → tracked_eq a a ≡ true
tracked_eq_refl a =
    let name = (text_eq_iff a.app_id a.app_id).1 refl in
    let address = (text_eq_iff a.address.raw a.address.raw).1 refl in ground (arith, name, address)

track-identity :
    (g : GeometrySynchronizer) (identity : TrackedIdentity)
    → opt_eq tracked_eq (track g identity).identity (some identity) ≡ true
unfolding track
track-identity g identity = elim (Bool-cases (opt_eq tracked_eq g.identity (some identity))) [
  | inl e ↦ rw e e
  | inr e ↦ rw e (tracked_eq_refl identity)
]

pub track_tracked :
    (g : GeometrySynchronizer) (identity : TrackedIdentity)
    → opt_eq tracked_eq g.identity (some identity) ≡ true
    → track g identity ≡ g
unfolding track
track_tracked g identity h = rw h

pub commands_tracked :
    (g : GeometrySynchronizer) (snapshot : CoreSnapshot) (active : Option HyprWindow)
    (clients : List HyprWindow) (identity : TrackedIdentity) (game : LiveClient)
    → tracked_game snapshot clients ≡ some (identity, game)
    → commands g snapshot active clients
      ≡ follow (track g identity) snapshot.overlay_mode active (live_overlays clients) game
unfolding commands
commands_tracked g snapshot active clients identity game e = rw (commands, e)

-- Commands are sent once: when nothing has changed since, the next call leaves the state as it is and
-- sends nothing.
pub commands-again :
    (g : GeometrySynchronizer) (snapshot : CoreSnapshot) (active : Option HyprWindow)
    (clients : List HyprWindow)
    → commands (commands g snapshot active clients).0 snapshot active clients
      ≡ ((commands g snapshot active clients).0, [])
unfolding commands
commands-again g snapshot active clients = elim (Option-cases (tracked_game snapshot clients)) [
  | inl e ↦ rw (commands, e)
  | inr ((identity, game), e) ↦
      let g1 = track g identity in
      let overlays = live_overlays clients in
      let mode = snapshot.overlay_mode in
      let kept = follow-identity g1 mode active overlays game in
      let tracked : opt_eq tracked_eq (follow g1 mode active overlays game).0.identity
            (some identity)
          ≡ true =
        rw kept (track-identity g identity) in
      let same = track_tracked (follow g1 mode active overlays game).0 identity tracked in
      let after = (follow g1 mode active overlays game).0 in
      rw (commands_tracked g snapshot active clients identity game e) (
        commands_tracked after snapshot active clients identity game e
        ∙ ap (λ h. follow h mode active overlays game) same
        ∙ follow-again g1 mode active overlays game)
]
