-- ===== src/Hyprland/Bridge/Passes.antt =====
-- What a pass tells the core.
use player_vox_over_crow.Common.{
  ◌≡◌, ◌⊎◌, inl, inr, refl, sym, Bool, false, Option, none, some, List, [], ◌∷◌, ◌++◌,
}
use player_vox_over_crow.Common.Result.{ok, err, Result-cases}
use player_vox_over_crow.Protocol.{interactive, CoreSnapshot, mode_eq}
use player_vox_over_crow.Hyprland.Model.{HyprWindow, HyprMonitor, WindowReport, is_overlay}
use player_vox_over_crow.Hyprland.Reconcile.{Reconciler, reconcile}
use player_vox_over_crow.Hyprland.Reconcile.Choice.{ReportedOf, Settled, reconcile-Settled}
use player_vox_over_crow.Hyprland.Bridge.{
  Failure, Answer, Sent, reported, cleared, Core, Desktop, tell_core, clear_after, reconcile_once,
}

-- Nothing stays with the core after an error; without one, the core was told of a listed window that
-- is not the overlay's own, or to clear its game.
abbrev pub Told : Core → Desktop → Reconciler × Answer CoreSnapshot × List Sent → Type 0
Told core desktop (after, result, sent) =
    ((e : Failure) × (before : List Sent) × (result ≡ err e) × (sent ≡ before ++ (cleared ∷ [])))
    ⊎ ((report : WindowReport) × (clients : List HyprWindow) × (monitors : List HyprMonitor)
        × (result ≡ core.report report)
        × (sent ≡ reported report ∷ [])
        × (desktop.clients ≡ ok clients)
        × (desktop.monitors ≡ ok monitors)
        × (is_overlay report ≡ false)
        × ReportedOf clients monitors report
        × (after.last_reportable ≡ some report.address))
    ⊎ ((result ≡ core.clear) × (sent ≡ cleared ∷ []) × (after.last_reportable ≡ none))

module _ (desktop : Desktop) (core : Core) where
  -- What is told when the answers are there.
  abbrev told : Reconciler × Option WindowReport → Reconciler × Answer CoreSnapshot × List Sent
  told (after, report) =
      let (result, sent) = clear_after (tell_core core report) in (after, result, sent)

  told-Told :
      (r : Reconciler) (clients : List HyprWindow) (monitors : List HyprMonitor) (p : Bool)
      (out : Reconciler × Option WindowReport)
      → desktop.clients ≡ ok clients
      → desktop.monitors ≡ ok monitors
      → Settled r clients monitors p out
      → Told core desktop (told out)
  told-Told r clients monitors p (after, o) c m (inl (e, last)) = elim (Result-cases core.clear) [
    | inl (f, k) ↦ rw (e, k) (inl (f, cleared ∷ [], refl, refl))
    | inr (snapshot, k) ↦ rw (e, k) (inr (inr (refl, refl, last)))
  ]
  told-Told r clients monitors p (after, o) c m (inr (report, e, last, other, of, _)) =
      elim (Result-cases (core.report report)) [
        | inl (f, k) ↦ rw (e, k) (inl (f, reported report ∷ [], refl, refl))
        | inr (snapshot, k) ↦
            rw (e, k) (inr (inl (report, clients, monitors, sym k, refl, c, m, other, of, last)))
      ]

  -- After an error of any answer, also the core's, the last thing that the core is told is to clear
  -- its game. Otherwise it is told once: of a listed window that is not the overlay's own and is
  -- remembered, or to clear its game, when nothing is remembered.
  pub reconcile_once-Told : (r : Reconciler) → Told core desktop (reconcile_once desktop core r)
  unfolding reconcile_once
  reconcile_once-Told r = elim (Result-cases desktop.active_window) [
    | inl (f, a) ↦ rw (reconcile_once, a) (inl (f, [], refl, refl))
    | inr (active, a) ↦ elim (Result-cases desktop.clients) [
      | inl (f, c) ↦ rw (reconcile_once, a, c) (inl (f, [], refl, refl))
      | inr (clients, c) ↦ elim (Result-cases desktop.monitors) [
        | inl (f, m) ↦ rw (reconcile_once, a, c, m) (inl (f, [], refl, refl))
        | inr (monitors, m) ↦ elim (Result-cases core.snapshot) [
          | inl (f, s) ↦ rw (reconcile_once, a, c, m, s) (inl (f, [], refl, refl))
          | inr (current, s) ↦
              let preserve = mode_eq current.overlay_mode interactive in
              let same : reconcile_once desktop core r
                  ≡ told (reconcile r active clients monitors preserve) =
                rw (reconcile_once, a, c, m, s) in
              rw same (
                told-Told r clients monitors preserve _ c m
                  (reconcile-Settled r clients monitors active preserve))
        ]
      ]
    ]
  ]
