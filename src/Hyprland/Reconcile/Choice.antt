-- ===== src/Hyprland/Reconcile/Choice.antt =====
-- Which window is chosen, and what is remembered of it.
use player_vox_over_crow.Common.{
  ◌≡◌, ◌⊎◌, refl, sym, ap, not, ◌∙◌, Bool, true, false, Option, none, some, List, inl, inr,
  Option-cases, Bool-cases,
}
use player_vox_over_crow.Common.Options.{◌>>=◌, find, find-mem, >>=-eq-some, filter_option-eq-some}
use player_vox_over_crow.Common.Text.{text_eq, text_eq_iff}
use player_vox_over_crow.Hyprland.Model.{
  HyprWindow, HyprMonitor, WindowAddress, WindowReport, from_window, is_overlay,
}
use player_vox_over_crow.Hyprland.Model.Report.{from_window-fields}
use player_vox_over_crow.Hyprland.Reconcile.{
  Reconciler, choose, forget_if_none, reconcile, remembered_report, report_active,
  is_on_focused_workspace,
}
use mathlib.Core.List.{Memᴰ}

-- A listed window that the report is made of.
abbrev pub ReportedOf : List HyprWindow → List HyprMonitor → WindowReport → Type 0
ReportedOf clients monitors report =
    (w : HyprWindow) × Memᴰ w clients × (from_window w monitors ≡ some report)

pub report_active-ReportedOf :
    (active : Option HyprWindow) (clients : List HyprWindow) (monitors : List HyprMonitor)
    (report : WindowReport)
    → report_active active clients monitors ≡ some report
    → ReportedOf clients monitors report
unfolding report_active
report_active-ReportedOf none clients monitors report h = cc
report_active-ReportedOf (some a) clients monitors report h =
    elim (Option-cases (find (λ (w : HyprWindow). text_eq w.address a.address) clients)) [
      | inl e ↦ let q : none ≡ some report = rw e at h in cc
      | inr (w, e) ↦
          (w, (find-mem (λ (w : HyprWindow). text_eq w.address a.address) clients w e).0, rw e at h)
    ]

not-true : (b : Bool) → not b ≡ true → b ≡ false
not-true true h = cc
not-true false h = refl

WindowAddress-eq : (a b : WindowAddress) → a.raw ≡ b.raw → a ≡ b
WindowAddress-eq a b h = cc

-- A remembered report is of the remembered window, which is listed, is not the overlay's and is on
-- the focused workspace.
pub remembered_report-ReportedOf :
    (r : Reconciler) (clients : List HyprWindow) (monitors : List HyprMonitor)
    (report : WindowReport)
    → remembered_report r clients monitors ≡ some report
    → ReportedOf clients monitors report
      × (r.last_reportable ≡ some report.address)
      × (is_overlay report ≡ false)
      × (is_on_focused_workspace report monitors ≡ true)
unfolding remembered_report
remembered_report-ReportedOf r clients monitors report h =
    let on = filter_option-eq-some (λ c. is_on_focused_workspace c monitors) _ h in
    let other = filter_option-eq-some (λ c. not (is_overlay c)) _ on.0 in
    elim (Option-cases r.last_reportable) [
      | inl e ↦ let q : none ≡ some report = rw e at other.0 in cc
      | inr (a, e) ↦
          let chain : (find (λ (w : HyprWindow). text_eq w.address a.raw) clients >>= λ w.
          from_window w monitors)
              ≡ some report =
            rw e at other.0 in
          let (w, found, made) = >>=-eq-some _ (λ w. from_window w monitors) chain in
          let (mem, same) = find-mem _ clients w found in
          let fields = from_window-fields w monitors report made in
          let address = (text_eq_iff w.address a.raw).0 same in
          let remembered : a ≡ report.address =
            WindowAddress-eq _ _ (sym address ∙ sym (fields.2)) in
          ((w, mem, made), e ∙ ap some remembered, not-true _ other.1, on.1)
    ]

module _ (r : Reconciler) (clients : List HyprWindow) (monitors : List HyprMonitor) where
  -- No window is reported and none is remembered, or the reported window is listed, is not the
  -- overlay's own, and is what is remembered; while the game is preserved, it is the window
  -- remembered before, and on the one focused workspace.
  abbrev pub Settled : Bool → Reconciler × Option WindowReport → Type 0
  Settled preserve_game out =
      (out.1 ≡ none) × (out.0.last_reportable ≡ none)
      ⊎ ((report : WindowReport) × (out.1 ≡ some report)
          × (out.0.last_reportable ≡ some report.address)
          × (is_overlay report ≡ false)
          × ReportedOf clients monitors report
          × ((preserve_game ≡ false)
              ⊎ ((r.last_reportable ≡ some report.address)
                  × (is_on_focused_workspace report monitors ≡ true))))

  remembered-Settled :
      (preserve_game : Bool)
      → Settled preserve_game (forget_if_none (r, remembered_report r clients monitors))
  remembered-Settled preserve_game = elim (Option-cases (remembered_report r clients monitors)) [
    | inl e ↦ inl (rw e, rw e)
    | inr (report, e) ↦
        let (of, last, other, on) = remembered_report-ReportedOf r clients monitors report e in
        inr (report, rw e, rw (e, last), other, of, inr (last, on))
  ]

  choose-Settled :
      (active : Option HyprWindow) (o : Option WindowReport)
      → report_active active clients monitors ≡ o
      → Settled false (forget_if_none (choose r active o (remembered_report r clients monitors)))
  choose-Settled none none e = remembered-Settled false
  choose-Settled (some w) none e = inl (refl, refl)
  choose-Settled active (some report) e = elim (Bool-cases (is_overlay report)) [
    | inl own ↦ rw own (remembered-Settled false)
    | inr other ↦ rw other (
        inr (
          report,
          refl,
          refl,
          other,
          report_active-ReportedOf active clients monitors report e,
          inl refl,
        ))
  ]

  -- A window is reported only when it is listed and not the overlay's own; it is then what is
  -- remembered. While the game is preserved, it is the window remembered before, and on the one
  -- focused workspace. When no window is reported, none is remembered.
  pub reconcile-Settled :
      (active : Option HyprWindow) (preserve_game : Bool)
      → Settled preserve_game (reconcile r active clients monitors preserve_game)
  unfolding reconcile
  reconcile-Settled active true = remembered-Settled true
  reconcile-Settled active false = choose-Settled active _ refl
