-- ===== src/Hyprland/Shortcut/Ownership.antt =====
-- What it is for a binding to be on the accelerator of a shortcut and to be the bridge's own, field
-- by field, and that the code's tests decide it.
use player_vox_over_crow.Common.{
  ◌==◌, ==_iff, ◌≡◌, ◌⊎◌, inl, inr, refl, sym, ap, ◌∙◌, Bool, true, false, ◌&&◌, ◌||◌, Option, none,
  some, List, length, keep, &&_true, Bool-cases, arith,
}
use player_vox_over_crow.Common.Counts.{Counts, Reflects, Counts-keep, Counts-keep-keep}
use player_vox_over_crow.Common.Text.{Text, chars, text_eq, text_eq_iff}
use player_vox_over_crow.Hyprland.Shortcut.{
  ShortcutSpec, HyprBinding, portal_shortcut_name, legacy_portal_shortcut_name,
  toggle_manual_stopwatch_portal_action, legacy_toggle_manual_stopwatch_portal_action,
  reset_manual_stopwatch_portal_action, legacy_reset_manual_stopwatch_portal_action,
}
use player_vox_over_crow.Hyprland.Shortcut.Binding.{
  matches_accelerator, owns_action, owns_legacy, owns, legacy_portal_action,
}

abbrev pub OnAccelerator : ShortcutSpec → HyprBinding → Type 0
OnAccelerator spec b = (b.modmask ≡ spec.modmask) × (b.key ≡ spec.key)

-- The older name of an action.
abbrev pub OlderName : Text → Text → Type 0
OlderName action older =
    ((action ≡ portal_shortcut_name) × (older ≡ legacy_portal_shortcut_name))
    ⊎ (((action ≡ toggle_manual_stopwatch_portal_action)
          × (older ≡ legacy_toggle_manual_stopwatch_portal_action))
        ⊎ ((action ≡ reset_manual_stopwatch_portal_action)
            × (older ≡ legacy_reset_manual_stopwatch_portal_action)))

-- On the accelerator, with the description and as a global shortcut of the action.
abbrev pub BoundTo : ShortcutSpec → Text → HyprBinding → Type 0
BoundTo spec action b =
    OnAccelerator spec b
    × (b.description ≡ spec.description)
    × (b.dispatcher ≡ chars "global")
    × (b.arg ≡ action)

-- Bound to the action of the shortcut, or to the action's older name.
abbrev pub OwnedBy : ShortcutSpec → HyprBinding → Type 0
OwnedBy spec b =
    BoundTo spec spec.portal_action b ⊎ (BoundTo spec b.arg b × OlderName spec.portal_action b.arg)

pub legacy_portal_action-OlderName :
    (action older : Text) → legacy_portal_action action ≡ some older → OlderName action older
unfolding legacy_portal_action
legacy_portal_action-OlderName action older h =
    elim (Bool-cases (text_eq action portal_shortcut_name)) [
      | inl e ↦
          let same : some legacy_portal_shortcut_name ≡ some older =
            rw (legacy_portal_action, e) at h in
          inl ((text_eq_iff _ _).0 e, cc)
      | inr e ↦ elim (Bool-cases (text_eq action toggle_manual_stopwatch_portal_action)) [
        | inl f ↦
            let same : some legacy_toggle_manual_stopwatch_portal_action ≡ some older =
              rw (legacy_portal_action, e, f) at h in
            inr (inl ((text_eq_iff _ _).0 f, cc))
        | inr f ↦ elim (Bool-cases (text_eq action reset_manual_stopwatch_portal_action)) [
          | inl g ↦
              let same : some legacy_reset_manual_stopwatch_portal_action ≡ some older =
                rw (legacy_portal_action, e, f, g) at h in
              inr (inr ((text_eq_iff _ _).0 g, cc))
          | inr g ↦ let same : none ≡ some older = rw (legacy_portal_action, e, f, g) at h in cc
        ]
      ]
    ]

OlderName-legacy_portal_action :
    (action older : Text) → OlderName action older → legacy_portal_action action ≡ some older
unfolding legacy_portal_action
OlderName-legacy_portal_action action older (inl (a, l)) = rw (a, l) refl
OlderName-legacy_portal_action action older (inr (inl (a, l))) = rw (a, l) refl
OlderName-legacy_portal_action action older (inr (inr (a, l))) = rw (a, l) refl

pub matches_accelerator-OnAccelerator :
    (spec : ShortcutSpec) → Reflects (matches_accelerator spec) (OnAccelerator spec)
unfolding matches_accelerator
matches_accelerator-OnAccelerator spec b = (
  λ h.
      let (mask, key) = &&_true (b.modmask == spec.modmask) (text_eq b.key spec.key) h in
      ((==_iff _ _).0 mask, (text_eq_iff _ _).0 key),
  λ h.
      let mask = (==_iff b.modmask spec.modmask).1 h.0 in
      let key = (text_eq_iff b.key spec.key).1 h.1 in rw (mask, key) refl,
)

pub owns_action-BoundTo :
    (spec : ShortcutSpec) (action : Text)
    → Reflects (λ b. owns_action spec b action) (BoundTo spec action)
unfolding owns_action
owns_action-BoundTo spec action b = (
  λ h.
      let (matching, rest) = &&_true _ _ h in
      let (mask, key) = &&_true (b.modmask == spec.modmask) (text_eq b.key spec.key) matching in
      let (description, rest2) = &&_true _ _ rest in
      let (dispatcher, arg) = &&_true _ _ rest2 in
      (
        ((==_iff _ _).0 mask, (text_eq_iff _ _).0 key),
        (text_eq_iff _ _).0 description,
        (text_eq_iff _ _).0 dispatcher,
        (text_eq_iff _ _).0 arg,
      ),
  λ h.
      let mask = (==_iff b.modmask spec.modmask).1 h.0.0 in
      let key = (text_eq_iff b.key spec.key).1 h.0.1 in
      let description = (text_eq_iff b.description spec.description).1 h.1 in
      let dispatcher = (text_eq_iff b.dispatcher (chars "global")).1 h.2 in
      let arg = (text_eq_iff b.arg action).1 h.3 in
      ground (arith, mask, key, description, dispatcher, arg),
)

owns_legacy-OlderName :
    (spec : ShortcutSpec) (b : HyprBinding) (o : Option Text)
    → legacy_portal_action spec.portal_action ≡ o
    → owns_legacy spec b o ≡ true
    → BoundTo spec b.arg b × OlderName spec.portal_action b.arg
owns_legacy-OlderName spec b none e h = cc
owns_legacy-OlderName spec b (some action) e h =
    let (on, description, dispatcher, arg) = (owns_action-BoundTo spec action b).0 h in
    (
      (on, description, dispatcher, refl),
      legacy_portal_action-OlderName spec.portal_action b.arg (e ∙ ap some (sym arg)),
    )

owns-or :
    (spec : ShortcutSpec) (b : HyprBinding)
    → owns spec b ≡ (
        owns_action spec b spec.portal_action
        || owns_legacy spec b (legacy_portal_action spec.portal_action))
unfolding owns
owns-or spec b = refl

either : (a b : Bool) → (a || b) ≡ true → (a ≡ true) ⊎ (b ≡ true)
either true b h = inl refl
either false b h = inr h

-- The code's test of ownership, on bindings of the accelerator.
pub owns-OwnedBy :
    (spec : ShortcutSpec) → Reflects (λ b. matches_accelerator spec b && owns spec b) (OwnedBy spec)
owns-OwnedBy spec b = (
  λ h.
      let (_, own) = &&_true (matches_accelerator spec b) (owns spec b) h in
      elim (either (owns_action spec b spec.portal_action)
        (owns_legacy spec b (legacy_portal_action spec.portal_action))
        (rw (owns-or spec b) at own)) [
          | inl e ↦ inl ((owns_action-BoundTo spec spec.portal_action b).0 e)
          | inr e ↦
              inr (owns_legacy-OlderName spec b (legacy_portal_action spec.portal_action) refl e)
        ],
  λ h. elim h [
    | inl bound ↦
        let on = (matches_accelerator-OnAccelerator spec b).1 bound.0 in
        let own = (owns_action-BoundTo spec spec.portal_action b).1 bound in
        rw (on, owns-or spec b, own) refl
    | inr (bound, older) ↦
        let on = (matches_accelerator-OnAccelerator spec b).1 bound.0 in
        let own = (owns_action-BoundTo spec b.arg b).1 bound in
        let legacy = OlderName-legacy_portal_action spec.portal_action b.arg older in
        let second : owns_legacy spec b (legacy_portal_action spec.portal_action) ≡ true =
          rw legacy own in
        ground (arith, on, owns-or spec b, second)
  ],
)

-- The bindings on the accelerator, and the owned ones among them, as the code counts them.
pub Counts-matching :
    (spec : ShortcutSpec) (bindings : List HyprBinding)
    → Counts (OnAccelerator spec) bindings (length (keep (matches_accelerator spec) bindings))
Counts-matching spec bindings =
    Counts-keep (OnAccelerator spec) (matches_accelerator spec)
      (matches_accelerator-OnAccelerator spec) bindings

pub Counts-owned :
    (spec : ShortcutSpec) (bindings : List HyprBinding)
    → Counts
        (OwnedBy spec)
        bindings
        (length (keep (owns spec) (keep (matches_accelerator spec) bindings)))
Counts-owned spec bindings =
    Counts-keep-keep (OwnedBy spec) (matches_accelerator spec) (owns spec) (owns-OwnedBy spec)
      bindings

pub Counts-bound :
    (spec : ShortcutSpec) (action : Text) (bindings : List HyprBinding)
    → Counts
        (BoundTo spec action)
        bindings
        (length (keep (λ b. owns_action spec b action) (keep (matches_accelerator spec) bindings)))
Counts-bound spec action bindings =
    Counts-keep-keep (BoundTo spec action) (matches_accelerator spec)
      (λ b. owns_action spec b action)
      (λ b. (
        λ h. (owns_action-BoundTo spec action b).0 (&&_true _ _ h).1,
        λ h.
            let on = (matches_accelerator-OnAccelerator spec b).1 h.0 in
            let own = (owns_action-BoundTo spec action b).1 h in ground (arith, on, own),
      ))
      bindings
