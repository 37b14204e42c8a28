-- ===== src/Hyprland/Bridge/Requests.antt =====
-- What the bridge asks the compositor to remove, and the commands that are sent.
use mathlib.Core.List.{Memᴰ}
use player_vox_over_crow.Common.{
  ℕ, ◌==◌, ◌≡◌, ◌⊎◌, inl, inr, refl, sym, ap, ◌∙◌, subst, true, false, not, ◌&&◌, ◌||◌, Option,
  none, some, List, [], ◌∷◌, keep, length, Bool-cases, Option-cases,
}
use player_vox_over_crow.Common.Counts.{Counts}
use player_vox_over_crow.Common.Options.{guard-eq-some, find_map-eq-some, guard, ◌>>◌}
use player_vox_over_crow.Common.Text.{Text, chars, text_eq}
use player_vox_over_crow.Hyprland.Geometry.{only}
use player_vox_over_crow.Hyprland.Shortcut.{
  ShortcutSpec, ShortcutBackend, HyprBinding, portal_shortcut_name, bind_description,
  toggle_manual_stopwatch_portal_action, toggle_manual_stopwatch_bind_description,
  reset_manual_stopwatch_portal_action, reset_manual_stopwatch_bind_description, key_character,
  spec_of,
}
use player_vox_over_crow.Hyprland.Shortcut.Binding.{
  from_owned_binding, matches_accelerator, owns, unbind_request, known_binding_identity,
  identity_in, overlay_identity, stopwatch_identities, unsupported_bits, modifier_names,
}
use player_vox_over_crow.Hyprland.Shortcut.Ownership.{
  OnAccelerator, OwnedBy, Counts-matching, Counts-owned,
}
use player_vox_over_crow.Hyprland.Bridge.{
  cleanup_requests, cleanup_step, is_processed, is_owned_alone,
}

-- The actions of the program, with their descriptions.
abbrev pub KnownIdentity : Text → Text → Type 0
KnownIdentity action description =
    ((action ≡ portal_shortcut_name) × (description ≡ bind_description))
    ⊎ (((action ≡ toggle_manual_stopwatch_portal_action)
          × (description ≡ toggle_manual_stopwatch_bind_description))
        ⊎ ((action ≡ reset_manual_stopwatch_portal_action)
            × (description ≡ reset_manual_stopwatch_bind_description)))

-- A request that removes the one binding of an accelerator, which belongs to a shortcut of the program.
abbrev pub Removes : ShortcutBackend → List HyprBinding → Text → Type 0
Removes backend bindings request =
    (spec : ShortcutSpec) × (request ≡ unbind_request spec backend)
    × KnownIdentity spec.portal_action spec.description
    × Counts (OnAccelerator spec) bindings 1
    × Counts (OwnedBy spec) bindings 1

identity_in-some :
    (b : HyprBinding) (row : Text × Text × Text) (found : Text × Text)
    → identity_in b row ≡ some found
    → (found.0 ≡ row.0) × (found.1 ≡ row.2)
identity_in-some b (action, legacy, description) found h =
    elim (Bool-cases
      ((text_eq b.arg action || text_eq b.arg legacy) && text_eq b.description description)) [
        | inl e ↦
            let same : some (action, description) ≡ some found = rw e at h in
            let pair : (action, description) ≡ found = cc in
            (ap (λ (p : Text × Text). p.0) (sym pair), ap (λ (p : Text × Text). p.1) (sym pair))
        | inr e ↦ let k : none ≡ some found = rw e at h in cc
      ]

known_binding_identity-KnownIdentity :
    (b : HyprBinding) (found : Text × Text)
    → known_binding_identity b ≡ some found
    → KnownIdentity found.0 found.1
unfolding known_binding_identity
known_binding_identity-KnownIdentity b found h =
    let (row, m, e) =
      find_map-eq-some (identity_in b) (overlay_identity ∷ stopwatch_identities) found h in
    let (action, description) = identity_in-some b row found e in
    elim m [
      | Memᴰ.head s ↦ inl (
        action ∙ ap (λ (r : Text × Text × Text). r.0) s,
        description ∙ ap (λ (r : Text × Text × Text). r.2) s,
      )
      | Memᴰ.tail (Memᴰ.head s) ↦ inr (
          inl (
            action ∙ ap (λ (r : Text × Text × Text). r.0) s,
            description ∙ ap (λ (r : Text × Text × Text). r.2) s,
          ))
      | Memᴰ.tail (Memᴰ.tail (Memᴰ.head s)) ↦ inr (
          inr (
            action ∙ ap (λ (r : Text × Text × Text). r.0) s,
            description ∙ ap (λ (r : Text × Text × Text). r.2) s,
          ))
      | Memᴰ.tail (Memᴰ.tail (Memᴰ.tail s)) ↦ elim s [ ]
    ]

from_owned_binding-KnownIdentity :
    (b : HyprBinding) (spec : ShortcutSpec)
    → from_owned_binding b ≡ some spec
    → KnownIdentity spec.portal_action spec.description
unfolding from_owned_binding
from_owned_binding-KnownIdentity b spec h =
    elim (Bool-cases (text_eq b.dispatcher (chars "global"))) [
      | inr e ↦ let k : none ≡ some spec = rw (from_owned_binding, e) at h in cc
      | inl e ↦ elim (Option-cases (known_binding_identity b)) [
        | inl f ↦ let k : none ≡ some spec = rw (from_owned_binding, e, f) at h in cc
        | inr ((action, description), f) ↦ elim (Option-cases (key_character b.key)) [
          | inl g ↦ let k : none ≡ some spec = rw (from_owned_binding, e, f, g) at h in cc
          | inr (c, g) ↦
              let k : (guard (not (b.modmask == 0 || not (unsupported_bits b.modmask == 0)))
                    >> some (spec_of action description c (b.modmask, modifier_names b.modmask)))
                  ≡ some spec =
                rw (from_owned_binding, e, f, g) at h in
              let (_, found) =
                guard-eq-some (not (b.modmask == 0 || not (unsupported_bits b.modmask == 0))) _ k in
              let made : spec_of action description c (b.modmask, modifier_names b.modmask) ≡ spec =
                cc in
              subst (λ (s : ShortcutSpec). KnownIdentity s.portal_action s.description) made
                (known_binding_identity-KnownIdentity b (action, description) f)
        ]
      ]
    ]

only-some {ℓ} : {A : Type ℓ} (xs : List A) (x : A) → only xs ≡ some x → xs ≡ x ∷ []
only-some [] x h = cc
only-some (y ∷ []) x h = let same : y ≡ x = cc in rw same
only-some (y ∷ z ∷ xs) x h = cc

is_owned_alone-Removes :
    (backend : ShortcutBackend) (bindings : List HyprBinding) (spec : ShortcutSpec)
    → KnownIdentity spec.portal_action spec.description
    → is_owned_alone spec (only (keep (matches_accelerator spec) bindings)) ≡ true
    → Removes backend bindings (unbind_request spec backend)
is_owned_alone-Removes backend bindings spec known h =
    elim (Option-cases (only (keep (matches_accelerator spec) bindings))) [
      | inl e ↦ let k : false ≡ true = rw e at h in cc
      | inr (b, e) ↦
          let alone = only-some (keep (matches_accelerator spec) bindings) b e in
          let own : owns spec b ≡ true = rw e at h in
          let kept : keep (owns spec) (keep (matches_accelerator spec) bindings) ≡ b ∷ [] =
            rw (alone, own) refl in
          (
            spec,
            refl,
            known,
            subst (Counts (OnAccelerator spec) bindings) (ap length alone)
                (Counts-matching spec bindings),
            subst (Counts (OwnedBy spec) bindings) (ap length kept) (Counts-owned spec bindings),
          )
    ]

cleanup_step-Removes :
    (backend : ShortcutBackend) (processed : List (ℕ × Text)) (bindings : List HyprBinding)
    (o : Option ShortcutSpec) (after : List (ℕ × Text) → List Text) (request : Text)
    → ((spec : ShortcutSpec) → o ≡ some spec → KnownIdentity spec.portal_action spec.description)
    → ((handled : List (ℕ × Text))
        → Memᴰ request (after handled)
        → Removes backend bindings request)
    → Memᴰ request (cleanup_step backend processed bindings o after)
    → Removes backend bindings request
cleanup_step-Removes backend processed bindings none after request known h m = h processed m
cleanup_step-Removes backend processed bindings (some spec) after request known h m =
    elim (Bool-cases (is_processed processed spec)) [
      | inl f ↦ h processed (rw f at m)
      | inr f ↦
          let now = (spec.modmask, spec.key) ∷ processed in
          elim (Bool-cases
            (is_owned_alone spec (only (keep (matches_accelerator spec) bindings)))) [
              | inl g ↦
                  let k : Memᴰ request (unbind_request spec backend ∷ after now) = rw (f, g) at m in
                  elim k [
                    | Memᴰ.head same ↦
                        rw same (is_owned_alone-Removes backend bindings spec (known spec refl) g)
                    | Memᴰ.tail later ↦ h now later
                  ]
              | inr g ↦ h now (rw (f, g) at m)
            ]
    ]

-- When the bridge cleans up, each request removes the shortcut of one of the program's actions: one
-- binding alone is on its accelerator, and that binding names the action, or its older name, with the
-- action's own description.
pub cleanup_requests-Removes :
    (backend : ShortcutBackend) (processed : List (ℕ × Text)) (bindings rest : List HyprBinding)
    (request : Text)
    → Memᴰ request (cleanup_requests backend processed bindings rest)
    → Removes backend bindings request
unfolding cleanup_requests
cleanup_requests-Removes backend processed bindings [] request m = elim m [ ]
cleanup_requests-Removes backend processed bindings (b ∷ rest) request m =
    cleanup_step-Removes backend processed bindings (from_owned_binding b) _ request
      (from_owned_binding-KnownIdentity b)
      (λ handled. cleanup_requests-Removes backend handled bindings rest request) m
