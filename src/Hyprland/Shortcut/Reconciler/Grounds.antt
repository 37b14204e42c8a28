-- ===== src/Hyprland/Shortcut/Reconciler/Grounds.antt =====
-- What a decision rests on, in counts of bindings, and that each branch of the plan rests on it.
use player_vox_over_crow.Common.{
  ℕ, ◌-◌, ◌≤◌, ◌==◌, ◌≡◌, ◌⊎◌, inl, inr, refl, subst, Bool, true, false, ◌&&◌, Option, none, some,
  List, length, keep, is_some, Bool-cases, arith,
}
use player_vox_over_crow.Common.Counts.{Counts}
use player_vox_over_crow.Common.Options.{is_empty, length-keep-le, length_empty, length_nonempty}
use player_vox_over_crow.Hyprland.Shortcut.{ShortcutSpec, ShortcutBackend, HyprBinding}
use player_vox_over_crow.Common.Text.{Text}
use player_vox_over_crow.Hyprland.Shortcut.Binding.{
  owns_action, bind_request_for_action, unbind_request,
}
use player_vox_over_crow.Hyprland.Shortcut.Ownership.{BoundTo, Counts-bound}
use player_vox_over_crow.Hyprland.Shortcut.Reconciler.{
  ShortcutDecision, idle, wait_for_portal, conflict, ambiguous_ownership, bind, unbind,
  ShortcutReconciler, plan_release, plan_binding, matching_bindings, owned_bindings, plan_observed,
  is_conflicting,
}

-- A binding for an action that is advertised, as often as the number says.
abbrev pub Serving : ShortcutSpec → Option Text → List HyprBinding → ℕ → Type 0
Serving spec advertised bindings n =
    (action : Text) × (advertised ≡ some action) × Counts (BoundTo spec action) bindings n

-- What a decision rests on: how many bindings are on the accelerator, how many of them are owned, and
-- whether a conflict that was found before is kept.
abbrev pub Decided :
    Type 0
    → ShortcutSpec
    → ShortcutBackend
    → Bool
    → Option Text
    → List HyprBinding
    → ℕ
    → ℕ
    → ShortcutDecision
    → Type 0
Decided kept spec backend desired advertised bindings on own (bind request) =
    (desired ≡ true)
    × ((action : Text) × (advertised ≡ some action)
        × (request ≡ bind_request_for_action spec backend action))
    × (on ≡ 0)
Decided kept spec backend desired advertised bindings on own (unbind request) =
    (request ≡ unbind_request spec backend)
    × (on ≡ 1)
    × (own ≡ 1)
    × ((desired ≡ false) ⊎ ((advertised ≡ none) ⊎ Serving spec advertised bindings 0))
Decided kept spec backend desired advertised bindings on own idle =
    ((desired ≡ false) × (own ≡ 0))
    ⊎ ((desired ≡ true) × (on ≡ 1) × (own ≡ 1) × Serving spec advertised bindings 1)
Decided kept spec backend desired advertised bindings on own wait_for_portal =
    (desired ≡ true) × (advertised ≡ none) × (own ≡ 0)
Decided kept spec backend desired advertised bindings on own conflict =
    (desired ≡ true) × (is_some advertised ≡ true) × (kept ⊎ ((1 ≤ on) × ((own ≡ 0) ⊎ (2 ≤ on))))
Decided kept spec backend desired advertised bindings on own ambiguous_ownership =
    ((desired ≡ false) ⊎ (advertised ≡ none)) × (1 ≤ own) × (2 ≤ on)

not_alone :
    (exact on own : ℕ)
    → exact ≤ on
    → own ≤ on
    → (exact == 1 && (own == 1 && on - own == 0)) ≡ false
    → (exact == 0 && (own == 1 && on - own == 0)) ≡ false
    → 1 ≤ on
    → (own ≡ 0) ⊎ (2 ≤ on)
not_alone exact on own a b e f c = elim (Bool-cases (own == 0)) [
  | inl g ↦ inl (ground (arith, g))
  | inr g ↦ inr (ground (arith, a, b, c, e, f, g))
]

owned_bindings-le :
    (r : ShortcutReconciler) (bindings : List HyprBinding)
    → length (owned_bindings r.spec bindings) ≤ length (matching_bindings r.spec bindings)
owned_bindings-le r bindings = length-keep-le _ (matching_bindings r.spec bindings)

unadvertised :
    (desired : Bool) (advertised : Option Text)
    → ((desired ≡ false) ⊎ (advertised ≡ none))
    → desired ≡ true
    → advertised ≡ none
unadvertised desired advertised (inl h) e = cc
unadvertised desired advertised (inr h) e = h

module _ (kept : Type 0) (r : ShortcutReconciler) (bindings : List HyprBinding) where
  abbrev matching_count : ℕ
  matching_count = length (matching_bindings r.spec bindings)

  abbrev owned_count : ℕ
  owned_count = length (owned_bindings r.spec bindings)

  abbrev Rests : Bool → Option Text → ShortcutDecision → Type 0
  Rests desired advertised d =
      Decided kept r.spec r.backend desired advertised bindings matching_count owned_count d

  plan_release-Decided :
      (desired : Bool) (advertised : Option Text)
      → ((desired ≡ false) ⊎ (advertised ≡ none))
      → Rests desired advertised
          (plan_release r desired owned_count (matching_count - owned_count)).1
  unfolding plan_release
  plan_release-Decided desired advertised h =
      let le = owned_bindings-le r bindings in
      elim (Bool-cases (owned_count == 0)) [
        | inl e ↦ elim (Bool-cases desired) [
          | inl wanted ↦
              rw (e, wanted) (refl, unadvertised desired advertised h wanted, ground (arith, e))
          | inr unwanted ↦ rw (e, unwanted) (inl (refl, ground (arith, e)))
        ]
        | inr e ↦ elim (Bool-cases (owned_count == 1 && matching_count - owned_count == 0)) [
          | inl one ↦
              rw (e, one)
                (
                  refl,
                  ground (arith, one, le),
                  ground (arith, one, le),
                  elim h [ inl unwanted ↦ inl unwanted | inr absent ↦ inr (inl absent) ],
                )
          | inr more ↦ rw (e, more) (h, ground (arith, e, more, le), ground (arith, e, more, le))
        ]
      ]

  plan_binding-Decided :
      (action : Text)
      → Rests true
          (some action)
          (plan_binding r action
            (matching_bindings r.spec bindings)
            owned_count
            (matching_count - owned_count)).1
  unfolding plan_binding
  plan_binding-Decided action =
      let matching = matching_bindings r.spec bindings in
      let le = owned_bindings-le r bindings in
      let exact = length (keep (λ b. owns_action r.spec b action) matching) in
      let exact_le = length-keep-le (λ b. owns_action r.spec b action) matching in
      let counted = Counts-bound r.spec action bindings in
      let alone = owned_count == 1 && matching_count - owned_count == 0 in
      elim (Bool-cases (exact == 1 && alone)) [
        | inl e ↦
            let one : exact ≡ 1 = ground (arith, e) in
            let serving = subst (Counts (BoundTo r.spec action) bindings) one counted in
            rw e (inr (refl, ground (arith, e, le), ground (arith, e, le), (action, refl, serving)))
        | inr e ↦ elim (Bool-cases (exact == 0 && alone)) [
          | inl f ↦
              let zero_bound : exact ≡ 0 = ground (arith, f) in
              let serving = subst (Counts (BoundTo r.spec action) bindings) zero_bound counted in
              rw (e, f)
                (
                  refl,
                  ground (arith, f, le),
                  ground (arith, f, le),
                  inr (inr (action, refl, serving)),
                )
          | inr f ↦ elim (Bool-cases (is_empty matching)) [
            | inl g ↦ rw (e, f, g) (refl, (action, refl, refl), length_empty matching g)
            | inr g ↦
                let some_matching = length_nonempty matching g in
                let foreign = not_alone exact matching_count owned_count exact_le le e f in
                rw (e, f, g) (refl, refl, inr (some_matching, foreign some_matching))
          ]
        ]
      ]

  pub plan_observed-Decided :
      (desired : Bool) (advertised : Option Text)
      → (desired ≡ true → is_some advertised ≡ true → is_conflicting r.state ≡ true → kept)
      → Rests desired advertised (plan_observed r desired advertised bindings).1
  unfolding plan_observed
  plan_observed-Decided desired none h = plan_release-Decided desired none (inr refl)
  plan_observed-Decided false (some action) h = plan_release-Decided false (some action) (inl refl)
  plan_observed-Decided true (some action) h = elim (Bool-cases (is_conflicting r.state)) [
    | inl e ↦ rw e (refl, refl, inl (h refl refl e))
    | inr e ↦ rw e (plan_binding-Decided action)
  ]
