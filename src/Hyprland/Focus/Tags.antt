-- ===== src/Hyprland/Focus/Tags.antt =====
-- When the tags of the windows are left alone.
use mathlib.Core.List.{Memᴰ}
use player_vox_over_crow.Common.{
  ◌≡◌, ◌≢◌, ◌⊎◌, ◌↔◌, refl, sym, ap, ◌∙◌, subst, Bool, true, false, not, ◌&&◌, ◌||◌, Option, none,
  some, List, [], ◌∷◌, inl, inr, all, any-witness, any-mem, is_none, Bool-cases, Option-cases,
  &&_true, arith,
}
use player_vox_over_crow.Common.Options.{
  is_empty, flat_map, find, is_empty-append, is_empty-flat_map,
}
use player_vox_over_crow.Common.Counts.{Every, all-Every}
use player_vox_over_crow.Common.Text.{Text, text_eq, text_eq_iff}
use player_vox_over_crow.Hyprland.Model.{HyprWindow, WindowAddress, parse_address, address_eq}
use player_vox_over_crow.Hyprland.Focus.{
  has_tag, is_unintended, untag, add_tag, target_has_tag, reconcile_window_tag,
}

-- A window without an address that can be named, without the tag, or meant to have it.
abbrev pub InOrder : Text → Option WindowAddress → HyprWindow → Type 0
InOrder tag intended w =
    (parse_address w.address ≡ none)
    ⊎ ((address : WindowAddress) × (parse_address w.address ≡ some address)
        × (¬ (Memᴰ tag w.tags) ⊎ (intended ≡ some address)))

-- The first window of a list with an address.
pub data FirstAt (address : Text) : List HyprWindow → HyprWindow → Type 0 where
  here : {w : HyprWindow} {ws : List HyprWindow} → w.address ≡ address → FirstAt address (w ∷ ws) w
  later :
      {w v : HyprWindow} {ws : List HyprWindow}
      → w.address ≢ address
      → FirstAt address ws v
      → FirstAt address (w ∷ ws) v

-- No window is meant to have the tag, or the first window of the meant address has it.
abbrev pub Carried : List HyprWindow → Text → Option WindowAddress → Type 0
Carried clients tag intended =
    (intended ≡ none)
    ⊎ ((address : WindowAddress) × (w : HyprWindow) × (intended ≡ some address)
        × FirstAt address.raw clients w
        × Memᴰ tag w.tags)

abbrev in_order_at : Text → Option WindowAddress → HyprWindow → Option WindowAddress → Bool
in_order_at tag intended w none = true
in_order_at tag intended w (some address) = not (has_tag tag w && is_unintended intended address)

abbrev is_in_order : Text → Option WindowAddress → HyprWindow → Bool
is_in_order tag intended w = in_order_at tag intended w (parse_address w.address)

is_empty-untag :
    (tag : Text) (intended : Option WindowAddress) (w : HyprWindow)
    → is_empty (untag tag intended w) ≡ is_in_order tag intended w
unfolding untag
is_empty-untag tag intended w = elim (Option-cases (parse_address w.address)) [
  | inl e ↦ rw (untag, e)
  | inr (a, e) ↦
      rw (untag, e)
        (elim (Bool-cases (has_tag tag w && is_unintended intended a)) [
          | inl unmeant ↦ rw unmeant
          | inr kept ↦ rw kept
        ])
]

is_empty-add_tag :
    (tag : Text) (intended : Option WindowAddress) (tagged : Bool)
    → is_empty (add_tag tag intended tagged) ≡ (is_none intended || tagged)
is_empty-add_tag tag none true = refl
is_empty-add_tag tag none false = refl
is_empty-add_tag tag (some a) true = refl
is_empty-add_tag tag (some a) false = refl

has_tag-mem : (tag : Text) (w : HyprWindow) → (has_tag tag w ≡ true) ↔ Memᴰ tag w.tags
has_tag-mem tag w = (
  λ h.
      let (found, m, e) = any-witness (λ candidate. text_eq candidate tag) w.tags h in
      subst (λ t. Memᴰ t w.tags) ((text_eq_iff found tag).0 e) m,
  λ m. any-mem (λ candidate. text_eq candidate tag) w.tags tag m ((text_eq_iff tag tag).1 refl),
)

address_eq-eq : (a b : WindowAddress) → address_eq a b ≡ true → a ≡ b
address_eq-eq a b h = let e = (text_eq_iff a.raw b.raw).0 h in λ i. record { raw = e i }

is_unintended-false :
    (intended : Option WindowAddress) (address : WindowAddress)
    → (is_unintended intended address ≡ false) ↔ (intended ≡ some address)
is_unintended-false none address = (λ h. cc, λ h. cc)
is_unintended-false (some target) address = (
  λ h. ap some (address_eq-eq target address (ground (arith, h))),
  λ h.
      let same : target ≡ address = cc in
      let e = (text_eq_iff target.raw address.raw).1 (ap (λ (a : WindowAddress). a.raw) same) in
      ground (arith, e),
)

in_order_at-InOrder :
    (tag : Text) (intended : Option WindowAddress) (w : HyprWindow) (o : Option WindowAddress)
    → (in_order_at tag intended w o ≡ true) ↔ (
        (o ≡ none)
        ⊎ ((address : WindowAddress) × (o ≡ some address)
            × (¬ (Memᴰ tag w.tags) ⊎ (intended ≡ some address))))
in_order_at-InOrder tag intended w none = (λ h. inl refl, λ h. refl)
in_order_at-InOrder tag intended w (some a) = (
  λ h. elim (Bool-cases (has_tag tag w)) [
    | inl t ↦
        let meant : is_unintended intended a ≡ false = ground (arith, h, t) in
        inr (a, refl, inr ((is_unintended-false intended a).0 meant))
    | inr f ↦ inr (a, refl, inl (λ m. let t = (has_tag-mem tag w).1 m in cc))
  ],
  λ h. elim h [
    | inl e ↦ cc
    | inr (address, e, inl untagged) ↦ elim (Bool-cases (has_tag tag w)) [
      | inl t ↦ absurd (untagged ((has_tag-mem tag w).0 t))
      | inr f ↦ rw f refl
    ]
    | inr (address, e, inr meant) ↦
        let same : intended ≡ some a = cc in
        let u = (is_unintended-false intended a).1 same in
        elim (Bool-cases (has_tag tag w)) [ inl t ↦ rw (t, u) refl | inr f ↦ rw f refl ]
  ],
)

find-FirstAt :
    (address : Text) (clients : List HyprWindow) (w : HyprWindow)
    → find (λ (v : HyprWindow). text_eq v.address address) clients ≡ some w
    → FirstAt address clients w
find-FirstAt address [] w h = cc
find-FirstAt address (v ∷ vs) w h = elim (Bool-cases (text_eq v.address address)) [
  | inl e ↦
      let found : some v ≡ some w = rw e at h in
      let same : v ≡ w = cc in
      subst (FirstAt address (v ∷ vs)) same (here ((text_eq_iff v.address address).0 e))
  | inr e ↦
      later (λ same. let k = (text_eq_iff v.address address).1 same in cc)
        (find-FirstAt address vs w (rw e at h))
]

FirstAt-find :
    {address : Text} {clients : List HyprWindow} {w : HyprWindow}
    → FirstAt address clients w
    → find (λ (v : HyprWindow). text_eq v.address address) clients ≡ some w
FirstAt-find {address} (here {w} e) = rw ((text_eq_iff w.address address).1 e) refl
FirstAt-find {address} (later {w} {v} {ws} ne at_rest) =
    elim (Bool-cases (text_eq w.address address)) [
      | inl e ↦ absurd (ne ((text_eq_iff w.address address).0 e))
      | inr e ↦ rw e (FirstAt-find at_rest)
    ]

target_has_tag-Carried :
    (clients : List HyprWindow) (tag : Text) (intended : Option WindowAddress)
    → ((is_none intended || target_has_tag clients tag intended) ≡ true)
      ↔ Carried clients tag intended
target_has_tag-Carried clients tag none = (λ h. inl refl, λ h. refl)
target_has_tag-Carried clients tag (some a) = (
  λ h. elim (Option-cases (find (λ (v : HyprWindow). text_eq v.address a.raw) clients)) [
    | inl e ↦ let k : false ≡ true = rw (target_has_tag, e) at h in cc
    | inr (w, e) ↦
        let t : has_tag tag w ≡ true = rw (target_has_tag, e) at h in
        inr (a, w, refl, find-FirstAt a.raw clients w e, (has_tag-mem tag w).0 t)
  ],
  λ h. elim h [
    | inl e ↦ cc
    | inr (b, w, e, first, m) ↦
        let same : a ≡ b = cc in
        let found =
          subst
            (λ (c : WindowAddress).
              find (λ (v : HyprWindow). text_eq v.address c.raw) clients ≡ some w)
            (sym same) (FirstAt-find first) in
        rw (target_has_tag, found) ((has_tag-mem tag w).1 m)
  ],
)

both : (a b : Bool) → ((a && b) ≡ true) ↔ ((a ≡ true) × (b ≡ true))
both a b = (λ h. &&_true a b h, λ h. ground (arith, h))

reconcile_window_tag-quiet :
    (clients : List HyprWindow) (tag : Text) (intended : Option WindowAddress)
    → is_empty (reconcile_window_tag clients tag intended).0 ≡ (
        all (is_in_order tag intended) clients
        && (is_none intended || target_has_tag clients tag intended))
unfolding reconcile_window_tag
reconcile_window_tag-quiet clients tag intended =
    let tagged = target_has_tag clients tag intended in
    rw (
      is_empty-append (flat_map (untag tag intended) clients) (add_tag tag intended tagged),
      is_empty-flat_map (untag tag intended) (is_in_order tag intended)
          (is_empty-untag tag intended) clients,
      is_empty-add_tag tag intended tagged,
    )

-- No command is sent for a tag exactly when each window whose address can be named either does not
-- have the tag or is the one that is meant to have it, and the first window of the meant address, if
-- one is meant, has it. Windows whose address cannot be named are left as they are.
pub reconcile_window_tag-settled :
    (clients : List HyprWindow) (tag : Text) (intended : Option WindowAddress)
    → (is_empty (reconcile_window_tag clients tag intended).0 ≡ true)
      ↔ (Every (InOrder tag intended) clients × Carried clients tag intended)
reconcile_window_tag-settled clients tag intended =
    let quiet = reconcile_window_tag-quiet clients tag intended in
    let ordered =
      all-Every (InOrder tag intended) (is_in_order tag intended)
        (λ w. in_order_at-InOrder tag intended w (parse_address w.address)) clients in
    let carried = target_has_tag-Carried clients tag intended in
    let parts =
      both (all (is_in_order tag intended) clients)
        (is_none intended || target_has_tag clients tag intended) in
    (
      λ h. let (a, b) = parts.0 (sym quiet ∙ h) in (ordered.0 a, carried.0 b),
      λ h. quiet ∙ parts.1 (ordered.1 h.0, carried.1 h.1),
    )
