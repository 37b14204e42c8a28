-- ===== src/Core/Session/Desktop/Detect.antt =====
-- What the list of desktop names has to say for a desktop to be known.
use mathlib.Core.List.{Memᴰ}
use player_vox_over_crow.Common.{
  ◌≡◌, refl, ◌∙◌, ap, ◌↔◌, true, false, none, some, List, [], ◌∷◌, arith, Bool-cases, Option-cases,
  inl, inr,
}
use player_vox_over_crow.Common.Text.{Text, trim}
use player_vox_over_crow.Core.Session.Desktop.{
  DesktopKind, known, kind_eq, desktop_kind, contradicts, detect_tokens,
}

-- Every token names the desktop.
abbrev pub AllName : DesktopKind → List Text → Type 0
AllName kind tokens = (token : Text) → Memᴰ token tokens → desktop_kind (trim token) ≡ some kind

kind_eq_sound : (a b : DesktopKind) → kind_eq a b ≡ true → a ≡ b
kind_eq_sound a b h = ground arith

kind_eq_refl : (a : DesktopKind) → kind_eq a a ≡ true
kind_eq_refl a = ground arith

contradicts_sound : (a b : DesktopKind) → contradicts (some a) b ≡ false → a ≡ b
contradicts_sound a b h = ground arith

known-injective : {a b : DesktopKind} → known a ≡ known b → a ≡ b
known-injective h = cc

-- From what was detected so far.
detect_tokens-agree :
    (seen kind : DesktopKind) (tokens : List Text)
    → detect_tokens (some seen) tokens ≡ known kind
    → (seen ≡ kind) × AllName kind tokens
unfolding detect_tokens
detect_tokens-agree seen kind [] h = (known-injective h, λ token m. elim m [ ])
detect_tokens-agree seen kind (t ∷ ts) h = elim (Option-cases (desktop_kind (trim t))) [
  | inl e ↦ absurd (ground (arith, rw (e, detect_tokens) at h))
  | inr (k, e) ↦ elim (Bool-cases (contradicts (some seen) k)) [
    | inl f ↦ absurd (ground (arith, rw (e, f, detect_tokens) at h))
    | inr f ↦
        let (p, all_name) = detect_tokens-agree k kind ts (rw (e, f, detect_tokens) at h) in
        (
          contradicts_sound seen k f ∙ p,
          λ token m. elim m [
            | Memᴰ.head q ↦ rw (q, e) (ap some p)
            | Memᴰ.tail n ↦ all_name token n
          ],
        )
  ]
]

detect_tokens-known :
    (seen kind : DesktopKind) (tokens : List Text)
    → contradicts (some seen) kind ≡ false
    → AllName kind tokens
    → detect_tokens (some seen) tokens ≡ known kind
unfolding detect_tokens
detect_tokens-known seen kind [] c all_name = ap known (contradicts_sound seen kind c)
detect_tokens-known seen kind (t ∷ ts) c all_name =
    rw (detect_tokens, all_name t (Memᴰ.head refl), c)
      (detect_tokens-known kind kind ts (ground (arith, kind_eq_refl kind))
        (λ token m. all_name token (Memᴰ.tail m)))

-- A list of at least one name is known as a desktop exactly when every name, trimmed, is one of
-- that desktop's; one unknown or other name makes the list invalid.
pub detect_tokens-AllName :
    (kind : DesktopKind) (token : Text) (tokens : List Text)
    → (detect_tokens none (token ∷ tokens) ≡ known kind) ↔ AllName kind (token ∷ tokens)
unfolding detect_tokens
detect_tokens-AllName kind token tokens = (
  λ h. elim (Option-cases (desktop_kind (trim token))) [
    | inl e ↦ absurd (ground (arith, rw (e, detect_tokens) at h))
    | inr (k, e) ↦
        let (p, all_name) = detect_tokens-agree k kind tokens (rw (e, detect_tokens) at h) in
        λ other m. elim m [ Memᴰ.head q ↦ rw (q, e) (ap some p) | Memᴰ.tail n ↦ all_name other n ]
  ],
  λ all_name.
      rw (detect_tokens, all_name token (Memᴰ.head refl))
        (detect_tokens-known kind kind tokens (ground (arith, kind_eq_refl kind))
          (λ other m. all_name other (Memᴰ.tail m))),
)
