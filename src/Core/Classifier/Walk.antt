-- ===== src/Core/Classifier/Walk.antt =====
-- The classification as a plain reading of the chain of ancestors.
use mathlib.Core.List.{append-nil}
use player_vox_over_crow.Common.{
  ℕ, zero, suc, ◌≤◌, ◌≡◌, refl, ◌∙◌, true, false, ◌||◌, Option, none, some, List, [], ◌∷◌, ◌++◌,
  any, any-append, arith, Bool-cases, Option-cases, inl, inr, get, ◌==◌, length,
}
use player_vox_over_crow.Common.Text.{FilePath, path_eq}
use player_vox_over_crow.Config.Allowlist.{ProcessIdentity}
use player_vox_over_crow.Core.Classifier.{
  ProcessInfo, ProcessTable, max_ancestors, steam_app_id, looks_game_related, first_seen, visit,
  classify_loop, or_next,
}

-- The process and its ancestors, nearest first, until a pid repeats or is unknown.
unfoldable pub ancestors : ℕ → List ℕ → ℕ → ProcessTable → List ProcessInfo
ancestors zero seen pid table = []
ancestors (suc fuel) seen pid table = elim (any (λ k. k == pid) seen) [
  | true ↦ []
  | false ↦ elim (get pid table) [
    | none ↦ []
    | some p ↦ p ∷ ancestors fuel (pid ∷ seen) p.parent_pid table
  ]
]

abbrev pub chain_of : ℕ → ProcessTable → List ProcessInfo
chain_of pid table = ancestors max_ancestors [] pid table

unfoldable pub visit_all : List ProcessInfo → ProcessIdentity → ProcessIdentity
visit_all [] i = i
visit_all (p ∷ ps) i = visit_all ps (visit p i)

pub classify_loop-visit_all :
    (fuel : ℕ) (seen : List ℕ) (pid : ℕ) (table : ProcessTable) (i : ProcessIdentity)
    → classify_loop fuel seen pid table i ≡ visit_all (ancestors fuel seen pid table) i
unfolding classify_loop ancestors visit_all
classify_loop-visit_all zero seen pid table i = refl
classify_loop-visit_all (suc fuel) seen pid table i = elim (Bool-cases (any (λ k. k == pid) seen)) [
  | inl e ↦ rw (e, classify_loop, ancestors) refl
  | inr e ↦ elim (Option-cases (get pid table)) [
    | inl f ↦ rw (e, f, classify_loop, ancestors) refl
    | inr (p, f) ↦
        rw (e, f, classify_loop, ancestors)
          (classify_loop-visit_all fuel (pid ∷ seen) p.parent_pid table (visit p i))
  ]
]

pub length-ancestors :
    (fuel : ℕ) (seen : List ℕ) (pid : ℕ) (table : ProcessTable)
    → length (ancestors fuel seen pid table) ≤ fuel
unfolding ancestors
length-ancestors zero seen pid table = omega arith
length-ancestors (suc fuel) seen pid table = elim (Bool-cases (any (λ k. k == pid) seen)) [
  | inl e ↦ rw (e, ancestors) (omega arith)
  | inr e ↦ elim (Option-cases (get pid table)) [
    | inl f ↦ rw (e, f, ancestors) (omega arith)
    | inr (p, f) ↦
        rw (e, f, ancestors) (omega (arith, length-ancestors fuel (pid ∷ seen) p.parent_pid table))
  ]
]

-- The id of the nearest process that has one.
unfoldable pub nearest_id : List ProcessInfo → Option ℕ
nearest_id [] = none
nearest_id (p ∷ ps) = or_next (steam_app_id p) (nearest_id ps)

pub visit_all-id :
    (ps : List ProcessInfo) (i : ProcessIdentity)
    → (visit_all ps i).steam_app_id ≡ or_next i.steam_app_id (nearest_id ps)
unfolding visit_all nearest_id visit
visit_all-id [] i = ground arith
visit_all-id (p ∷ ps) i = visit_all-id ps (visit p i) ∙ ground arith

pub visit_all-candidate :
    (ps : List ProcessInfo) (i : ProcessIdentity)
    → (visit_all ps i).game_candidate ≡ (i.game_candidate || any looks_game_related ps)
unfolding visit_all visit
visit_all-candidate [] i = ground arith
visit_all-candidate (p ∷ ps) i = visit_all-candidate ps (visit p i) ∙ ground arith

-- No path of the chain equals an earlier one.
abbrev pub Distinct : List FilePath → Type 0
Distinct [] = Unit {0}
Distinct (e ∷ es) = (any (λ d. path_eq d e) es ≡ false) × Distinct es

Distinct-snoc :
    (es : List FilePath) (e : FilePath)
    → any (path_eq e) es ≡ false
    → Distinct es
    → Distinct (es ++ e ∷ [])
Distinct-snoc [] e h d = (refl, tt)
Distinct-snoc (x ∷ es) e h d = (
  any-append (λ y. path_eq y x) es (e ∷ []) ∙ ground (arith, d.0, h),
  Distinct-snoc es e (ground (arith, h)) d.1,
)

Distinct-first_seen :
    (es : List FilePath) (o : Option FilePath) → Distinct es → Distinct (es ++ first_seen es o)
Distinct-first_seen es none d = rw append-nil d
Distinct-first_seen es (some e) d = elim (Bool-cases (any (path_eq e) es)) [
  | inl h ↦ rw h (rw append-nil d)
  | inr h ↦ rw h (Distinct-snoc es e h d)
]

pub visit_all-Distinct :
    (ps : List ProcessInfo) (i : ProcessIdentity)
    → Distinct i.executable_chain
    → Distinct (visit_all ps i).executable_chain
unfolding visit_all visit
visit_all-Distinct [] i d = d
visit_all-Distinct (p ∷ ps) i d =
    visit_all-Distinct ps (visit p i) (Distinct-first_seen i.executable_chain p.executable d)
