-- ===== src/Core/Classifier/Executables.antt =====
-- The executables of the chain of ancestors: each that is there, at its first place only.
use mathlib.Core.Path.{ap₂, fun_ext}
use mathlib.Core.List.{append-nil, append_assoc}
use player_vox_over_crow.Common.{
  ℕ, ◌≤◌, ◌≡◌, refl, sym, ap, subst, ◌∙◌, Bool, true, not, ◌&&◌, ◌||◌, Option, none, some, List, [],
  ◌∷◌, ◌++◌, any, any-append, keep, arith, Bool-cases, inl, inr, is_some, length,
}
use player_vox_over_crow.Common.Options.{filter_map}
use player_vox_over_crow.Common.Text.{FilePath, path_eq, path_eq_iff}
use player_vox_over_crow.Config.Allowlist.{ProcessIdentity, default_identity}
use player_vox_over_crow.Core.Classifier.{
  ProcessInfo, ProcessTable, max_ancestors, looks_game_related, first_seen, visit,
  classify_process_identity,
}
use player_vox_over_crow.Core.Classifier.Walk.{
  chain_of, visit_all, nearest_id, Distinct, classify_loop-visit_all, length-ancestors,
  visit_all-id, visit_all-candidate, visit_all-Distinct,
}

abbrev pub executables : List ProcessInfo → List FilePath
executables ps = filter_map (λ (p : ProcessInfo). p.executable) ps

-- Each path where it first stands, without the later ones that equal it.
unfoldable pub firsts : List FilePath → List FilePath
firsts [] = []
firsts (e ∷ es) = e ∷ keep (λ d. not (path_eq d e)) (firsts es)

-- What was not met before.
abbrev unseen : List FilePath → List FilePath → List FilePath
unseen seen es = keep (λ e. not (any (path_eq e) seen)) es

keep-keep :
    (p q : FilePath → Bool) (es : List FilePath) → keep q (keep p es) ≡ keep (λ e. p e && q e) es
keep-keep p q [] = refl
keep-keep p q (e ∷ es) = elim (Bool-cases (p e)) [
  | inl t ↦ elim (Bool-cases (q e)) [
    | inl u ↦ rw (t, u) (ap (◌∷◌ e) (keep-keep p q es))
    | inr u ↦ rw (t, u) (keep-keep p q es)
  ]
  | inr f ↦ rw f (keep-keep p q es)
]

keep_congr :
    (p q : FilePath → Bool)
    → ((e : FilePath) → p e ≡ q e)
    → (es : List FilePath) → keep p es ≡ keep q es
keep_congr p q h es = rw (fun_ext h) refl

unseen-nil : (es : List FilePath) → unseen [] es ≡ es
unseen-nil [] = refl
unseen-nil (e ∷ es) = ap (◌∷◌ e) (unseen-nil es)

path_eq_same : (a b c : FilePath) → path_eq a b ≡ true → path_eq a c ≡ path_eq b c
unfolding path_eq
path_eq_same a b c h = let (p, q) = (path_eq_iff a b).0 h in ground (arith, p, q)

any_same :
    (a b : FilePath)
    → path_eq a b ≡ true
    → (seen : List FilePath) → any (path_eq a) seen ≡ any (path_eq b) seen
any_same a b h [] = refl
any_same a b h (c ∷ seen) = ap₂ (◌||◌) (path_eq_same a b c h) (any_same a b h seen)

-- Leaving out what equals a path that was met changes nothing.
unseen-met :
    (seen : List FilePath) (e : FilePath)
    → any (path_eq e) seen ≡ true
    → (es : List FilePath) → unseen seen (keep (λ d. not (path_eq d e)) es) ≡ unseen seen es
unseen-met seen e h es =
    keep-keep (λ d. not (path_eq d e)) (λ d. not (any (path_eq d) seen)) es
    ∙ keep_congr _ _
        (λ d. elim (Bool-cases (path_eq d e)) [
          | inl t ↦ rw (t, any_same d e t seen, h) refl
          | inr f ↦ rw f refl
        ])
        es

unseen-snoc :
    (seen : List FilePath) (e : FilePath) (es : List FilePath)
    → unseen (seen ++ e ∷ []) es ≡ unseen seen (keep (λ d. not (path_eq d e)) es)
unseen-snoc seen e es =
    keep_congr _ _ (λ d. ap not (any-append (path_eq d) seen (e ∷ [])) ∙ ground arith) es
    ∙ sym (keep-keep (λ d. not (path_eq d e)) (λ d. not (any (path_eq d) seen)) es)

-- One process more.
visit-firsts :
    (seen : List FilePath) (o : Option FilePath) (ps : List ProcessInfo)
    → (seen ++ first_seen seen o) ++ unseen (seen ++ first_seen seen o) (firsts (executables ps))
      ≡ seen
        ++ unseen seen (firsts (elim o [ none ↦ executables ps | some e ↦ e ∷ executables ps ]))
unfolding firsts
visit-firsts seen none ps = rw append-nil refl
visit-firsts seen (some e) ps = elim (Bool-cases (any (path_eq e) seen)) [
  | inl h ↦
      rw (h, append-nil seen) (ap (◌++◌ seen) (sym (unseen-met seen e h (firsts (executables ps)))))
  | inr h ↦ rw (h, unseen-snoc seen e (firsts (executables ps))) (append_assoc seen (e ∷ []) _)
]

visit_all-firsts :
    (ps : List ProcessInfo) (i : ProcessIdentity)
    → (visit_all ps i).executable_chain
      ≡ i.executable_chain ++ unseen i.executable_chain (firsts (executables ps))
unfolding visit_all visit firsts
visit_all-firsts [] i = sym (append-nil i.executable_chain)
visit_all-firsts (p ∷ ps) i =
    visit_all-firsts ps (visit p i) ∙ visit-firsts i.executable_chain p.executable ps

-- The identity of a process reads off its chain of at most 64 ancestors: the Steam id is that of the
-- nearest process with one, the candidate flag says whether any of them looks like a game or the id
-- is there, and the executables are those of the chain in order, each where it first stands, so that
-- none equals an earlier one.
pub classify_process_identity-chain :
    (pid : ℕ) (table : ProcessTable)
    → let ps = chain_of pid table in
      let i = classify_process_identity pid table in
      (length ps ≤ 64)
      × (i.steam_app_id ≡ nearest_id ps)
      × (i.game_candidate ≡ (any looks_game_related ps || is_some (nearest_id ps)))
      × (i.executable_chain ≡ firsts (executables ps))
      × Distinct i.executable_chain
unfolding classify_process_identity
classify_process_identity-chain pid table =
    let ps = chain_of pid table in
    let e = classify_loop-visit_all max_ancestors [] pid table default_identity in
    let id = ap (λ i. i.steam_app_id) e ∙ visit_all-id ps default_identity in
    let candidate = ap (λ i. i.game_candidate) e ∙ visit_all-candidate ps default_identity in
    (
      length-ancestors max_ancestors [] pid table,
      id,
      ap₂ (◌||◌) candidate (ap is_some id),
      ap (λ i. i.executable_chain) e
          ∙ visit_all-firsts ps default_identity
          ∙ unseen-nil (firsts (executables ps)),
      subst (λ i. Distinct i.executable_chain) (sym e) (visit_all-Distinct ps default_identity tt),
    )
