-- ===== src/Overlay/Latest/Delivery.antt =====
-- No value is lost or given twice, in whatever order the threads take their steps.
use player_vox_over_crow.Common.{
  ℕ, ◌+◌, ◌≤◌, ◌<◌, ◌≡◌, refl, ap, ltb, Bool, true, false, not, ◌&&◌, ◌||◌, none, some, List, [],
  ◌∷◌, inl, inr, Bool-cases, arith, if◌then◌else◌,
}
use player_vox_over_crow.Overlay.Latest.{
  VersionedValue, Channel, set_value, notify_receiver, try_recv, take_locked, take_latest,
  current_value, Reaches, start, set, notify, receive, take, take_nothing,
}

-- The last revision that was given, 0 before the first.
abbrev pub last_seen : List ℕ → ℕ
last_seen [] = 0
last_seen (r ∷ seen) = r

abbrev pub descending : List ℕ → Bool
descending [] = true
descending (r ∷ seen) = ltb (last_seen seen) r && descending seen

module _ {ℓ} {T : Type ℓ} where
  -- A value that was not given is waited for: there is a token, or a thread is on its way.
  abbrev pub is_awaited : Channel T → Bool
  is_awaited c = not c.pending || (c.token || (ltb 0 c.notifying || c.receiving))

  abbrev Sound : Channel T → List ℕ → Type 0
  Sound c seen =
      (is_awaited c ≡ true)
      × (c.connected ≡ true)
      × (last_seen seen + (if c.pending then 1 else 0) ≤ c.revision)
      × (descending seen ≡ true)

  take_locked-Sound :
      (c : Channel T) (seen : List ℕ) (v : VersionedValue T)
      → (take_locked c).1 ≡ some v
      → Sound c seen
      → Sound (take_locked c).0 (v.revision ∷ seen)
  unfolding take_locked current_value
  take_locked-Sound c seen v h s = elim (Bool-cases c.pending) [
    | inl e ↦
        let found : some (current_value c) ≡ some v = rw (take_locked, e) at h in
        let same : current_value c ≡ v = cc in
        let revision : c.revision ≡ v.revision = ap (λ w. w.revision) same in
        let bound : last_seen seen + 1 ≤ c.revision = rw e at s.2 in
        (
          rw (take_locked, e) refl,
          rw (take_locked, e) s.1,
          rw (take_locked, e) (omega (arith, revision)),
          ground (arith, revision, bound, s.3),
        )
    | inr e ↦ let k = rw (take_locked, e) at h in cc
  ]

  Reaches-Sound :
      (initial : T) (c : Channel T) (seen : List ℕ) → Reaches initial c seen → Sound c seen
  unfolding set_value notify_receiver try_recv take_locked
  Reaches-Sound initial _ _ start = (refl, refl, omega arith, refl)
  Reaches-Sound initial _ seen (set {c} value le r) =
      let s = Reaches-Sound initial c seen r in ground (arith, s)
  Reaches-Sound initial _ seen (notify {c} others e r) =
      let s = Reaches-Sound initial c seen r in ground (arith, s)
  Reaches-Sound initial _ seen (receive {c} idle r) =
      let s = Reaches-Sound initial c seen r in ground (arith, s)
  Reaches-Sound initial _ _ (take {c} {seen} v busy found r) =
      take_locked-Sound c seen v found (Reaches-Sound initial c seen r)
  Reaches-Sound initial _ seen (take_nothing {c} busy nothing r) =
      let s = Reaches-Sound initial c seen r in ground (arith, s, nothing)

  -- In every interleaving of publishers with the receiver's steps, a value that was not given yet is
  -- awaited: its token is there or about to be sent, or the receiver is about to look; and the
  -- revisions that were given are strictly increasing.
  pub Reaches-awaited :
      (initial : T) (c : Channel T) (seen : List ℕ)
      → Reaches initial c seen
      → (is_awaited c ≡ true) × (descending seen ≡ true)
  Reaches-awaited initial c seen r = let s = Reaches-Sound initial c seen r in (s.0, s.3)

  -- When no thread is within its steps, a value that was not given is given whole by the next call,
  -- under a later revision than those given before, and a call after it gives nothing.
  pub take_latest-delivers :
      (initial : T) (c : Channel T) (seen : List ℕ)
      → Reaches initial c seen
      → c.notifying ≡ 0
      → c.receiving ≡ false
      → c.pending ≡ true
      → ((take_latest c).1 ≡ some (current_value c))
        × (last_seen seen < c.revision)
        × ((take_latest (take_latest c).0).1 ≡ none)
  unfolding take_latest try_recv take_locked
  take_latest-delivers initial c seen r quiet idle waiting =
      let s = Reaches-Sound initial c seen r in
      let token : c.token ≡ true = ground (arith, s.0, quiet, idle, waiting) in
      let bound : last_seen seen + 1 ≤ c.revision = rw waiting at s.2 in
      (rw (token, waiting), omega (arith, bound), rw (token, waiting))
