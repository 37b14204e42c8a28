-- ===== src/Overlay/Latest.antt =====
-- crates/overcrow-overlay/src/runtime/latest.rs: a channel that keeps the latest value only. The
-- lock and the wake-up token are two steps, so that the threads' steps interleave.
pub mod Delivery
use player_vox_over_crow.Common.{
  ℕ, suc, ◌+◌, ◌<◌, ◌≡◌, Bool, true, false, Option, none, some, List, [], ◌∷◌, if◌then◌else◌,
}
use player_vox_over_crow.Common.Time.{u64_max}

pub record VersionedValue {ℓ} (T : Type ℓ) : Type ℓ where
  pub revision : ℕ  -- u64
  pub value : T

-- The shared state, the token of the channel, and where the threads are: publishers that have set a
-- value and not yet sent the token, and a receiver that took the token and has not looked yet.
pub record Channel {ℓ} (T : Type ℓ) : Type ℓ where
  pub current : T
  pub revision : ℕ  -- u64
  pub pending : Bool
  pub token : Bool  -- the channel holds at most one
  pub notifying : ℕ
  pub receiving : Bool
  pub connected : Bool

module _ {ℓ} {T : Type ℓ} where
  abbrev pub latest_channel : T → Channel T
  latest_channel initial = record {
    current = initial;
    revision = 0;
    pending = false;
    token = false;
    notifying = 0;
    receiving = false;
    connected = true;
  }

  -- The locked part of `publish` and `update`. The code panics when the revision is at its end.
  unfoldable pub set_value : Channel T → T → Channel T
  set_value c value = record c {
    current = value;
    revision = c.revision + 1;
    pending = true;
    notifying = c.notifying + 1;
  }

  unfoldable pub update_value : Channel T → (T → T) → Channel T
  unfolding set_value
  update_value c f = set_value c (f c.current)

  -- `notify_receiver`, of which a full channel is a success.
  unfoldable pub notify_receiver : Channel T → ℕ → Channel T × Bool
  notify_receiver c others =
      if c.connected
      then (record c { token = true; notifying = others }, true)
      else (record c { notifying = others }, false)

  unfoldable pub current_value : Channel T → VersionedValue T
  current_value c = record { revision = c.revision; value = c.current }

  -- The two halves of `take_latest`.
  unfoldable pub try_recv : Channel T → Channel T × Bool
  try_recv c = if c.token then (record c { token = false; receiving = true }, true) else (c, false)

  unfoldable pub take_locked : Channel T → Channel T × Option (VersionedValue T)
  unfolding current_value
  take_locked c =
      if c.pending
      then (record c { pending = false; receiving = false }, some (current_value c))
      else (record c { receiving = false }, none)

  unfoldable pub take_latest : Channel T → Channel T × Option (VersionedValue T)
  unfolding try_recv take_locked
  take_latest c =
      let (received, found) = try_recv c in if found then take_locked received else (received, none)

  -- `publish` of a thread that is not interrupted.
  unfoldable pub publish : Channel T → T → Channel T × Bool
  unfolding set_value notify_receiver
  publish c value = notify_receiver (set_value c value) c.notifying

  -- The states that the steps of any number of publishers and one receiver reach, with the revisions
  -- that the receiver was given, the last one first.
  pub data Reaches (initial : T) : Channel T → List ℕ → Type ℓ where
    start : Reaches initial (latest_channel initial) []
    set :
        {c : Channel T} {seen : List ℕ} (value : T)
        → c.revision < u64_max
        → Reaches initial c seen
        → Reaches initial (set_value c value) seen
    notify :
        {c : Channel T} {seen : List ℕ} (others : ℕ)
        → c.notifying ≡ suc others
        → Reaches initial c seen
        → Reaches initial (notify_receiver c others).0 seen
    receive :
        {c : Channel T} {seen : List ℕ}
        → c.receiving ≡ false
        → Reaches initial c seen
        → Reaches initial (try_recv c).0 seen
    take :
        {c : Channel T} {seen : List ℕ} (v : VersionedValue T)
        → c.receiving ≡ true
        → (take_locked c).1 ≡ some v
        → Reaches initial c seen
        → Reaches initial (take_locked c).0 (v.revision ∷ seen)
    take_nothing :
        {c : Channel T} {seen : List ℕ}
        → c.receiving ≡ true
        → (take_locked c).1 ≡ none
        → Reaches initial c seen
        → Reaches initial (take_locked c).0 seen
