-- ===== src/Examples/Overlay.antt =====
-- The overlay's theorems for a channel of numbers on which 7 was published.
use player_vox_over_crow.Common.{ℕ, ◌≡◌, ◌<◌, refl, true, none, some, [], arith}
use player_vox_over_crow.Overlay.Latest.{
  Channel, latest_channel, set_value, notify_receiver, take_latest, current_value, Reaches, start,
  set, notify,
}
use player_vox_over_crow.Overlay.Latest.Delivery.{
  last_seen, descending, is_awaited, Reaches-awaited, take_latest-delivers,
}

abbrev one_set : Channel ℕ
one_set = record (latest_channel 3) { current = 7; revision = 1; pending = true; notifying = 1 }

abbrev published : Channel ℕ
published = record one_set { token = true; notifying = 0 }

reached_set : Reaches 3 one_set []
unfolding player_vox_over_crow.Overlay.Latest.set_value
reached_set = set 7 (omega arith) start

reached_published : Reaches 3 published []
unfolding player_vox_over_crow.Overlay.Latest.notify_receiver
reached_published = notify 0 refl reached_set

Reaches-awaited_example : (is_awaited one_set ≡ true) × (descending [] ≡ true)
Reaches-awaited_example = Reaches-awaited 3 one_set [] reached_set

take_latest-delivers_example :
    ((take_latest published).1 ≡ some (current_value published))
    × (last_seen [] < published.revision)
    × ((take_latest (take_latest published).0).1 ≡ none)
take_latest-delivers_example = take_latest-delivers 3 published [] reached_published refl refl refl
