-- ===== src/Dmx/Tests.antt =====
-- Runs of the mailbox at concrete inputs.
use esp_glow.Prelude.{◌≡◌, none, some, [], ◌∷◌}
use esp_glow.Dmx.{initial, take_if_dirty}
use esp_glow.Dmx.Latest.{clamped, write_all, take_if_dirty-newest}

take_if_dirty-newest_example :
    ((take_if_dirty (write_all ((1 ∷ 2 ∷ []) ∷ (3 ∷ []) ∷ []) initial)).0 ≡ some (clamped (3 ∷ [])))
    × ((take_if_dirty (take_if_dirty (write_all ((1 ∷ 2 ∷ []) ∷ (3 ∷ []) ∷ []) initial)).1).0
        ≡ none)
take_if_dirty-newest_example = take_if_dirty-newest (1 ∷ 2 ∷ []) ((3 ∷ []) ∷ []) initial
