-- ===== src/Sessions/Ids.antt =====
-- The ids of the pinned sessions of src/server.rs, and what a touch of a session leaves.
use postgres_mcp.Prelude.{
  ℕ, ◌^◌, ◌<◌, ◌≡◌, refl, ap, Option, none, some, [], ◌∷◌, Text, hex_padded-injective,
}
use postgres_mcp.Sessions.{PinnedSessionEntry, session_id_of, touch}

pub session-touch :
    (now : ℕ) (keyword : Option Text) (e : PinnedSessionEntry)
    → (touch now keyword e).session ≡ e.session
unfolding touch
session-touch now none e = refl
session-touch now (some keyword) e = refl

-- The id was given out before the next one.
abbrev pub IsGiven : ℕ → Text → Type 0
IsGiven next_id k = (i : ℕ) × (k ≡ session_id_of i) × (i < next_id)

pub session_id_of-injective :
    (i j : ℕ) → i < 2 ^ 64 → j < 2 ^ 64 → session_id_of i ≡ session_id_of j → i ≡ j
unfolding session_id_of
session_id_of-injective i j h k e = hex_padded-injective 16 i j h k (ap drop3 e)
  where
    drop3 : Text → Text
    drop3 (a ∷ b ∷ c ∷ s) = s
    drop3 s = []
