-- ===== src/Manager/Command/Words.antt =====
-- The words of a line that `strtok` takes apart (src/fss_manager.c).
use file_sync_system.Common.{◌≡◌, ◌≢◌, refl, some, [], ◌∷◌, ◌++◌}
use file_sync_system.Common.Text.{Text, Free, strtok, strtok-token}
use file_sync_system.Manager.Command.{delims}

-- A word as `scanf("%s")` gives it: not empty, and without blank and newline.
pub record IsWord (s : Text) : Type 0 where
  pub nonempty : s ≢ []
  pub free : Free delims s

pub strtok-word : (s rest : Text) → IsWord s → strtok delims (s ++ b' ' ∷ rest) ≡ (some s, rest)
strtok-word [] rest w = absurd (w.nonempty refl)
strtok-word (c ∷ s) rest w = strtok-token delims c s b' ' rest w.free refl

pub strtok-last : (s : Text) → IsWord s → strtok delims (s ++ b'\n' ∷ []) ≡ (some s, [])
strtok-last [] w = absurd (w.nonempty refl)
strtok-last (c ∷ s) w = strtok-token delims c s b'\n' [] w.free refl
