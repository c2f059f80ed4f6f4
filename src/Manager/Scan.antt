-- ===== src/Manager/Scan.antt =====
-- `is_substring` and `is_full_command` (src/fss_manager.c): the scans that tell the manager that a
-- worker's report or a console's command has arrived whole.
pub mod Match
use file_sync_system.Common.{Bool, true, false, [], ◌∷◌, ◌==◌}
use file_sync_system.Common.Text.{Text}

-- The loop of `is_substring`. `left` is the text `sub + j`; behind the last byte of `sub` stands
-- its NUL, which equals no byte of `str`.
substring_loop : Text → Text → Text → Bool
substring_loop sub [] left = false
substring_loop sub (c ∷ str) [] = substring_loop sub str sub
substring_loop sub (c ∷ str) (d ∷ []) = elim (c == d) [
  | true ↦ true
  | false ↦ substring_loop sub str sub
]
substring_loop sub (c ∷ str) (d ∷ e ∷ left) = elim (c == d) [
  | true ↦ substring_loop sub str (e ∷ left)
  | false ↦ substring_loop sub str sub
]

unfoldable pub is_substring : Text → Text → Bool
unfolding substring_loop
is_substring str sub = substring_loop sub str sub

unfoldable pub is_full_command : Text → Bool
is_full_command [] = false
is_full_command (c ∷ buffer) =
    let rest = is_full_command buffer in elim (c == b'\n') [ true ↦ true | false ↦ rest ]
