-- ===== src/Worker/Copy.antt =====
-- `delete_file` and `synchronize_files` (src/worker_process.c). `malloc` is taken to succeed.
pub mod Faithful
use file_sync_system.Common.{
  ℕ, zero, suc, Bool, true, false, Option, none, some, [], ◌∷◌, ◌++◌, ltb, length,
}
use file_sync_system.Common.Text.{Text, codes}
use file_sync_system.Worker.Files.{FileSystem, Bytes, failed, bytes}

-- A path in a directory.
abbrev pub path : Text → Text → Text
path dir filename = dir ++ (codes "/" ++ filename)

abbrev pub max_bytes_read : ℕ
max_bytes_read = 1024

pub data Done {ℓ} (A : Type ℓ) : Type ℓ where
  returned : A → Done A
  out_of_fuel : Done A

infixl 5 ◌>>=◌
abbrev pub ◌>>=◌ {ℓ κ} : {A : Type ℓ} {B : Type κ} → Done A → (A → Done B) → Done B
returned a >>= f = f a
out_of_fuel >>= f = out_of_fuel

module _ (fs : FileSystem) where
  -- Whether the function returns 0.
  unfoldable pub delete_file : (target_dir filename : Text) → fs.State → Bool × fs.State
  delete_file target_dir filename s = fs.unlink (path target_dir filename) s

  abbrev pub close_both : (fd_source fd_target : ℕ) → fs.State → fs.State
  close_both fd_source fd_target s = fs.close fd_target (fs.close fd_source s)

  -- `write(…) < n`
  abbrev pub short : Option ℕ → Text → Bool
  short none buff = true
  short (some n) buff = ltb n (length buff)

  -- The loop that copies, and the end of the function.
  unfoldable pub copy_loop : ℕ → (fd_source fd_target : ℕ) → fs.State → Done (Bool × fs.State)
  copy_loop zero fd_source fd_target s = out_of_fuel
  copy_loop (suc fuel) fd_source fd_target s =
      let (n, s') = fs.read fd_source max_bytes_read s in
      elim n [
        | failed ↦ returned (false, close_both fd_source fd_target s')
        | bytes buff ↦ elim buff [
          | [] ↦ returned (true, close_both fd_source fd_target s')
          | c ∷ more ↦
              let (w, s'') = fs.write fd_target (c ∷ more) s' in
              elim (short w (c ∷ more)) [
                | true ↦ returned (false, close_both fd_source fd_target s'')
                | false ↦ copy_loop fuel fd_source fd_target s''
              ]
        ]
      ]

  -- The loop, if both files could be opened. Neither is closed if only one could.
  unfoldable pub copy_opened : ℕ → Option ℕ → Option ℕ → fs.State → Done (Bool × fs.State)
  copy_opened fuel none fd_target s = returned (false, s)
  copy_opened fuel (some fd_source) none s = returned (false, s)
  copy_opened fuel (some fd_source) (some fd_target) s = copy_loop fuel fd_source fd_target s

  -- Whether the function returns 0. Both files are opened before either result is looked at.
  unfoldable pub synchronize_files :
      ℕ → (source_dir target_dir filename : Text) → fs.State → Done (Bool × fs.State)
  synchronize_files fuel source_dir target_dir filename s =
      let (fd_source, s₁) = fs.open_read (path source_dir filename) s in
      let (fd_target, s₂) = fs.open_write (path target_dir filename) s₁ in
      copy_opened fuel fd_source fd_target s₂
