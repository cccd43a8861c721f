-- ===== src/Ksh/Files.antt =====
-- The commands of `execute` that work on files. `args` are the tokens behind the command's name, up to a
-- redirection.
use keyhole_os.Prelude.{
  ℕ, ◌==◌, Bool, true, false, ◌||◌, Option, none, some, leb, if◌then◌else◌, List, [], ◌∷◌, length,
  bytes,
}
use keyhole_os.Prelude.Int.{ℤ}
use keyhole_os.Vfs.{Vfs, same_text, ◌>>=◌}
use keyhole_os.Vfs.Calls.{vfs_mkdir, vfs_touch, vfs_cd, vfs_cat, vfs_rm, vfs_rmdir, vfs_write}
use keyhole_os.Vfs.Remove.{vfs_rm_r}
use keyhole_os.Vfs.Move.{vfs_mv, vfs_cp, vfs_cp_r}
use keyhole_os.Ksh.{Kernel, Redirect, nowhere, append_to, overwrite, join}
use keyhole_os.Ksh.Print.{print_str, print_char, say, say_of, say_about, is_minus}

-- what is said of a result, the first that fits
abbrev Messages : Type 0
Messages = List (ℕ × (Kernel → Kernel))

abbrev report : ℤ → Messages → Kernel → Kernel
report result [] k = k
report result ((n, message) ∷ more) k =
    if is_minus n result then message k else report result more k

abbrev with_vfs : Vfs → Kernel → Kernel
with_vfs v k = record k { vfs = v }

module _ (f : ℕ) (fresh : Vfs → ℕ) where
  write_echo : (redirect_file output : List ℕ) → (append : Bool) → Kernel → Option Kernel
  write_echo redirect_file output append k =
      vfs_write f k.vfs (fresh k.vfs) redirect_file output append >>= λ (result, v). some (
        report result
          ((1, say_of "echo: no such file or directory: " redirect_file)
            ∷ (2, say_of "echo: is a directory: " redirect_file)
            ∷ (3, say_of "echo: permission denied: " redirect_file)
            ∷ [])
          (with_vfs v k))

  -- `echo`, whose output has a buffer of 512 bytes
  unfoldable pub cmd_echo : Redirect → (args : List (List ℕ)) → Kernel → Option Kernel
  unfolding write_echo
  cmd_echo redirect args k =
      let output = join args in
      let run : Option Kernel = elim redirect [
        | nowhere ↦ some (print_char 10 (print_str output k))
        | append_to file ↦ write_echo file output true k
        | overwrite file ↦ write_echo file output false k
      ] in
      if leb 512 (length output) then none else run

  unfoldable pub cmd_cd : (args : List (List ℕ)) → Kernel → Option Kernel
  cmd_cd [] k = some (say "cd takes 1 arguments (cd <path>)\n" k)
  cmd_cd (path ∷ rest) k = vfs_cd f k.vfs path >>= λ (result, v). some (
      report result
        ((1, say_of "cd: no such file or directory: " path)
          ∷ (2, say_of "cd: not a directory: " path)
          ∷ [])
        (with_vfs v k))

  -- `recursive`, `super_sudo_mode` and the last word that is no option
  unfoldable pub rm_options :
      (args : List (List ℕ))
      → (recursive super : Bool) → Option (List ℕ)
      → Bool × Bool × Option (List ℕ)
  rm_options [] recursive super path = (recursive, super, path)
  rm_options (t ∷ ts) recursive super path =
      let is_recursive = same_text t (bytes "-r") || same_text t (bytes "-rf") in
      let is_super = same_text t (bytes "--no-preserve-root") in
      rm_options ts (if is_recursive then true else recursive)
        (if is_recursive then super else if is_super then true else super)
        (if is_recursive then path else if is_super then path else some t)

  unfoldable pub cmd_rm : (args : List (List ℕ)) → Kernel → Option Kernel
  unfolding rm_options
  cmd_rm [] k = some (say "rm: missing operand\n" k)
  cmd_rm (t ∷ ts) k =
      let (recursive, super, operand) = rm_options (t ∷ ts) false k.super_sudo_mode none in
      let k' = record k { super_sudo_mode = super } in
      elim operand [
        | none ↦ some (say "rm: missing operand\n" k')
        | some path ↦
            (let all = vfs_rm_r f k'.vfs super path in
              let one = vfs_rm f k'.vfs path in if recursive then all else one)
            >>= λ (result, v). some (
                report result
                  ((1, say_of "rm: no such file or directory: " path)
                    ∷ (2, say_of "rm: is a directory (use -r): " path)
                    ∷ (3, say_of "rm: permission denied: " path)
                    ∷ (4, say_about "rm: cannot remove `" path "`: resource busy\n")
                    ∷ (
                      5,
                      say
                          "rm: it is dangerous to operate recursively on '/'\nrm: use --no-preserve-root to override this failsafe\n",
                    )
                    ∷ [])
                  (with_vfs v k'))
      ]

  unfoldable pub cmd_cat : (args : List (List ℕ)) → Kernel → Option Kernel
  cmd_cat [] k = some (say "cat takes 1 arguments (cat <path>)\n" k)
  cmd_cat (path ∷ rest) k = vfs_cat f k.vfs path >>= λ (result, out). some (
      if is_minus 1 result
      then say_about "cat: " path ": No such file or directory\n" k
      else if is_minus 2 result
      then say_about "cat: " path ": Is a directory\n" k
      else elim out [
        | some (some text) ↦ print_char 10 (print_str text k)
        | some none ↦ k
        | none ↦ k
      ])

  unfoldable pub cmd_mkdir : (args : List (List ℕ)) → Kernel → Option Kernel
  cmd_mkdir [] k = some (say "mkdir: missing operand\n" k)
  cmd_mkdir (path ∷ rest) k = vfs_mkdir f k.vfs (fresh k.vfs) path >>= λ (result, v). some (
      if result == 0
      then say_about "mkdir: cannot create directory '" path "': No such file or directory\n"
          (with_vfs v k)
      else with_vfs v k)

  unfoldable pub cmd_touch : (args : List (List ℕ)) → Kernel → Option Kernel
  cmd_touch [] k = some (say "touch: missing operand\n" k)
  cmd_touch (path ∷ rest) k = vfs_touch f k.vfs (fresh k.vfs) path >>= λ (result, v). some (
      if result == 0
      then say_about "touch: cannot touch '" path "': No such file or directory\n" (with_vfs v k)
      else with_vfs v k)

  unfoldable pub cmd_rmdir : (args : List (List ℕ)) → Kernel → Option Kernel
  cmd_rmdir [] k = some (say "rmdir: missing operand\n" k)
  cmd_rmdir (path ∷ rest) k = vfs_rmdir f k.vfs path >>= λ (result, v). some (
      report result
        ((1, say_of "rmdir: no such directory: " path)
          ∷ (2, say_of "rmdir: not a directory: " path)
          ∷ (3, say_of "rmdir: directory not empty: " path)
          ∷ (4, say_of "rmdir: permission denied: " path)
          ∷ (5, say_about "rmdir: cannot remove `" path "`: resource busy\n")
          ∷ [])
        (with_vfs v k))

  unfoldable pub cmd_mv : (args : List (List ℕ)) → Kernel → Option Kernel
  cmd_mv [] k = some (say "mv: missing operand (mv <src> <dest>)\n" k)
  cmd_mv (src ∷ []) k = some (say "mv: missing operand (mv <src> <dest>)\n" k)
  cmd_mv (src ∷ dest ∷ rest) k = vfs_mv f k.vfs src dest >>= λ (result, v). some (
      report result
        ((1, say_of "mv: no such file or directory: " src)
          ∷ (3, say_of "mv: permission denied: " src)
          ∷ (4, say_of "mv: permission denied (destination): " dest)
          ∷ [])
        (with_vfs v k))

  -- `recursive`, `src` and `dest`
  unfoldable pub cp_options :
      (args : List (List ℕ))
      → (recursive : Bool) → (src dest : Option (List ℕ)) → Bool × Option (List ℕ) × Option (List ℕ)
  cp_options [] recursive src dest = (recursive, src, dest)
  cp_options (t ∷ ts) recursive none dest =
      if same_text t (bytes "-r")
      then cp_options ts true none dest
      else cp_options ts recursive (some t) dest
  cp_options (t ∷ ts) recursive (some s) dest =
      if same_text t (bytes "-r")
      then cp_options ts true (some s) dest
      else cp_options ts recursive (some s) (some t)

  copy : (recursive : Bool) → (src dest : List ℕ) → Kernel → Option Kernel
  copy recursive src dest k =
      (let all = vfs_cp_r f fresh k.vfs src dest in
        let one = vfs_cp f fresh k.vfs src dest in if recursive then all else one)
      >>= λ (result, v). some (
          report result
            ((1, say_of "cp: no such file or directory: " src)
              ∷ (2, say_of "cp: is a directory (use -r): " src)
              ∷ (3, say_of "cp: permission denied: " dest)
              ∷ [])
            (with_vfs v k))

  unfoldable pub cmd_cp : (args : List (List ℕ)) → Kernel → Option Kernel
  unfolding cp_options copy
  cmd_cp args k =
      let missing = some (say "cp: missing operand (cp <src> <dest>)\n" k) in
      let (recursive, src, dest) = cp_options args false none none in
      let run : Option Kernel = elim src [
        | none ↦ missing
        | some s ↦ elim dest [ none ↦ missing | some d ↦ copy recursive s d k ]
      ] in
      if leb 2 (length args) then run else missing
