-- ===== src/Ksh/Depth.antt =====
-- The fuel of `execute` for the calls behind `sudo`.
use keyhole_os.Prelude.{
  leb, ℕ, Bool, Option, none, some, if◌then◌else◌, List, [], ◌∷◌, length, bytes,
}
use keyhole_os.Vfs.{Vfs, same_text}
use keyhole_os.Ksh.{Kernel, Outcome, returned, find_redirect, join}
use keyhole_os.Ksh.Print.{say}
use keyhole_os.Ksh.Sudo.{as_sudo}
use keyhole_os.Ksh.Execute.{run_command}

-- the words behind the first
abbrev behind : List (List ℕ) → List (List ℕ)
behind before = elim before [ [] ↦ [] | first ∷ rest ↦ rest ]

module _ (f : ℕ) (fresh : Vfs → ℕ) (holds : ℕ → Bool) where
  -- `execute` behind the history, with `inner` for the call of `sudo`
  abbrev step :
      (inner : List ℕ → Kernel → Option Outcome)
      → (input : List ℕ) → (ts : List (List ℕ)) → Kernel
      → Option Outcome
  step inner input ts k = elim ts [
    | [] ↦ none
    | name ∷ words ↦
        let (redirect, before) = find_redirect (name ∷ words) in
        let args = behind before in
        let sudo : Option Outcome =
          if leb 2 (length before)
          then (if leb 256 (length (join args)) then none else inner (join args) (as_sudo k))
          else some (returned (say "sudo: missing command\n" k)) in
        if same_text name (bytes "sudo")
        then sudo
        else run_command f fresh holds name redirect args input k
  ]
