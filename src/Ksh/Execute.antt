-- ===== src/Ksh/Execute.antt =====
-- `execute` of src/impl/kernel/main.c. `fresh` gives the address of a new node, `holds` what `memtest`
-- finds of a page's memory, and `depth` is the fuel for the calls behind `sudo`.
use Prim.Native.String.{String}
use keyhole_os.Prelude.{
  ◌^◌, ℕ, zero, suc, ◌+◌, ◌*◌, ◌%◌, ◌==◌, Bool, true, false, ◌&&◌, not, Option, none, some, leb,
  ltb, if◌then◌else◌, List, [], ◌∷◌, ◌++◌, length, bytes,
}
use keyhole_os.Console
use keyhole_os.Keyboard.{history_size}
use keyhole_os.Vfs.{Vfs, same_text, ◌>>=◌}
use keyhole_os.Vfs.Calls.{vfs_write}
use keyhole_os.Ksh.{
  Kernel, Outcome, returned, stopped, tokens, Redirect, find_redirect, join, is_empty,
}
use keyhole_os.Ksh.Print.{say, say_of, on_screen}
use keyhole_os.Ksh.Files.{
  cmd_echo, cmd_cd, cmd_rm, cmd_cat, cmd_mkdir, cmd_touch, cmd_rmdir, cmd_mv, cmd_cp,
}
use keyhole_os.Ksh.Listing.{cmd_ls}
use keyhole_os.Ksh.System.{
  pit_freq, cmd_help, cmd_color, cmd_panic, cmd_pwd, cmd_history, cmd_hostname, cmd_uptime,
  cmd_date, say_pages, cmd_memmap, cmd_memtest, cmd_neofetch,
}

-- the end of the time that `sudo` gave
unfoldable pub expire_sudo : Kernel → Kernel
expire_sudo k =
    if ltb 0 k.sudo_expires && ltb k.sudo_expires k.ticks
    then record k { vfs = record k.vfs { sudo_mode = false }; sudo_expires = 0 }
    else k

-- a text and its zero in a line of `history`
abbrev write_line : (line : ℕ) → List ℕ → (ℕ → ℕ → ℕ) → ℕ → ℕ → ℕ
write_line line text lines l i = if l == line && leb i (length text) then at text i else lines l i
  where
    at : List ℕ → ℕ → ℕ
    at [] i = 0
    at (c ∷ cs) zero = c
    at (c ∷ cs) (suc i) = at cs i

-- The next line of `history`, and the end of the history's file. The entry has a buffer of 256 bytes.
unfoldable pub record_history : ℕ → (fresh : Vfs → ℕ) → (input : List ℕ) → Kernel → Option Kernel
record_history f fresh input k =
    let count = k.past.history_count + 1 in
    let lines = write_line (k.past.history_count % history_size) input k.past.history in
    let entry = input ++ (10 ∷ []) in
    let write : Option Kernel =
      vfs_write f k.vfs (fresh k.vfs) (bytes "/home/root/.ksh_history") entry true
      >>= λ (result, v). some (record k {
        past = record k.past { history = lines; history_count = count; history_pos = count };
        vfs = v;
      }) in
    if leb 256 (length entry) then none else write

-- the commands that are not `sudo`, and name the rest of the line
module _ (f : ℕ) (fresh : Vfs → ℕ) (holds : ℕ → Bool) where
  abbrev finish : Option Kernel → Option Outcome
  finish o = o >>= λ k. some (returned k)

  -- what the command named `name` does
  unfoldable pub run_command :
      (name : List ℕ)
      → Redirect
      → (args : List (List ℕ)) → (input : List ℕ) → Kernel
      → Option Outcome
  run_command name redirect args input k =
      let is = λ (text : String). same_text name (bytes text) in
      if is "clear"
      then some (returned (on_screen Console.print_clear k))
      else if is "echo"
      then finish (cmd_echo f fresh redirect args k)
      else if is "help"
      then some (returned (cmd_help k))
      else if is "uname"
      then some (returned (say "KeyholeOS V0.1.1:beta\n" k))
      else if is "reboot"
      then some (stopped k)
      else if is "panic"
      then some (stopped (cmd_panic k))
      else if is "color"
      then some (returned (cmd_color args k))
      else if is "pwd"
      then finish (cmd_pwd f k)
      else if is "cd"
      then finish (cmd_cd f fresh args k)
      else if is "rm"
      then finish (cmd_rm f fresh args k)
      else if is "cat"
      then finish (cmd_cat f fresh args k)
      else if is "ls"
      then finish (cmd_ls f args k)
      else if is "mkdir"
      then finish (cmd_mkdir f fresh args k)
      else if is "touch"
      then finish (cmd_touch f fresh args k)
      else if is "history"
      then finish (cmd_history f k)
      else if is "uptime"
      then some (returned (cmd_uptime k))
      else if is "rmdir"
      then finish (cmd_rmdir f fresh args k)
      else if is "mv"
      then finish (cmd_mv f fresh args k)
      else if is "cp"
      then finish (cmd_cp f fresh args k)
      else if is "whoami"
      then some (returned (say "root\n" k))
      else if is "hostname"
      then finish (cmd_hostname f k)
      else if is "free"
      then some (returned (say_pages k))
      else if is "memtest"
      then some (returned (cmd_memtest holds k))
      else if is "memmap"
      then some (returned (cmd_memmap k))
      else if is "date"
      then some (returned (cmd_date k))
      else if is "neofetch"
      then some (returned (cmd_neofetch k))
      else some (returned (say_of "Unknown command: " input k))

  -- The state in which the line's command runs: `super_sudo_mode` reset, an old `sudo` ended, the line in
  -- the history.
  unfoldable pub prepare : (input : List ℕ) → Kernel → Option Kernel
  unfolding expire_sudo
  prepare input k =
      let k' = expire_sudo (record k { super_sudo_mode = false }) in
      let recorded = record_history f fresh input k' in
      if not (is_empty input) && not k'.vfs.sudo_mode then recorded else some k'

  -- A line of no word has no `tokens[0]` to read. The words behind a redirection are not arguments, and
  -- the first word is the command's name also where it is `>`.
  unfoldable pub execute : (depth : ℕ) → (input : List ℕ) → Kernel → Option Outcome
  unfolding prepare
  execute zero input k = none
  execute (suc depth) input k = prepare input k >>= λ k'. elim (tokens input) [
    | [] ↦ none
    | name ∷ words ↦
        let (redirect, before) = find_redirect (name ∷ words) in
        let args : List (List ℕ) = elim before [ [] ↦ [] | first ∷ rest ↦ rest ] in
        let sudo_input = join args in
        let as_sudo = record k' {
          vfs = record k'.vfs { sudo_mode = true };
          sudo_expires = (k'.ticks + pit_freq * 60) % 2 ^ 64;
        } in
        let inner = execute depth sudo_input as_sudo in
        let sudo : Option Outcome =
          if leb 2 (length before)
          then (if leb 256 (length sudo_input) then none else inner)
          else some (returned (say "sudo: missing command\n" k')) in
        if same_text name (bytes "sudo") then sudo else run_command name redirect args input k'
  ]
