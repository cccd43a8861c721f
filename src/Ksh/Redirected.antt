-- ===== src/Ksh/Redirected.antt =====
-- `echo` with a redirection, and `cat` of the file behind it, in `execute`.
use keyhole_os.Prelude.{
  ℕ, suc, ◌<◌, ◌≡◌, ◌≢◌, refl, sym, ap, ◌∙◌, Bool, true, false, ◌&&◌, not, Option, some, leb, ltb,
  if◌then◌else◌, List, [], ◌∷◌, ◌++◌, length, arith, bytes,
}
use keyhole_os.Prelude.Int.{pos}
use keyhole_os.Vfs.{Vfs, Node, same_text, is_directory, resolve_path, is_protected}
use keyhole_os.Vfs.Calls.{vfs_write, vfs_cat}
use keyhole_os.Vfs.Data.{SizeIs, after, after_write, vfs_cat-vfs_write}
use keyhole_os.Ksh.{
  Kernel, returned, Redirect, nowhere, append_to, overwrite, find_redirect, join, is_empty,
}
use keyhole_os.Ksh.Print.{print_str, print_char}
use keyhole_os.Ksh.Files.{cmd_echo, cmd_cat}
use keyhole_os.Ksh.Execute.{prepare, execute, run_command}
use keyhole_os.Ksh.Tokens.{AreWords, tokens-join}

-- no word that `execute` takes for a redirection
abbrev pub ArePlain : List (List ℕ) → Type 0
ArePlain [] = Unit {0}
ArePlain (w ∷ ws) =
    (same_text w (bytes ">>") ≡ false) × (same_text w (bytes ">") ≡ false) × ArePlain ws

-- the redirection and its word in the line
abbrev pub redirection : (append : Bool) → List ℕ → Redirect
redirection true path = append_to path
redirection false path = overwrite path

abbrev pub arrow : (append : Bool) → List ℕ
arrow true = bytes ">>"
arrow false = bytes ">"

pub find_redirect-plain :
    (append : Bool) (ws : List (List ℕ)) (path : List ℕ)
    → ArePlain ws
    → find_redirect (ws ++ (arrow append ∷ path ∷ [])) ≡ (redirection append path, ws)
unfolding find_redirect
find_redirect-plain true [] path h = refl
find_redirect-plain false [] path h = refl
find_redirect-plain append (w ∷ []) path h =
    rw (h.0, h.1, find_redirect-plain append [] path tt) refl
find_redirect-plain append (w ∷ u ∷ us) path h =
    rw (h.0, h.1, find_redirect-plain append (u ∷ us) path h.2) refl

AreWords-append : (us vs : List (List ℕ)) → AreWords us → AreWords vs → AreWords (us ++ vs)
AreWords-append [] vs h k = k
AreWords-append (u ∷ us) vs h k = (h.0, h.1, AreWords-append us vs h.2 k)

-- under `sudo`, which has not ended yet
pub record IsSudo (k : Kernel) : Type 0 where
  pub sudo : k.vfs.sudo_mode ≡ true
  pub running : (ltb 0 k.sudo_expires && ltb k.sudo_expires k.ticks) ≡ false
  pub no_super : k.super_sudo_mode ≡ false

not_recorded :
    (typed sudo : Bool) (recorded same : Option Kernel)
    → sudo ≡ true
    → (if typed && not sudo then recorded else same) ≡ same
not_recorded typed true recorded same h = ground arith
not_recorded typed false recorded same h = cc

module _ (f : ℕ) (fresh : Vfs → ℕ) (holds : ℕ → Bool) where
  prepare_sudo : (input : List ℕ) (k : Kernel) → IsSudo k → prepare f fresh holds input k ≡ some k
  unfolding prepare
  prepare_sudo input k h =
      let reset : record k { super_sudo_mode = false } ≡ k =
        ap (λ b. record k { super_sudo_mode = b }) (sym h.no_super) in
      rw h.running (
        not_recorded (not (is_empty input)) k.vfs.sudo_mode _
          (some (record k { super_sudo_mode = false })) h.sudo
        ∙ ap some reset)

  -- a line of words, with the redirection behind them or without
  execute_words :
      (depth : ℕ) (name : List ℕ) (words args : List (List ℕ)) (r : Redirect) (k : Kernel)
      → IsSudo k
      → AreWords (name ∷ words)
      → find_redirect (name ∷ words) ≡ (r, name ∷ args)
      → same_text name (bytes "sudo") ≡ false
      → execute f fresh holds (suc depth) (join (name ∷ words)) k
        ≡ run_command f fresh holds name r args (join (name ∷ words)) k
  unfolding execute
  execute_words depth name words args r k sudo h found other =
      rw (prepare_sudo (join (name ∷ words)) k sudo, tokens-join (name ∷ words) h, found, other)
        refl

allowed : (protected sudo : Bool) → sudo ≡ true → (protected && not sudo) ≡ false
allowed protected true h = ground arith
allowed protected false h = cc

arrow-AreWords :
    (append : Bool) (path : List ℕ) → AreWords (path ∷ []) → AreWords (arrow append ∷ path ∷ [])
arrow-AreWords true path h = (refl, omega arith, h)
arrow-AreWords false path h = (refl, omega arith, h)

echo_written :
    (f : ℕ) (fresh : Vfs → ℕ) (append : Bool) (path : List ℕ) (ws : List (List ℕ)) (k : Kernel)
    (v : Vfs)
    → length (join ws) < 512
    → vfs_write f k.vfs (fresh k.vfs) path (join ws) append ≡ some (pos 0, v)
    → cmd_echo f fresh (redirection append path) ws k ≡ some (record k { vfs = v })
unfolding cmd_echo
echo_written f fresh true path ws k v fits h =
    let room : leb 512 (length (join ws)) ≡ false = ground arith in rw (room, h) refl
echo_written f fresh false path ws k v fits h =
    let room : leb 512 (length (join ws)) ≡ false = ground arith in rw (room, h) refl

-- the state behind the `echo`
abbrev pub echoed : Kernel → Bool → List (List ℕ) → (node : ℕ) → Node → Kernel
echoed k append ws node n = record k { vfs = after_write node append (join ws) n k.vfs }

module _ (f depth : ℕ) (fresh : Vfs → ℕ) (holds : ℕ → Bool) (k : Kernel) (append : Bool)
    (ws : List (List ℕ)) (path : List ℕ) (node : ℕ) (n : Node) (protected : Bool) (sudo : IsSudo k)
    (words : AreWords ws) (plain : ArePlain ws) (file_word : AreWords (path ∷ []))
    (fits : length (join ws) < 512) (found : resolve_path f k.vfs path ≡ some node)
    (real : node ≢ 0) (at : k.vfs.nodes node ≡ some n) (is_file : is_directory n ≡ false)
    (guarded : is_protected f k.vfs node ≡ some protected)
    (sized : SizeIs n.data_size n.content) where
  abbrev k' : Kernel
  k' = echoed k append ws node n

  written :
      (vfs_write f k.vfs (fresh k.vfs) path (join ws) append ≡ some (pos 0, k'.vfs))
      × (vfs_cat f k'.vfs path ≡ some (pos 0, some (some (after append n.content (join ws)))))
  written =
      let both =
        vfs_cat-vfs_write f k.vfs (fresh k.vfs) path (join ws) append node n found real at protected
          is_file guarded (allowed protected k.vfs.sudo_mode sudo.sudo) sized in
      (both.0, both.1)

  echo_line :
      execute f fresh holds (suc depth) (join (bytes "echo" ∷ (ws ++ (arrow append ∷ path ∷ [])))) k
      ≡ some (returned k')
  unfolding run_command same_text
  echo_line =
      let line = ws ++ (arrow append ∷ path ∷ []) in
      execute_words f fresh holds depth (bytes "echo") line ws (redirection append path) k sudo
        (
          refl,
          omega arith,
          AreWords-append ws (arrow append ∷ path ∷ []) words
              (arrow-AreWords append path file_word),
        )
        (find_redirect-plain append (bytes "echo" ∷ ws) path (refl, refl, plain)) refl
      ∙ rw (echo_written f fresh append path ws k k'.vfs fits written.0) refl

  cat_line :
      execute f fresh holds (suc depth) (join (bytes "cat" ∷ path ∷ [])) k'
      ≡ some (returned (print_char 10 (print_str (after append n.content (join ws)) k')))
  unfolding run_command same_text cmd_cat find_redirect
  cat_line =
      execute_words f fresh holds depth (bytes "cat") (path ∷ []) (path ∷ []) nowhere k'
        (record { sudo = sudo.sudo; running = sudo.running; no_super = sudo.no_super })
        (refl, omega arith, file_word) refl refl
      ∙ rw (written.1) refl

  -- While sudo mode is on, and for a path that leads to a file, `echo` of words with `>` or `>>` and a path behind them, at most 511 bytes of words of
  -- which none is `>` or `>>`, changes the file that the path leads to and prints nothing; then `cat` of
  -- the path prints the words joined by spaces, behind the file's old text for `>>`, and a line end.
  pub execute-cat-echo :
      (execute f fresh holds
          (suc depth)
          (join (bytes "echo" ∷ (ws ++ (arrow append ∷ path ∷ []))))
          k
        ≡ some (returned (echoed k append ws node n)))
      × (execute f fresh holds
            (suc depth)
            (join (bytes "cat" ∷ path ∷ []))
            (echoed k append ws node n)
          ≡ some (
              returned (
                print_char 10
                  (print_str (after append n.content (join ws)) (echoed k append ws node n)))))
  execute-cat-echo = (echo_line, cat_line)
