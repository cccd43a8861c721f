-- ===== src/Ksh.antt =====
-- src/impl/kernel/main.c: the shell, `execute`. Here are the words of its input line, the redirection,
-- and what the commands work on; the children have the commands and the theorems.
-- The kernel heap's bookkeeping for the tokens is not followed. `none` as a result means that a NULL was
-- followed, a buffer was left, or the fuel of a loop ran out.
pub mod Print
pub mod Files
pub mod Listing
pub mod System
pub mod Execute
pub mod Tokens
pub mod Redirected
pub mod Sudo
pub mod Depth
mod Tests
use keyhole_os.Prelude.{
  ℕ, zero, suc, ◌+◌, Bool, true, false, Option, none, some, ◌==◌, leb, if◌then◌else◌, List, [], ◌∷◌,
  ◌++◌, length, bytes,
}
use keyhole_os.Console.{Screen}
use keyhole_os.Keyboard.{Past}
use keyhole_os.Vfs.{Vfs, same_text}
use keyhole_os.Vmm.{Vmm}

-- the variables that the commands read and write; `ticks` counts the timer's interrupts
pub record Kernel : Type 0 where
  pub screen : Screen
  pub vfs : Vfs
  pub vmm : Vmm
  pub heap_end : ℕ
  pub past : Past
  pub ticks : ℕ
  pub sudo_expires : ℕ
  pub super_sudo_mode : Bool

-- A command returns, or it resets or halts the machine for good.
pub data Outcome : Type 0 where
  returned : Kernel → Outcome
  stopped : Kernel → Outcome

abbrev pub is_empty : List ℕ → Bool
is_empty [] = true
is_empty (c ∷ cs) = false

-- the first loop of `execute`, which counts the words
unfoldable pub count_tokens : List ℕ → (in_token : Bool) → (token_count : ℕ) → ℕ
count_tokens [] in_token token_count = if in_token then token_count + 1 else token_count
count_tokens (c ∷ cs) in_token token_count =
    if c == b' '
    then count_tokens cs false (if in_token then token_count + 1 else token_count)
    else count_tokens cs true token_count

-- The second loop, which copies them: `token` are the bytes from `start` on.
unfoldable pub split_tokens : List ℕ → (token : List ℕ) → List (List ℕ)
split_tokens [] token = if is_empty token then [] else token ∷ []
split_tokens (c ∷ cs) token =
    let rest = split_tokens cs [] in
    let longer = split_tokens cs (token ++ (c ∷ [])) in
    if c == b' ' then (if is_empty token then rest else token ∷ rest) else longer

abbrev pub tokens : List ℕ → List (List ℕ)
tokens input = split_tokens input []

pub data Redirect : Type 0 where
  nowhere : Redirect
  append_to overwrite : (redirect_file : List ℕ) → Redirect

-- The loop that looks for `>>` or `>` with a word behind it: the redirection, and the tokens before it.
unfoldable pub find_redirect : List (List ℕ) → Redirect × List (List ℕ)
unfolding same_text
find_redirect [] = (nowhere, [])
find_redirect (t ∷ []) = (nowhere, t ∷ [])
find_redirect (t ∷ u ∷ ts) =
    let (r, before) = find_redirect (u ∷ ts) in
    if same_text t (bytes ">>")
    then (append_to u, [])
    else if same_text t (bytes ">")
    then (overwrite u, [])
    else (r, t ∷ before)

-- the loops of `sudo` and `echo` that join words; `first` is `i == 1`
unfoldable pub join_from : (first : Bool) → List (List ℕ) → List ℕ
join_from first [] = []
join_from first (t ∷ ts) = (if first then t else b' ' ∷ t) ++ join_from false ts

abbrev pub join : List (List ℕ) → List ℕ
join = join_from true
