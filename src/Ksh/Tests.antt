-- ===== src/Ksh/Tests.antt =====
-- The theorems about the shell at a small machine.
use keyhole_os.Prelude.{
  ◌++◌, ℕ, Bool, ◌≡◌, refl, true, false, none, some, [], ◌∷◌, length, arith, bytes,
}
use keyhole_os.Console.{VgaChar}
use keyhole_os.Vfs.{Vfs, same_text, resolve_path, is_protected}
use keyhole_os.Vfs.Data.{after}
use keyhole_os.Vfs.Sample.{as_root, notes, notes_path}
use keyhole_os.Ksh.{
  Kernel, returned, tokens, count_tokens, split_tokens, overwrite, find_redirect, join, join_from,
}
use keyhole_os.Ksh.Print.{print_str, print_char}
use keyhole_os.Ksh.Execute.{prepare, execute}
use keyhole_os.Ksh.Tokens.{AreWords, concat, letters, tokens_count, tokens-AreWords, tokens-join}
use keyhole_os.Ksh.Redirected.{echoed, execute-cat-echo}

abbrev blank : VgaChar
blank = record { character = 0; color = 0 }

abbrev start : Vfs → Kernel
start v = record {
  screen = record { buffer = λ j. blank; col = 0; row = 0; color = 15; ports = [] };
  vfs = v;
  vmm = record {
    tables = λ t i. 0;
    pml4 = 0x1000;
    pmm = record { bitmap = λ i. 0; total_pages = 16; used_pages = 0 };
    flushed = [];
  };
  heap_end = 0x1001000;
  past = record { history = λ l i. 0; history_count = 0; history_pos = 0; page_start = 0 };
  ticks = 100;
  sudo_expires = 200;
  super_sudo_mode = false;
}

abbrev at_root : Kernel
at_root = start as_root

-- the address that a new node gets
abbrev fresh : Vfs → ℕ
fresh v = 0x600

abbrev holds : ℕ → Bool
holds page = true

split : tokens (bytes "  ls  -a /etc ") ≡ bytes "ls" ∷ bytes "-a" ∷ bytes "/etc" ∷ []
unfolding split_tokens
split = refl

redirected :
    find_redirect (tokens (bytes "echo a > b > c"))
    ≡ (overwrite (bytes "b"), bytes "echo" ∷ bytes "a" ∷ [])
unfolding split_tokens find_redirect
redirected = refl

tokens_count_example : count_tokens (bytes " a b") false 0 ≡ length (tokens (bytes " a b"))
tokens_count_example = tokens_count (bytes " a b")

tokens-AreWords_example :
    (tokens (bytes "ls") ≡ bytes "ls" ∷ [])
    × (tokens (bytes " a b  c") ≡ tokens (bytes " a b") ++ tokens (bytes " c"))
    × AreWords (tokens (bytes " a b"))
    × (concat (tokens (bytes " a b")) ≡ letters (bytes " a b"))
tokens-AreWords_example =
    tokens-AreWords (bytes " a b") (bytes " c") (bytes "ls") (omega arith) refl

tokens-join_example : tokens (join (bytes "hi" ∷ bytes "you" ∷ [])) ≡ bytes "hi" ∷ bytes "you" ∷ []
tokens-join_example =
    tokens-join (bytes "hi" ∷ bytes "you" ∷ []) (refl, omega arith, (refl, omega arith, tt))

notes_found : resolve_path 9 as_root notes_path ≡ some 0x400
unfolding resolve_path
notes_found = refl

notes_open : is_protected 9 as_root 0x400 ≡ some false
unfolding is_protected
notes_open = refl

execute-cat-echo_example :
    let k' = echoed at_root true (bytes "hi" ∷ bytes "you" ∷ []) 0x400 notes in
    (execute 9 fresh holds 1
        (join (bytes "echo" ∷ bytes "hi" ∷ bytes "you" ∷ bytes ">>" ∷ notes_path ∷ []))
        at_root
      ≡ some (returned k'))
    × (execute 9 fresh holds 1 (join (bytes "cat" ∷ notes_path ∷ [])) k'
        ≡ some (
            returned (
              print_char 10
                (print_str (after true notes.content (join (bytes "hi" ∷ bytes "you" ∷ []))) k'))))
unfolding join_from same_text
execute-cat-echo_example =
    execute-cat-echo 9 0 fresh holds at_root true (bytes "hi" ∷ bytes "you" ∷ []) notes_path 0x400
      notes false (record { sudo = refl; running = refl; no_super = refl })
      (refl, omega arith, (refl, omega arith, tt)) (refl, refl, (refl, refl, tt))
      (refl, omega arith, tt) (omega arith) notes_found (omega arith) refl refl notes_open refl

ready :
    prepare 9 fresh holds (join (bytes "sudo" ∷ bytes "mkdir" ∷ bytes "/x" ∷ [])) at_root
    ≡ some at_root
unfolding prepare join_from
ready = refl

-- A line of spaces has no word to compare.
blank_line : execute 9 fresh holds 2 (bytes "  ") at_root ≡ none
unfolding execute prepare split_tokens
blank_line = refl

-- Less is too little.
too_deep : execute 9 fresh holds 2 (bytes "sudo sudo whoami") at_root ≡ none
unfolding execute prepare split_tokens find_redirect join_from same_text
too_deep = refl
