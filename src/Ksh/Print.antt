-- ===== src/Ksh/Print.antt =====
-- What the commands of `execute` print, and `print_prompt` of src/impl/x86_64/print.c.
use Prim.Native.String.{String}
use keyhole_os.Prelude.{
  ℕ, ◌+◌, ◌==◌, Bool, false, Option, some, if◌then◌else◌, List, drop, take, bytes,
}
use keyhole_os.Prelude.Int.{ℤ, pos, negsuc}
use keyhole_os.Console
use keyhole_os.Console.{Screen}
use keyhole_os.Vfs.{Vfs, same_text, ◌>>=◌}
use keyhole_os.Vfs.Pwd.{vfs_pwd}
use keyhole_os.Ksh.{Kernel}

abbrev pub on_screen : (Screen → Screen) → Kernel → Kernel
on_screen change k = record k { screen = change k.screen }

abbrev pub print_str : List ℕ → Kernel → Kernel
print_str s = on_screen (Console.print_str s)

abbrev pub print_char : ℕ → Kernel → Kernel
print_char c = on_screen (Console.print_char c)

abbrev pub print_int : ℕ → Kernel → Kernel
print_int n = on_screen (Console.print_int n)

abbrev pub print_set_color : (foreground background : ℕ) → Kernel → Kernel
print_set_color foreground background = on_screen (Console.print_set_color foreground background)

-- a text of the source
abbrev pub say : String → Kernel → Kernel
say text = print_str (bytes text)

-- a text, a word of the input and the end of the line
abbrev pub say_of : String → List ℕ → Kernel → Kernel
say_of text word k = print_char 10 (print_str word (say text k))

-- a word between two texts
abbrev pub say_about : String → List ℕ → String → Kernel → Kernel
say_about text word rest k = say rest (print_str word (say text k))

-- `result == -n`
abbrev pub is_minus : ℕ → ℤ → Bool
is_minus n (pos m) = false
is_minus n (negsuc m) = m + 1 == n

abbrev pub is_zero : ℤ → Bool
is_zero (pos m) = m == 0
is_zero (negsuc m) = false

abbrev pub black : ℕ
black = 0

abbrev pub blue : ℕ
blue = 1

abbrev pub green : ℕ
green = 2

abbrev pub white : ℕ
white = 15

-- the directory's part of `print_prompt`
abbrev pub print_directory : (pwd : List ℕ) → Screen → Screen
print_directory pwd s =
    if same_text (take 10 pwd) (bytes "/home/root")
    then Console.print_str (drop 10 pwd) (Console.print_char b'~' s)
    else Console.print_str pwd s

unfoldable pub print_prompt : ℕ → Vfs → Screen → Option Screen
print_prompt f v s = vfs_pwd f v >>= λ pwd.
    (let user = Console.print_str (bytes "root@keyhole") (Console.print_set_color green black s) in
      let colon = Console.print_str (bytes ":") (Console.print_set_color white black user) in
      let directory = print_directory pwd (Console.print_set_color blue black colon) in
      let end = Console.print_str (bytes "$ ") (Console.print_set_color white black directory) in
      some (record end { color = s.color }))
