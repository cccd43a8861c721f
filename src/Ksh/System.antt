-- ===== src/Ksh/System.antt =====
-- The commands of `execute` that tell of the system or change it.
use Prim.Native.String.{String}
use keyhole_os.Prelude.{
  ℕ, ◌+◌, ◌-◌, ◌*◌, ◌/◌, ◌%◌, ◌^◌, ◌==◌, Bool, not, Option, none, some, if◌then◌else◌, List, [],
  ◌∷◌, bytes,
}
use keyhole_os.Pmm
use keyhole_os.Pmm.{alloc}
use keyhole_os.Kmemory.{heap_start}
use keyhole_os.Vfs.{same_text, ◌>>=◌}
use keyhole_os.Vfs.Calls.{vfs_cat}
use keyhole_os.Vfs.Pwd.{vfs_pwd}
use keyhole_os.Vmm.{vmm_map, vmm_unmap}
use keyhole_os.Ksh.{Kernel}
use keyhole_os.Ksh.Print.{
  say, print_str, print_char, print_int, print_set_color, on_screen, is_zero, black, white,
}

abbrev pub pit_freq : ℕ
pit_freq = 100

-- the names that `help` lists
abbrev commands : List String
commands =
    "clear" ∷ "help" ∷ "echo" ∷ "uname" ∷ "color" ∷ "reboot" ∷ "panic" ∷ "rm" ∷ "cd" ∷ "ls"
    ∷ "mkdir" ∷ "touch" ∷ "cat" ∷ "pwd" ∷ "uptime" ∷ "rmdir" ∷ "mv" ∷ "cp" ∷ "whoami" ∷ "hostname"
    ∷ "free" ∷ "neofetch" ∷ "date" ∷ "memmap" ∷ "memtest" ∷ []

print_commands : List String → Kernel → Kernel
print_commands [] k = k
print_commands (c ∷ cs) k = print_commands cs (print_char b' ' (say c k))

unfoldable pub cmd_help : Kernel → Kernel
unfolding print_commands
cmd_help k = print_char 10 (print_commands commands (say "Commands: " k))

-- `colors`, each name's value its place
abbrev colors : List String
colors =
    "black" ∷ "blue" ∷ "green" ∷ "cyan" ∷ "red" ∷ "magenta" ∷ "brown" ∷ "gray" ∷ "dgray" ∷ "lblue"
    ∷ "lgreen" ∷ "lcyan" ∷ "lred" ∷ "pink" ∷ "yellow" ∷ "white" ∷ []

find_color : List String → (value : ℕ) → (name : List ℕ) → Option ℕ
find_color [] value name = none
find_color (c ∷ cs) value name =
    let rest = find_color cs (value + 1) name in
    if same_text (bytes c) name then some value else rest

unfoldable pub cmd_color : (args : List (List ℕ)) → Kernel → Kernel
unfolding find_color
cmd_color [] k = say "color takes 1 arguments (color <color>)\n" k
cmd_color (name ∷ rest) k = elim (find_color colors 0 name) [
  | some value ↦ print_set_color value black k
  | none ↦ say "Unknown color\n" k
]

-- `panic` before its division by zero, which halts the machine
unfoldable pub cmd_panic : Kernel → Kernel
cmd_panic k =
    let k' = if not k.vfs.sudo_mode then say "panic: requires `sudo`\n" k else k in
    say "Kernel panic - system halted\n" k'

unfoldable pub cmd_pwd : ℕ → Kernel → Option Kernel
cmd_pwd f k = vfs_pwd f k.vfs >>= λ path. some (print_char 10 (print_str path k))

-- a file's text, with what is printed behind it
show_file : ℕ → (path : List ℕ) → (Kernel → Kernel) → Kernel → Option Kernel
show_file f path end k = vfs_cat f k.vfs path >>= λ (result, out). some (elim out [
  | some (some text) ↦ (if is_zero result then end (print_str text k) else k)
  | some none ↦ k
  | none ↦ k
])

unfoldable pub cmd_history : ℕ → Kernel → Option Kernel
unfolding show_file
cmd_history f k = show_file f (bytes "/home/root/.ksh_history") (λ k'. k') k

unfoldable pub cmd_hostname : ℕ → Kernel → Option Kernel
unfolding show_file
cmd_hostname f k = show_file f (bytes "/etc/hostname") (print_char 10) k

unfoldable pub cmd_uptime : Kernel → Kernel
cmd_uptime k =
    let seconds = k.ticks / pit_freq in
    print_char 10 (print_int (seconds % 60) (print_char b':' (print_int (seconds / 60) k)))

unfoldable pub cmd_date : Kernel → Kernel
cmd_date k =
    let seconds = k.ticks / pit_freq in
    let hours = say "h " (print_int (seconds / 3600) (say "Up " k)) in
    let minutes = say "m " (print_int (seconds % 3600 / 60) hours) in
    say "s since boot\n" (print_int (seconds % 60) minutes)

-- a number of pages in units of 1024 bytes
abbrev kilobytes : ℕ → ℕ
kilobytes pages = pages * 4 % 2 ^ 64

abbrev say_size : String → ℕ → Kernel → Kernel
say_size text n k = say " KB\n" (print_int n (say text k))

-- the three lines that `free` and `memmap` share
unfoldable pub say_pages : Kernel → Kernel
say_pages k =
    let total = k.vmm.pmm.total_pages in
    let used = k.vmm.pmm.used_pages in
    say_size "Free:  " (kilobytes ((total + 2 ^ 64 - used) % 2 ^ 64))
      (say_size "Used:  " (kilobytes used) (say_size "Total: " (kilobytes total) k))

unfoldable pub cmd_memmap : Kernel → Kernel
unfolding say_pages
cmd_memmap k =
    let physical = say_pages (say "--- Physical Memory ---\n" k) in
    let start = print_int heap_start (say "Start: 0x" (say "--- Heap ---\n" physical)) in
    let end = print_int k.heap_end (say "\nEnd:   0x" start) in
    say_size "\nSize:  " ((k.heap_end + 2 ^ 64 - heap_start) % 2 ^ 64 / 1024) end

-- `holds` says that the memory of a page gives back the word that was written.
unfoldable pub cmd_memtest : (holds : ℕ → Bool) → Kernel → Kernel
cmd_memtest holds k =
    let k' = say "Allocating physical page...\n" k in
    let (page, p) = alloc k'.vmm.pmm in
    let mapping = say "Mapping to 0x400000...\n" (record k' { vmm = record k'.vmm { pmm = p } }) in
    let mapped = record mapping { vmm = vmm_map 0x400000 page 3 mapping.vmm } in
    let tested =
      if holds page then say "Write/Read: PASS\n" mapped else say "Write/Read: FAIL\n" mapped in
    let unmapped = vmm_unmap 0x400000 tested.vmm in
    let freed = record tested { vmm = record unmapped { pmm = Pmm.free page unmapped.pmm } } in
    let failed =
      say "memtest: pmm_alloc failed\n" (record k' { vmm = record k'.vmm { pmm = p } }) in
    if page == 0 then failed else say "Unmapped and freed. memtest complete.\n" freed

unfoldable pub cmd_neofetch : Kernel → Kernel
cmd_neofetch k =
    let seconds = k.ticks / pit_freq in
    let logo = say "           |___/                     \n" (
      say " |_|\\_\\___|\\__, |_| |_|\\___/|_|\\___|  \n" (
        say " | . \\  __/ |_| | | | | (_) | |  __/\n" (
          say " | ' // _ \\ | | | '_ \\ / _ \\| |/ _ \\\n" (
            say " | |/ /___ _   _| |__   ___ | | ___ \n"
              (say "  _  __          _           _      \n" (print_set_color 3 black k)))))) in
    let titles = say " Uptime:  " (
      say " Shell:   ksh\n"
        (say " OS:      KeyholeOS V0.1.1:beta\n" (print_set_color white black logo))) in
    let uptime =
      say "s\n" (print_int (seconds % 60) (say "m " (print_int (seconds / 60) titles))) in
    let used = print_int (kilobytes k.vmm.pmm.used_pages) (say " Memory:  " uptime) in
    let total = say " KB\n" (print_int (kilobytes k.vmm.pmm.total_pages) (say "/" used)) in
    on_screen (λ s. record s { color = k.screen.color }) total
