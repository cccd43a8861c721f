-- ===== src/Syscall/Tests.antt =====
-- The theorems about the system calls at a small screen.
use keyhole_os.Prelude.{ℕ, ◌+◌, ◌%◌, ◌/◌, ◌^◌, ◌≡◌, ◌≢◌, refl, ◌==◌, if◌then◌else◌, [], ◌∷◌, arith}
use keyhole_os.Prelude.Int.{pos, negsuc}
use keyhole_os.Memory.{Memory}
use keyhole_os.Console.{VgaChar, Screen, print_chars, print_str}
use keyhole_os.Syscall.{returns, handle_syscall}
use keyhole_os.Syscall.Init.{Registers, syscall_init, syscall_init_lem}
use keyhole_os.Syscall.Laws.{handle_syscall_lem}
use keyhole_os.Syscall.Prompt

abbrev blank : VgaChar
blank = record { character = 0; color = 0 }

abbrev screen : Screen
screen = record { buffer = λ j. blank; col = 79; row = 24; color = 15; ports = [] }

abbrev memory : Memory
memory a = if a == 0x1000 then b'h' else if a == 0x1001 then b'i' else 0

abbrev prompt : Screen → Screen
prompt s = print_str (b'$' ∷ []) s

handle_syscall_lem_example :
    (handle_syscall prompt memory 1 1 0x1000 2 screen
      ≡ returns (pos 2) (print_chars (b'h' ∷ b'i' ∷ []) screen))
    × ((fd len : ℕ)
        → fd ≢ 1
        → handle_syscall prompt memory 1 fd 0x1000 len screen ≡ returns (negsuc 0) screen)
    × ((num fd len : ℕ)
        → num ≢ 1
        → num ≢ 60
        → handle_syscall prompt memory num fd 0x1000 len screen ≡ returns (negsuc 0) screen)
handle_syscall_lem_example =
    handle_syscall_lem prompt memory 0x1000 (b'h' ∷ b'i' ∷ []) screen (refl, (refl, tt))
      (omega arith)

-- the registers before: system calls off, the long mode on
abbrev registers : Registers
registers r = if r == 0xC0000080 then 0x500 else 7

syscall_init_lem_example :
    let m' = syscall_init 0x101000 registers in
    (m' 0xC0000081 / 2 ^ 32 % 2 ^ 16 ≡ 0x08)
    × (m' 0xC0000081 / 2 ^ 48 % 2 ^ 16 + 16 ≡ 0x30)
    × (m' 0xC0000081 / 2 ^ 48 % 2 ^ 16 + 8 ≡ 0x28)
    × (m' 0xC0000082 ≡ 0x101000)
    × (m' 0xC0000084 ≡ 0x200)
    × (m' 0xC0000080 % 2 ≡ 1)
    × (m' 0xC0000080 / 2 ≡ 0x280)
    × ((r : ℕ)
        → r ≢ 0xC0000080
        → r ≢ 0xC0000081
        → r ≢ 0xC0000082
        → r ≢ 0xC0000084
        → m' r ≡ registers r)
syscall_init_lem_example = syscall_init_lem 0x101000 registers

efer_after : syscall_init 0x101000 registers 0xC0000080 ≡ 0x501
unfolding syscall_init
efer_after = refl
