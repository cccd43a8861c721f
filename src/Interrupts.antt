-- ===== src/Interrupts.antt =====
-- `interrupt_handler` of src/impl/kernel/main.c, over the keyboard, the system calls and the shell, and
-- src/impl/x86_64/pic.c. The ports written stand with those of the cursor, in the screen's list.
-- `fresh` and `holds` are those of the shell; its depth is one more than the bytes of the line.
mod Tests
use Prim.Native.String.{String}
use keyhole_os.Prelude.{
  ℕ, zero, suc, ◌+◌, ◌-◌, ◌%◌, ◌^◌, Bool, true, false, ◌&&◌, Option, none, some, ◌==◌, leb, ltb,
  if◌then◌else◌, List, [], ◌∷◌, length, bytes,
}
use keyhole_os.Prelude.Int.{ℤ}
use keyhole_os.Memory.{Memory}
use keyhole_os.Console
use keyhole_os.Console.{Screen, outb}
use keyhole_os.Keyboard.{Past, Shell, Keyboard, keyboard_interrupt}
use keyhole_os.Syscall
use keyhole_os.Syscall.{handle_syscall}
use keyhole_os.Vfs.{Vfs}
use keyhole_os.Vfs.Calls.{vfs_cat}
use keyhole_os.Ksh.{Kernel, Outcome}
use keyhole_os.Ksh
use keyhole_os.Ksh.Print.{on_screen, say, print_set_color, black, print_char, print_prompt, is_zero}
use keyhole_os.Ksh.Execute.{execute}

-- pic.c. A write to port 0x80 is a delay.
abbrev io_wait : Screen → Screen
io_wait s = outb 0x80 0 s

-- the writes of `pic_init`, each followed by a delay but the last
abbrev written_slowly : List (ℕ × ℕ) → Screen → Screen
written_slowly [] s = s
written_slowly ((port, value) ∷ more) s = written_slowly more (io_wait (outb port value s))

unfoldable pub pic_init : Screen → Screen
pic_init s = outb 0xA1 0xFF (
    written_slowly
      ((0x20, 0x11)
        ∷ (0xA0, 0x11)
        ∷ (0x21, 0x20)
        ∷ (0xA1, 0x28)
        ∷ (0x21, 0x04)
        ∷ (0xA1, 0x02)
        ∷ (0x21, 0x01)
        ∷ (0xA1, 0x01)
        ∷ (0x21, 0xFC)
        ∷ [])
      s)

unfoldable pub pic_eoi : (irq : ℕ) → Screen → Screen
pic_eoi irq s = outb 0x20 0x20 (if leb 8 irq then outb 0xA0 0x20 s else s)

-- The kernel runs, it was reset or halted by a command, or the code left the memory of its data.
pub data World : Type 0 where
  up down : Kernel → World
  broken : World

abbrev on_up : (Kernel → Kernel) → World → World
on_up change (up k) = up (change k)
on_up change (down k) = down k
on_up change broken = broken

-- a text of the history's file
abbrev text_of : ℤ × Option (Option (List ℕ)) → Option (List ℕ)
text_of (result, some (some text)) = if is_zero result then some text else none
text_of (result, some none) = none
text_of (result, none) = none

-- the words of the frame that `regs` leads to, and the address of a page fault
pub record Regs : Type 0 where
  pub rax : ℕ
  pub rdi : ℕ
  pub rsi : ℕ
  pub rdx : ℕ
  pub error : ℕ
  pub rip : ℕ
  pub cs : ℕ
  pub rflags : ℕ
  pub rsp : ℕ
  pub ss : ℕ
  pub cr2 : ℕ

-- The handler returns, with `rax` changed or not; it waits for good with interrupts on, or off.
pub data Handled : Type 0 where
  returned : Keyboard World → (rax : Option ℤ) → Handled
  waits : Keyboard World → Handled
  halted : World → Handled
  left_memory : Handled

-- a line of the state behind a general protection fault
abbrev show_word : String → ℕ → Kernel → Kernel
show_word name n k = print_char 10 (on_screen (Console.print_uint64_as_hex n) (say name k))

-- the branch for a vector below 32, up to where the processor is halted
unfoldable pub show_fault : (int_num : ℕ) → Regs → Kernel → Kernel
show_fault int_num regs k =
    let k' = print_set_color 4 black k in
    let end = λ (k'' : Kernel). say "\nSystem halted. Reboot to continue.\n" k'' in
    if int_num == 0
    then end (say "DIVIDE BY ZERO" k')
    else if int_num == 6
    then end (say "INVALID OPCODE" k')
    else if int_num == 8
    then end (say "DOUBLE FAULT" k')
    else if int_num == 13
    then show_word "ss    = 0x" regs.ss (
        show_word "rsp   = 0x" regs.rsp (
          show_word "rflags= 0x" regs.rflags (
            show_word "cs    = 0x" regs.cs (
              show_word "rip   = 0x" regs.rip
                (show_word "error = 0x" regs.error (say "GENERAL PROTECTION FAULT\n" k'))))))
    else if int_num == 14
    then on_screen (Console.print_uint64_as_hex regs.cr2) (say "PAGE FAULT at 0x" k')
    else end (say "CPU EXCEPTION" k')

module _ (f : ℕ) (fresh : Vfs → ℕ) (holds : ℕ → Bool) where
  abbrev prompt : World → World
  prompt (up k) = elim (print_prompt f k.vfs k.screen) [
    | some s ↦ up (record k { screen = s })
    | none ↦ broken
  ]
  prompt (down k) = down k
  prompt broken = broken

  abbrev history_text : World → Option (List ℕ)
  history_text (up k) = elim (vfs_cat f k.vfs (bytes "/home/root/.ksh_history")) [
    | some found ↦ text_of found
    | none ↦ none
  ]
  history_text (down k) = none
  history_text broken = none

  abbrev run_line : List ℕ → Past → World → Past × World
  run_line input past (up k) =
      elim (execute f fresh holds (length input + 1) input (record k { past = past })) [
        | some (Ksh.returned k') ↦ (k'.past, up k')
        | some (Ksh.stopped k') ↦ (k'.past, down k')
        | none ↦ (past, broken)
      ]
  run_line input past (down k) = (past, down k)
  run_line input past broken = (past, broken)

  -- the keyboard's interface over the console, the file system and the shell of this kernel
  abbrev pub kernel_shell : Shell
  kernel_shell = record {
    World = World;
    print_str = λ text. on_up (on_screen (Console.print_str text));
    print_char = λ c. on_up (on_screen (Console.print_char c));
    print_clear_char = on_up (on_screen Console.print_clear_char);
    print_clear = on_up (on_screen Console.print_clear);
    print_prompt = prompt;
    pic_eoi = λ irq. on_up (on_screen (pic_eoi irq));
    read_history = history_text;
    execute = run_line;
  }

  -- `int 0x80`; `sys_exit` shows the prompt and waits
  system_call : Memory → Regs → Kernel → Keyboard World → Handled
  system_call m regs k keyboard =
      let shown : Screen → Screen =
        λ s. elim (print_prompt f k.vfs s) [ some s' ↦ s' | none ↦ s ] in
      let on = λ (s : Screen). record keyboard { world = up (record k { screen = s }) } in
      elim (handle_syscall shown m regs.rax regs.rdi regs.rsi regs.rdx k.screen) [
        | Syscall.returns rax s ↦ returned (on (pic_eoi 96 s)) (some rax)
        | Syscall.halts s ↦ elim (print_prompt f k.vfs k.screen) [
          | some s' ↦ waits (on s)
          | none ↦ left_memory
        ]
      ]

  -- `scancode` is what the keyboard's port holds. A vector without a branch of its own is acknowledged
  -- alone, and `int 0x80` is acknowledged as the interrupt 96.
  unfoldable pub interrupt_handler :
      Memory → Regs → (scancode int_num : ℕ) → Kernel → Keyboard World → Handled
  unfolding system_call
  interrupt_handler m regs scancode int_num k keyboard =
      let keys : Handled =
        elim (keyboard_interrupt kernel_shell scancode (record keyboard { world = up k })) [
          | some keyboard' ↦ returned keyboard' none
          | none ↦ left_memory
        ] in
      let call = system_call m regs k keyboard in
      let counted = if int_num == 32 then record k { ticks = (k.ticks + 1) % 2 ^ 64 } else k in
      let plain =
        returned
          (record keyboard { world = up (on_screen (pic_eoi ((int_num - 32) % 2 ^ 8)) counted) })
          none in
      if ltb int_num 32
      then halted (up (show_fault int_num regs k))
      else if int_num == 128
      then call
      else if int_num == 33
      then keys
      else plain
