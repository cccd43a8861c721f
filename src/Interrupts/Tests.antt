-- ===== src/Interrupts/Tests.antt =====
-- Interrupts at a small machine.
use keyhole_os.Prelude.{ℕ, ◌≡◌, refl, true, false, List, [], ◌∷◌}
use keyhole_os.Memory.{Memory}
use keyhole_os.Console.{VgaChar}
use keyhole_os.Keyboard.{Keyboard, keyboard_interrupt}
use keyhole_os.Syscall.{handle_syscall}
use keyhole_os.Vfs.Sample.{as_root}
use keyhole_os.Ksh.{Kernel}
use keyhole_os.Interrupts.{
  World, up, down, broken, Regs, Handled, returned, waits, halted, left_memory, pic_eoi,
  interrupt_handler,
}

abbrev blank : VgaChar
blank = record { character = 0; color = 0 }

abbrev kernel : Kernel
kernel = record {
  screen = record { buffer = λ j. blank; col = 0; row = 0; color = 15; ports = [] };
  vfs = as_root;
  vmm = record {
    tables = λ t i. 0;
    pml4 = 0x1000;
    pmm = record { bitmap = λ i. 0; total_pages = 16; used_pages = 0 };
    flushed = [];
  };
  heap_end = 0x1001000;
  past = record { history = λ l i. 0; history_count = 0; history_pos = 0; page_start = 0 };
  ticks = 100;
  sudo_expires = 200;
  super_sudo_mode = false;
}

abbrev keyboard : Keyboard World
keyboard = record {
  caps_lock = false;
  shift_held = false;
  ctrl_held = false;
  extended = false;
  input = [];
  past = kernel.past;
  world = up kernel;
}

-- a call of `sys_write` for no bytes
abbrev regs : Regs
regs = record {
  rax = 1;
  rdi = 1;
  rsi = 0x600000;
  rdx = 0;
  error = 0;
  rip = 0x600000;
  cs = 0x1B;
  rflags = 2;
  rsp = 0x800000;
  ss = 0x23;
  cr2 = 0;
}

abbrev memory : Memory
memory a = 0

abbrev handle : (scancode int_num : ℕ) → Handled
handle scancode int_num =
    interrupt_handler 9 (λ v. 0x600) (λ page. true) memory regs scancode int_num kernel keyboard

-- what is seen of a handler that returned: the ticks, the ports written and the line
abbrev seen : Handled → ℕ × List (ℕ × ℕ) × List ℕ
seen (returned kb rax) = elim kb.world [
  | up k ↦ (k.ticks, k.screen.ports, kb.input)
  | down k ↦ (0, [], [])
  | broken ↦ (0, [], [])
]
seen (waits kb) = (0, [], [])
seen (halted w) = (0, [], [])
seen left_memory = (0, [], [])

timer : seen (handle 0 32) ≡ (101, (0x20, 0x20) ∷ [], [])
unfolding interrupt_handler pic_eoi
timer = refl

second_controller : seen (handle 0 44) ≡ (100, (0x20, 0x20) ∷ (0xA0, 0x20) ∷ [], [])
unfolding interrupt_handler pic_eoi
second_controller = refl

-- A system call is acknowledged to both controllers, though neither has an interrupt in service.
system_call_acknowledged : seen (handle 0 128) ≡ (100, (0x20, 0x20) ∷ (0xA0, 0x20) ∷ [], [])
unfolding interrupt_handler handle_syscall pic_eoi
system_call_acknowledged = refl

-- the break code of a key
released : seen (handle 0x9E 33) ≡ (100, (0x20, 0x20) ∷ [], [])
unfolding interrupt_handler keyboard_interrupt pic_eoi
released = refl
