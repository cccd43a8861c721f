-- ===== src/Syscall/Prompt.antt =====
-- The system calls with the prompt of this kernel, `print_prompt` of src/impl/x86_64/print.c.
use keyhole_os.Prelude.{ℕ, Option, none, some}
use keyhole_os.Memory.{Memory}
use keyhole_os.Console.{Screen}
use keyhole_os.Vfs.{Vfs}
use keyhole_os.Ksh.Print.{print_prompt}

abbrev or_same : Screen → Option Screen → Screen
or_same s none = s
or_same s (some s') = s'

-- the prompt, where the path of the current directory has an end
abbrev pub prompt : ℕ → Vfs → Screen → Screen
prompt f v s = or_same s (print_prompt f v s)
