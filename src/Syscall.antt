-- ===== src/Syscall.antt =====
-- src/impl/x86_64/syscall.c: `sys_exit`, `sys_write` and `handle_syscall`, over the console.
-- `print_prompt` is a parameter: what it does to the screen.
pub mod Init
pub mod Laws
pub mod Prompt
mod Tests
use keyhole_os.Prelude.{ℕ, zero, suc, ◌+◌, ◌-◌, ◌^◌, ◌==◌, ltb, if◌then◌else◌, List, [], ◌∷◌}
use keyhole_os.Prelude.Int.{ℤ, pos, negsuc}
use keyhole_os.Memory.{Memory}
use keyhole_os.Console.{Screen, print_char, print_str, print_int}

-- A call returns to the program, or halts for good.
pub data Outcome : Type 0 where
  returns : ℤ → Screen → Outcome
  halts : Screen → Outcome

-- a `uint64_t` as the `int64_t` result
abbrev pub as_int64 : ℕ → ℤ
as_int64 n = if ltb n (2 ^ 63) then pos n else negsuc (2 ^ 64 - n - 1)

-- the loop of `sys_write` from byte `i` on, with the rounds left
unfoldable pub write_bytes : ℕ → Memory → (str i : ℕ) → Screen → Screen
write_bytes zero m str i s = s
write_bytes (suc n) m str i s = write_bytes n m str (i + 1) (print_char (m (str + i)) s)

unfoldable pub sys_write : Memory → (fd buf len : ℕ) → Screen → Outcome
unfolding write_bytes
sys_write m fd buf len s =
    if fd == 1 then returns (as_int64 len) (write_bytes len m buf 0 s) else returns (negsuc 0) s

abbrev exit_text : List ℕ
exit_text =
    b'P' ∷ b'r' ∷ b'o' ∷ b'c' ∷ b'e' ∷ b's' ∷ b's' ∷ b' ' ∷ b'e' ∷ b'x' ∷ b'i' ∷ b't' ∷ b'e' ∷ b'd'
    ∷ b' ' ∷ b'w' ∷ b'i' ∷ b't' ∷ b'h' ∷ b' ' ∷ b'c' ∷ b'o' ∷ b'd' ∷ b'e' ∷ b' ' ∷ []

module _ (print_prompt : Screen → Screen) where
  unfoldable pub sys_exit : (code : ℕ) → Screen → Outcome
  sys_exit code s = halts (print_prompt (print_char 10 (print_int code (print_str exit_text s))))

  unfoldable pub handle_syscall : Memory → (num arg1 arg2 arg3 : ℕ) → Screen → Outcome
  unfolding sys_exit sys_write
  handle_syscall m num arg1 arg2 arg3 s =
      if num == 60
      then sys_exit arg1 s
      else if num == 1
      then sys_write m arg1 arg2 arg3 s
      else returns (negsuc 0) s
