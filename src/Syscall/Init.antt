-- ===== src/Syscall/Init.antt =====
-- `syscall_init` of src/impl/x86_64/syscall.c, over the model-specific registers by their numbers.
use keyhole_os.Prelude.{
  ℕ, ◌+◌, ◌*◌, ◌/◌, ◌%◌, ◌^◌, ◌≡◌, ◌≢◌, refl, ◌∙◌, ◌==◌, if◌then◌else◌, bit_or, arith,
}
use keyhole_os.Word.{bit_or_last, bit_or-zero}

abbrev pub Registers : Type 0
Registers = ℕ → ℕ

abbrev pub wrmsr : (msr value : ℕ) → Registers → Registers
wrmsr msr value m r = if r == msr then value else m r

-- the kernel's selector, and the one that those of the program are counted from
abbrev pub star : ℕ
star = bit_or (0x08 * 2 ^ 32 % 2 ^ 64) (0x20 * 2 ^ 48 % 2 ^ 64)

-- `syscall_entry` is the address of the assembly that a system call enters.
unfoldable pub syscall_init : (syscall_entry : ℕ) → Registers → Registers
syscall_init syscall_entry m =
    let m3 = wrmsr 0xC0000084 0x200 (wrmsr 0xC0000082 syscall_entry (wrmsr 0xC0000081 star m)) in
    let efer = m3 0xC0000080 in wrmsr 0xC0000080 (bit_or efer 1) m3

-- how the processor reads the register for the selectors: the code segment of `syscall`, and the code and
-- the stack segment of `sysret`
abbrev syscall_cs : ℕ → ℕ
syscall_cs star = star / 2 ^ 32 % 2 ^ 16

abbrev sysret_cs : ℕ → ℕ
sysret_cs star = star / 2 ^ 48 % 2 ^ 16 + 16

abbrev sysret_ss : ℕ → ℕ
sysret_ss star = star / 2 ^ 48 % 2 ^ 16 + 8

bit_or-one : (a : ℕ) → bit_or a 1 ≡ a / 2 * 2 + 1
bit_or-one a = let rest = bit_or-zero (a / 2) in bit_or_last a 1 ∙ rw rest (omega arith)

-- After `syscall_init` a system call enters the kernel's code segment at its entry, with the interrupt flag
-- masked, and returns to the program's segments 0x30 and 0x28; the bit that turns system calls on is set, the
-- other bits of its register and all other registers are what they were.
pub syscall_init_lem :
    (syscall_entry : ℕ) (m : Registers)
    → let m' = syscall_init syscall_entry m in
      (syscall_cs (m' 0xC0000081) ≡ 0x08)
      × (sysret_cs (m' 0xC0000081) ≡ 0x30)
      × (sysret_ss (m' 0xC0000081) ≡ 0x28)
      × (m' 0xC0000082 ≡ syscall_entry)
      × (m' 0xC0000084 ≡ 0x200)
      × (m' 0xC0000080 % 2 ≡ 1)
      × (m' 0xC0000080 / 2 ≡ m 0xC0000080 / 2)
      × ((r : ℕ) → r ≢ 0xC0000080 → r ≢ 0xC0000081 → r ≢ 0xC0000082 → r ≢ 0xC0000084 → m' r ≡ m r)
unfolding syscall_init
syscall_init_lem syscall_entry m =
    let set = bit_or-one (m 0xC0000080) in
    (
      refl,
      refl,
      refl,
      refl,
      refl,
      omega (arith, set),
      omega (arith, set),
      λ r a b c d. ground (arith, a, b, c, d),
    )
