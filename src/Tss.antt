-- ===== src/Tss.antt =====
-- src/impl/x86_64/tss.c, src/intf/tss.h: the task state segment, which gives the stack for interrupts out of
-- the user program, and its descriptor in the words 3 and 4 of the table `gdt64`.
mod Tests
use keyhole_os.Prelude.{
  ℕ, zero, suc, ◌+◌, ◌-◌, ◌*◌, ◌/◌, ◌%◌, ◌^◌, ◌<◌, ◌≡◌, ◌≢◌, refl, ◌==◌, Bool, false, if◌then◌else◌,
  bit_or, arith,
}
use keyhole_os.Word.{shl, bit_or-shl_above}

pub record Tss : Type 0 where
  pub reserved0 : ℕ
  pub rsp0 : ℕ
  pub rsp1 : ℕ
  pub rsp2 : ℕ
  pub reserved1 : ℕ
  pub ist1 : ℕ
  pub ist2 : ℕ
  pub ist3 : ℕ
  pub ist4 : ℕ
  pub ist5 : ℕ
  pub ist6 : ℕ
  pub ist7 : ℕ
  pub reserved2 : ℕ
  pub reserved3 : ℕ
  pub iopb_offset : ℕ

-- `sizeof(struct TSS)`, packed: one field of 4 bytes, twelve of 8 and two of 2
abbrev pub tss_size : ℕ
tss_size = 4 + 12 * 8 + 2 * 2

-- the segment, the descriptors, and the task register, which `load_tss` sets
pub record Tasks : Type 0 where
  pub tss : Tss
  pub gdt : ℕ → ℕ
  pub task_register : ℕ

unfoldable pub tss_init : (stack_top : ℕ) → Tss
tss_init stack_top = record {
  reserved0 = 0;
  rsp0 = stack_top;
  rsp1 = 0;
  rsp2 = 0;
  reserved1 = 0;
  ist1 = 0;
  ist2 = 0;
  ist3 = 0;
  ist4 = 0;
  ist5 = 0;
  ist6 = 0;
  ist7 = 0;
  reserved2 = 0;
  reserved3 = 0;
  iopb_offset = tss_size;
}

-- the first word of the descriptor
unfoldable pub descriptor : (tss_addr tss_limit : ℕ) → ℕ
descriptor tss_addr tss_limit =
    bit_or
      (bit_or
        (bit_or
          (bit_or (bit_or (tss_limit % 2 ^ 16) (tss_addr % 2 ^ 16 * 2 ^ 16))
            (tss_addr / 2 ^ 16 % 2 ^ 8 * 2 ^ 32))
          (0x89 * 2 ^ 40))
        (tss_limit / 2 ^ 16 % 2 ^ 4 * 2 ^ 48))
      (tss_addr / 2 ^ 24 % 2 ^ 8 * 2 ^ 56)

abbrev set_word : (index word : ℕ) → (ℕ → ℕ) → ℕ → ℕ
set_word index word gdt j = if j == index then word else gdt j

unfoldable pub tss_install : (tss_addr stack_top : ℕ) → Tasks → Tasks
unfolding tss_init descriptor
tss_install tss_addr stack_top t =
    let tss_limit = tss_size - 1 in
    record {
      tss = tss_init stack_top;
      gdt =
          set_word 4 (tss_addr / 2 ^ 32 % 2 ^ 32)
            (set_word 3 (descriptor tss_addr tss_limit) t.gdt);
      task_register = 0x18;
    }

-- The parts of a descriptor as the processor reads them, from its two words.
abbrev pub base_of : (low high : ℕ) → ℕ
base_of low high = low / 2 ^ 16 % 2 ^ 24 + low / 2 ^ 56 % 2 ^ 8 * 2 ^ 24 + high % 2 ^ 32 * 2 ^ 32

abbrev pub limit_of : (low : ℕ) → ℕ
limit_of low = low % 2 ^ 16 + low / 2 ^ 48 % 2 ^ 4 * 2 ^ 16

abbrev pub access_of : (low : ℕ) → ℕ
access_of low = low / 2 ^ 40 % 2 ^ 8

-- a field above those that are set
above : (k a n b : ℕ) → n ≡ shl k a → b < shl k 1 → bit_or b n ≡ n + b
above k a n b e h = rw e (bit_or-shl_above k a b h)

-- the fields of the first word, none of which overlaps another
descriptor-sum :
    (tss_addr tss_limit : ℕ)
    → descriptor tss_addr tss_limit
      ≡ tss_addr / 2 ^ 24 % 2 ^ 8 * 2 ^ 56
        + (tss_limit / 2 ^ 16 % 2 ^ 4 * 2 ^ 48
            + (0x89 * 2 ^ 40
                + (tss_addr / 2 ^ 16 % 2 ^ 8 * 2 ^ 32
                    + (tss_addr % 2 ^ 16 * 2 ^ 16 + tss_limit % 2 ^ 16))))
unfolding descriptor
descriptor-sum a l =
    let f0 = l % 2 ^ 16 in
    let f1 = a % 2 ^ 16 in
    let f2 = a / 2 ^ 16 % 2 ^ 8 in
    let f4 = l / 2 ^ 16 % 2 ^ 4 in
    let f5 = a / 2 ^ 24 % 2 ^ 8 in
    let s1 = f1 * 2 ^ 16 + f0 in
    let s2 = f2 * 2 ^ 32 + s1 in
    let s3 = 0x89 * 2 ^ 40 + s2 in
    let s4 = f4 * 2 ^ 48 + s3 in
    let o1 = above 16 f1 (f1 * 2 ^ 16) f0 (omega arith) (omega arith) in
    let o2 = above 32 f2 (f2 * 2 ^ 32) s1 (omega arith) (omega arith) in
    let o3 = above 40 0x89 (0x89 * 2 ^ 40) s2 (omega arith) (omega arith) in
    let o4 = above 48 f4 (f4 * 2 ^ 48) s3 (omega arith) (omega arith) in
    let o5 = above 56 f5 (f5 * 2 ^ 56) s4 (omega arith) (omega arith) in
    rw (o1, o2, o3, o4, o5) refl

-- The task register leads to a descriptor of an available segment that is present, and whose base and
-- limit are those of the segment; the segment has the stack, and no map of ports. No other word of the
-- table is changed.
pub tss_install_lem :
    (tss_addr stack_top : ℕ) (t : Tasks) (j : ℕ)
    → tss_addr < 2 ^ 64
    → j ≢ 3
    → j ≢ 4
    → let t' = tss_install tss_addr stack_top t in
      let low = t'.gdt (t'.task_register / 8) in
      let high = t'.gdt (t'.task_register / 8 + 1) in
      (base_of low high ≡ tss_addr)
      × (limit_of low + 1 ≡ tss_size)
      × (access_of low ≡ 0x89)
      × (t'.tss.rsp0 ≡ stack_top)
      × (t'.tss.iopb_offset ≡ limit_of low + 1)
      × (t'.gdt j ≡ t.gdt j)
unfolding tss_install
tss_install_lem tss_addr stack_top t j h ne3 ne4 =
    let sum = descriptor-sum tss_addr 103 in
    let not3 : (j == 3) ≡ false = ground (arith, ne3) in
    let not4 : (j == 4) ≡ false = ground (arith, ne4) in
    (
      omega (arith, sum),
      omega (arith, sum),
      omega (arith, sum),
      refl,
      omega (arith, sum),
      rw (not4, not3) refl,
    )
