-- ===== src/Idt.antt =====
-- The table of interrupt gates in src/impl/kernel/main.c: `idt_set_entry`, and the calls of it in
-- `kernel_main`. The handlers are assembly: `isr` gives their addresses.
mod Tests
use keyhole_os.Prelude.{
  ℕ, zero, suc, ◌+◌, ◌*◌, ◌/◌, ◌%◌, ◌^◌, ◌≤◌, ◌<◌, ◌≡◌, ◌≢◌, ◌⊎◌, inl, inr, refl, ap, ◌∙◌, ◌==◌,
  Bool, true, false, Bool-cases, ltb, if◌then◌else◌, arith,
}

pub record IdtEntry : Type 0 where
  pub offset_low : ℕ
  pub selector : ℕ
  pub ist : ℕ
  pub type_attr : ℕ
  pub offset_mid : ℕ
  pub offset_high : ℕ
  pub zero_field : ℕ

abbrev pub Idt : Type 0
Idt = ℕ → IdtEntry

-- the entry that leads to a handler
abbrev pub gate : (handler : ℕ) → IdtEntry
gate handler = record {
  offset_low = handler % 2 ^ 16;
  selector = 0x08;
  ist = 0;
  type_attr = 0xEE;
  offset_mid = handler / 2 ^ 16 % 2 ^ 16;
  offset_high = handler / 2 ^ 32 % 2 ^ 32;
  zero_field = 0;
}

unfoldable pub idt_set_entry : (index handler : ℕ) → Idt → Idt
idt_set_entry index handler idt j = if j == index then gate handler else idt j

-- `count` calls, for the vectors from `first` on
unfoldable pub set_entries : (isr : ℕ → ℕ) → (first count : ℕ) → Idt → Idt
unfolding idt_set_entry
set_entries isr first zero idt = idt
set_entries isr first (suc count) idt =
    set_entries isr (first + 1) count (idt_set_entry first (isr first) idt)

-- the calls of `kernel_main`
unfoldable pub set_idt : (isr : ℕ → ℕ) → Idt → Idt
unfolding set_entries
set_idt isr idt = idt_set_entry 0x80 (isr 0x80) (set_entries isr 32 16 (set_entries isr 0 22 idt))

-- the address that the processor puts together of the parts of an entry
abbrev pub handler_of : IdtEntry → ℕ
handler_of e = e.offset_low + e.offset_mid * 2 ^ 16 + e.offset_high * 2 ^ 32

-- a gate for an interrupt, present, open to the user program, in the kernel's code segment
pub record LeadsTo (e : IdtEntry) (handler : ℕ) : Type 0 where
  pub address : handler_of e ≡ handler
  pub segment : e.selector ≡ 8
  pub is_gate : e.type_attr % 2 ^ 4 ≡ 14
  pub is_open : e.type_attr / 2 ^ 5 % 2 ^ 2 ≡ 3
  pub is_present : e.type_attr / 2 ^ 7 ≡ 1

gate-LeadsTo : (handler : ℕ) → handler < 2 ^ 64 → LeadsTo (gate handler) handler
gate-LeadsTo handler h = record {
  address = omega arith;
  segment = refl;
  is_gate = refl;
  is_open = refl;
  is_present = refl;
}

entry-same : (index handler : ℕ) (idt : Idt) → idt_set_entry index handler idt index ≡ gate handler
unfolding idt_set_entry
entry-same index handler idt = let e : (index == index) ≡ true = ground arith in rw e refl

entry-other :
    (index handler : ℕ) (idt : Idt) (j : ℕ) → j ≢ index → idt_set_entry index handler idt j ≡ idt j
unfolding idt_set_entry
entry-other index handler idt j ne = let e : (j == index) ≡ false = ground arith in rw e refl

-- A vector outside of those that are set keeps its entry.
entries-outside :
    (isr : ℕ → ℕ) (first count : ℕ) (idt : Idt) (j : ℕ)
    → (j < first) ⊎ (first + count ≤ j)
    → set_entries isr first count idt j ≡ idt j
unfolding set_entries
entries-outside isr first zero idt j h = refl
entries-outside isr first (suc count) idt j (inl before) =
    entries-outside isr (first + 1) count _ j (inl (omega (arith, before)))
    ∙ entry-other first (isr first) idt j (omega (arith, before))
entries-outside isr first (suc count) idt j (inr behind) =
    entries-outside isr (first + 1) count _ j (inr (omega (arith, behind)))
    ∙ entry-other first (isr first) idt j (omega (arith, behind))

-- A vector that is set has the gate of its own handler.
entries-inside :
    (isr : ℕ → ℕ) (first count : ℕ) (idt : Idt) (j : ℕ)
    → first ≤ j
    → j < first + count
    → set_entries isr first count idt j ≡ gate (isr j)
unfolding set_entries
entries-inside isr first zero idt j h g = absurd (omega (arith, h, g))
entries-inside isr first (suc count) idt j h g = elim (Bool-cases (j == first)) [
  | inl here ↦
      let e : j ≡ first = ground (arith, here) in
      rw e (
        entries-outside isr (first + 1) count _ first (inl (omega arith))
        ∙ entry-same first (isr first) idt)
  | inr later ↦
      let ne : j ≢ first = ground (arith, later) in
      entries-inside isr (first + 1) count _ j (omega (arith, h, ne)) (omega (arith, g))
]

-- the vectors of the processor's faults, of the two interrupt controllers and of the system calls
abbrev pub IsVector : ℕ → Type 0
IsVector j = (j < 22) ⊎ (((32 ≤ j) × (j < 48)) ⊎ (j ≡ 128))

-- the other vectors, in two ranges
abbrev IsOther : ℕ → Type 0
IsOther j = ((22 ≤ j) × (j < 32)) ⊎ ((48 ≤ j) × (j ≢ 128))

vectors_split : (j : ℕ) → IsVector j ⊎ IsOther j
vectors_split j = elim (Bool-cases (ltb j 22)) [
  | inl fault ↦ inl (inl (ground (arith, fault)))
  | inr above ↦ elim (Bool-cases (ltb j 32)) [
    | inl between ↦ inr (inl (ground (arith, above), ground (arith, between)))
    | inr irq ↦ elim (Bool-cases (ltb j 48)) [
      | inl below ↦ inl (inr (inl (ground (arith, irq), ground (arith, below))))
      | inr behind ↦ elim (Bool-cases (j == 128)) [
        | inl call ↦ inl (inr (inr (ground (arith, call))))
        | inr other ↦ inr (inr (ground (arith, behind), ground (arith, other)))
      ]
    ]
  ]
]

other_vectors : (j : ℕ) → IsOther j → ¬ IsVector j
other_vectors j (inl o) (inl fault) = absurd (omega (arith, o.0, fault))
other_vectors j (inl o) (inr (inl irq)) = absurd (omega (arith, o.1, irq.0))
other_vectors j (inl o) (inr (inr call)) = absurd (omega (arith, o.1, call))
other_vectors j (inr o) (inl fault) = absurd (omega (arith, o.0, fault))
other_vectors j (inr o) (inr (inl irq)) = absurd (omega (arith, o.0, irq.1))
other_vectors j (inr o) (inr (inr call)) = absurd (o.1 call)

abbrev with_irqs : (isr : ℕ → ℕ) → Idt → Idt
with_irqs isr idt = set_entries isr 32 16 (set_entries isr 0 22 idt)

set_idt-IsVector : (isr : ℕ → ℕ) (idt : Idt) (j : ℕ) → IsVector j → set_idt isr idt j ≡ gate (isr j)
unfolding set_idt
set_idt-IsVector isr idt j (inl fault) =
    entry-other 128 (isr 128) (with_irqs isr idt) j (omega (arith, fault))
    ∙ entries-outside isr 32 16 (set_entries isr 0 22 idt) j (inl (omega (arith, fault)))
    ∙ entries-inside isr 0 22 idt j (omega arith) (omega (arith, fault))
set_idt-IsVector isr idt j (inr (inl irq)) =
    entry-other 128 (isr 128) (with_irqs isr idt) j (omega (arith, irq.1))
    ∙ entries-inside isr 32 16 (set_entries isr 0 22 idt) j irq.0 (omega (arith, irq.1))
set_idt-IsVector isr idt j (inr (inr call)) = rw call (entry-same 128 (isr 128) (with_irqs isr idt))

set_idt-IsOther : (isr : ℕ → ℕ) (idt : Idt) (j : ℕ) → IsOther j → set_idt isr idt j ≡ idt j
unfolding set_idt
set_idt-IsOther isr idt j (inl o) =
    entry-other 128 (isr 128) (with_irqs isr idt) j (omega (arith, o.1))
    ∙ entries-outside isr 32 16 (set_entries isr 0 22 idt) j (inl o.1)
    ∙ entries-outside isr 0 22 idt j (inr o.0)
set_idt-IsOther isr idt j (inr o) =
    entry-other 128 (isr 128) (with_irqs isr idt) j o.1
    ∙ entries-outside isr 32 16 (set_entries isr 0 22 idt) j (inr o.0)
    ∙ entries-outside isr 0 22 idt j (inr (omega (arith, o.0)))

-- After the calls of `kernel_main` the entry of each vector leads to that vector's handler, whose address
-- the processor reads back from the three parts of the entry; every other entry is as it was.
pub set_idt_lem :
    (isr : ℕ → ℕ) (idt : Idt) (j : ℕ)
    → isr j < 2 ^ 64
    → (IsVector j × LeadsTo (set_idt isr idt j) (isr j))
      ⊎ ((¬ IsVector j) × (set_idt isr idt j ≡ idt j))
set_idt_lem isr idt j h = elim (vectors_split j) [
  | inl v ↦ inl (v, rw (set_idt-IsVector isr idt j v) (gate-LeadsTo (isr j) h))
  | inr o ↦ inr (other_vectors j o, set_idt-IsOther isr idt j o)
]
