-- ===== src/Idt/Tests.antt =====
-- The theorem about the interrupt gates at the keyboard's vector.
use keyhole_os.Prelude.{ℕ, ◌+◌, ◌*◌, ◌≡◌, ◌⊎◌, arith}
use keyhole_os.Idt.{Idt, set_idt, LeadsTo, IsVector, set_idt_lem}

-- handlers of 16 bytes each, high in memory
abbrev isr : ℕ → ℕ
isr j = 0xFFFFFFFF80000000 + j * 16

abbrev empty : Idt
empty j = record {
  offset_low = 0;
  selector = 0;
  ist = 0;
  type_attr = 0;
  offset_mid = 0;
  offset_high = 0;
  zero_field = 0;
}

set_idt_lem_example :
    (IsVector 33 × LeadsTo (set_idt isr empty 33) (isr 33))
    ⊎ ((¬ IsVector 33) × (set_idt isr empty 33 ≡ empty 33))
set_idt_lem_example = set_idt_lem isr empty 33 (omega arith)
