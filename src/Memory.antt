-- ===== src/Memory.antt =====
-- Byte-addressed memory, as C's pointers see it.
use keyhole_os.Prelude.{ℕ, ◌==◌, if◌then◌else◌}

abbrev pub Memory : Type 0
Memory = ℕ → ℕ

-- `*a = b`
abbrev pub store : Memory → ℕ → ℕ → Memory
store m a b c = if c == a then b else m c
