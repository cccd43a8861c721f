-- ===== src/Boot.antt =====
-- `kernel_main` of src/impl/kernel/main.c, its last part: the memory of the user program.
-- The copy of the program's code into its page and the messages are left out.
pub mod Stack
mod Tests
use keyhole_os.Prelude.{ℕ, zero, suc, ◌+◌, ◌*◌}
use keyhole_os.Pmm.{alloc}
use keyhole_os.Vmm.{Vmm, vmm_map}

-- VMM_PRESENT | VMM_WRITABLE | VMM_USER
abbrev pub user_flags : ℕ
user_flags = 7

abbrev pub code_start : ℕ
code_start = 0x600000

abbrev pub stack_start : ℕ
stack_start = 0x800000

-- a page of `pmm_alloc`, mapped at `virt`
unfoldable pub map_new_page : (virt : ℕ) → Vmm → Vmm
map_new_page virt s =
    let (page, p) = alloc s.pmm in vmm_map virt page user_flags (record s { pmm = p })

-- the loop from round `i` on, with the rounds left
unfoldable pub map_stack : (rounds i : ℕ) → Vmm → Vmm
unfolding map_new_page
map_stack zero i s = s
map_stack (suc n) i s = map_stack n (i + 1) (map_new_page (stack_start + i * 4096) s)

-- The code's page, the first page of the stack, and the loop, which maps that page anew.
unfoldable pub map_user : Vmm → Vmm
unfolding map_stack
map_user s = map_stack 17 0 (map_new_page stack_start (map_new_page code_start s))
