-- ===== src/Tss/Tests.antt =====
-- The theorem about the task state segment at an address above the first four gigabytes.
use keyhole_os.Prelude.{◌+◌, ◌/◌, ◌≡◌, arith}
use keyhole_os.Tss.{
  Tasks, tss_init, tss_size, tss_install, base_of, limit_of, access_of, tss_install_lem,
}

abbrev before : Tasks
before = record { tss = tss_init 0; gdt = λ j. j; task_register = 0 }

tss_install_lem_example :
    let t' = tss_install 0x123456789A0 0x9000 before in
    let low = t'.gdt (t'.task_register / 8) in
    let high = t'.gdt (t'.task_register / 8 + 1) in
    (base_of low high ≡ 0x123456789A0)
    × (limit_of low + 1 ≡ tss_size)
    × (access_of low ≡ 0x89)
    × (t'.tss.rsp0 ≡ 0x9000)
    × (t'.tss.iopb_offset ≡ limit_of low + 1)
    × (t'.gdt 2 ≡ before.gdt 2)
tss_install_lem_example =
    tss_install_lem 0x123456789A0 0x9000 before 2 (omega arith) (omega arith) (omega arith)
