-- ===== src/Lib.antt =====
-- KeyholeOS, a small kernel for x86-64 in C. Its parts under src/impl/x86_64 and how they
-- interact: the page allocator (pmm.c) counts the free physical pages; the kernel heap
-- (kmemory.c) keeps a list of blocks above 0x1000000 and takes pages from the page allocator
-- through the page tables (vmm.c); the strings (string.c) work on zero-ended bytes; the console
-- (print.c) draws into the text buffer of the display; the file system (vfs.c) keeps a tree of
-- nodes in the kernel heap and compares names with the strings; the shell and the keyboard
-- (src/impl/kernel/main.c) call all of them.
--
-- Which file models which part:
-- - Prelude: what the other files share. Byte: the bits of a byte. Memory: memory by address.
-- - Pmm: pmm.c. `Pmm` holds `bitmap`, `total_pages` and `used_pages`; `init`, `free_region`,
--   `reserve_region`, `alloc` and `free` are the functions `pmm_*`; Pmm.Setup has `setup`, which
--   walks the tags of the boot loader, and Pmm.Setup.Walk its proofs.
-- - Strings: string.c over byte memory, with `kmemcpy` of kmemory.c; `strjoin` has `kmalloc` as
--   a parameter.
-- - Kmemory: kmemory.c. A block's header is a record at its address; `PageSource` is what
--   `kmalloc` calls of pmm.c and vmm.c. Kmemory.Cells is the list of blocks that the linked ones
--   stand for, on which `first_fit` and `release` say what `kmalloc` and `kfree` do.
-- - Console: print.c, with `Screen` for its variables and the writes of the cursor's position.
-- - Vfs, Vfs.Calls: vfs.c. `Vfs` holds the nodes by address, `root`, `current_dir` and
--   `sudo_mode`; the functions have the names of vfs.c. Vfs.Remove has `vfs_rm_recursive` and
--   `vfs_rm_r`, Vfs.Move `vfs_mv`, `vfs_cp` and `vfs_cp_r`, Vfs.Pwd `vfs_pwd`, Vfs.Init
--   `init_filesystem`, and Vfs.Sample a tree that the tests share.
--   Vfs.Tree has the lists of children and the depths that the links stand for, and its children
--   the proofs that the calls keep them: Find, Protect and Paths for what is looked up, Links, Grow,
--   Add and Create for new nodes, Cut, Unlink and Remove for those that go, Write for data, Start for the
--   root alone, and Run, Run.Steps and Run.Reach for one call after another (but `vfs_mv`, which can
--   make a cycle, and `vfs_cp`, whose target can be too long for the buffers).
-- - Keyboard: the branch of `interrupt_handler` in src/impl/kernel/main.c for interrupt 33, over
--   `Shell`, what it calls of the console, the shell and the interrupt controller.
-- - Syscall: syscall.c; `print_prompt` is a parameter. Syscall.Init has `syscall_init`, over the
--   model-specific registers by number, and Syscall.Prompt is about the kernel's own prompt.
-- - Word: the laws of `|` and of shifts on words. Vmm: vmm.c over the page allocator, with the page
--   tables as words by the address of their page. Vmm.Descent, Vmm.Table, Vmm.Level, Vmm.Entry and
--   Vmm.Map are the proofs, from the way a translation takes to the two calls; Vmm.Blank has the tables
--   with no entry.
-- - Ksh: the shell, `execute` of src/impl/kernel/main.c: the words and the redirection of its line.
--   Ksh.Print, Ksh.Files, Ksh.Listing and Ksh.System have its commands and `print_prompt`, and
--   Ksh.Execute puts them together. Ksh.Tokens, Ksh.Redirected, Ksh.Sudo and Ksh.Depth are the
--   proofs.
-- - Idt: the interrupt gates of src/impl/kernel/main.c, `idt_set_entry` and its calls in
--   `kernel_main`, as `set_idt`. Tss: tss.c, with `gdt64` as words and the task register as a field.
-- - Boot: the end of `kernel_main`, which gives the user program its memory, over pmm.c and vmm.c, and
--   Boot.Stack the proofs.
-- - Interrupts: `interrupt_handler` of src/impl/kernel/main.c and pic.c. `kernel_shell` fills `Shell` with
--   the console, the file system and the shell of this kernel.
--
-- Bounds and fuel: a 64-bit number wraps at 2 ^ 64, an `int` is a number in the range the code
-- uses it in. A loop over linked blocks, nodes or memory has fuel and gives `none` without
-- enough; one more than the number of blocks or of bytes is what such a loop takes. In the file system
-- and the shell `none` is also a NULL that is followed and a text that does not fit its buffer. The
-- depth of `execute` is one more than the number of words of the line, since `sudo` calls it
-- with a word less.
--
-- Not modelled: the assembly; `vmm_init` and `kernel_main` but for the interrupt gates and the memory
-- of the user program, which are calls and writes of ports in a row; `cmd_reboot`, whose outcome is that the
-- machine is stopped. Memory is one store in string.c, in `pmm_setup` (the tags and the bitmap) and where
-- `make_table` clears a page (the tables and the bitmap); elsewhere the parts keep theirs apart. The copy of
-- the user program's code is left out. The kernel heap's work for the shell and the file system is not followed: a new
-- node has an address that the caller of the model gives.
pub mod Prelude
pub mod Byte
pub mod Memory
pub mod Pmm
pub mod Strings
pub mod Kmemory
pub mod Console
pub mod Vfs
pub mod Syscall
pub mod Keyboard
pub mod Word
pub mod Vmm
pub mod Ksh
pub mod Idt
pub mod Tss
pub mod Interrupts
pub mod Boot
