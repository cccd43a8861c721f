-- ===== src/Boot/Stack.antt =====
-- The user program's memory: which addresses `kernel_main` maps for it.
use keyhole_os.Prelude.{
  ℕ, ◌+◌, ◌/◌, ◌%◌, ◌<◌, ◌≤◌, ◌≡◌, ◌≢◌, ◌==◌, Bool-cases, inl, inr, ◌⊎◌, arith,
}
use keyhole_os.Pmm.{Pmm}
use keyhole_os.Pmm.Pages.{used, used-lt}
use keyhole_os.Vmm.{Vmm, vmm_get_phys}
use keyhole_os.Vmm.Descent.{IsTree}
use keyhole_os.Vmm.Entry.{page_of}

-- a page of memory stands behind the address, but not the one at 0: it was free, and is in use now
abbrev pub IsBacked : (w : ℕ) (s s' : Vmm) → Type 0
IsBacked w s s' =
    (frame : ℕ) × (frame ≢ 0)
    × (frame % 4096 ≡ 0)
    × (used s.pmm (frame / 4096) ≡ 0)
    × (used s'.pmm (frame / 4096) ≡ 1)
    × (vmm_get_phys w s' ≡ frame + w % 4096)

-- the page of memory behind an address
abbrev pub frame_of : (w : ℕ) → Vmm → ℕ
frame_of w s = vmm_get_phys w s / 4096

-- What steps that map pages do: the pages given are backed, no two of them by the same page of memory, no page that
-- was in use is given away, and only the pages touched are translated anew.
pub record Mapped (given touched : ℕ → Type 0) (s s' : Vmm) : Type 0 where
  pub tree : IsTree s'
  pub backed : (w : ℕ) → given w → IsBacked w s s'
  pub apart : (w u : ℕ) → given w → given u → page_of w ≢ page_of u → frame_of w s' ≢ frame_of u s'
  pub other : (w : ℕ) → ¬ touched w → vmm_get_phys w s' ≡ vmm_get_phys w s
  pub taken_kept : (q : ℕ) → used s.pmm q ≡ 1 → used s'.pmm q ≡ 1

abbrev IsOn : (virt w : ℕ) → Type 0
IsOn virt w = page_of w ≡ page_of virt

-- One mapping after another, which leaves the pages given before alone.
module _ {A B TA TB : ℕ → Type 0} (s s1 s2 : Vmm) (v : IsTree s) (a : Mapped A TA s s1)
    (b : Mapped B TB s1 s2) (alone : (w : ℕ) → A w → ¬ TB w) where
  after : (w : ℕ) → B w → IsBacked w s s2
  after w g =
      let (frame, ne, whole, free, taken, at) = b.backed w g in
      let was_free : used s.pmm (frame / 4096) ≡ 0 =
        elim (Bool-cases (used s.pmm (frame / 4096) == 1)) [
          | inl one ↦
              let later = a.taken_kept (frame / 4096) (ground (arith, one)) in
              absurd (omega (arith, later, free))
          | inr not_one ↦ ground (arith, not_one, used-lt (frame / 4096) v.pages)
        ] in
      (frame, ne, whole, was_free, taken, at)

-- the pages of the stack from number `i` on, `n` of them
abbrev pub IsInStack : (n i w : ℕ) → Type 0
IsInStack n i w = (0x800 + i ≤ page_of w) × (page_of w < 0x800 + i + n)

-- the pages that the program is given: its code's and those of its stack
abbrev pub IsUser : (w : ℕ) → Type 0
IsUser w = (page_of w ≡ 0x600) ⊎ IsInStack 17 0 w
