-- ===== src/Strings.antt =====
-- src/impl/x86_64/string.c, and `kmemcpy` of src/impl/x86_64/kmemory.c: strings as bytes in memory,
-- ended by a zero. A loop that runs until it meets the zero takes fuel, `none` means that it ran out.
pub mod Text
pub mod Compare
pub mod Copy
pub mod Join
mod Tests
use keyhole_os.Prelude.{
  ℕ, zero, suc, ◌+◌, ◌-◌, Option, none, some, ◌==◌, ltb, if◌then◌else◌, ◌&&◌, not, List,
}
use keyhole_os.Prelude.Int.{ℤ, pos, sub_ℕ}
use keyhole_os.Memory.{Memory, store}

-- `char` is signed on this target: a byte's value as a `char`, plus 128
abbrev pub biased : ℕ → ℕ
biased b = if ltb b 128 then b + 128 else b - 128

-- `*a - *b`
abbrev pub char_diff : ℕ → ℕ → ℤ
char_diff a b = sub_ℕ (biased a) (biased b)

unfoldable pub strcmp : ℕ → Memory → ℕ → ℕ → Option ℤ
strcmp zero m a b = none
strcmp (suc f) m a b =
    let rest = strcmp f m (a + 1) (b + 1) in
    if not (m a == 0) && m a == m b then rest else some (char_diff (m a) (m b))

-- the loop of `strncmp` at index `i`, with the rounds left
strncmp_loop : ℕ → Memory → (a b i : ℕ) → ℤ
strncmp_loop zero m a b i = pos 0
strncmp_loop (suc n) m a b i =
    let rest = strncmp_loop n m a b (i + 1) in
    if m (a + i) == m (b + i)
    then if m (a + i) == 0 then pos 0 else rest
    else char_diff (m (a + i)) (m (b + i))

unfoldable pub strncmp : Memory → (a b n : ℕ) → ℤ
unfolding strncmp_loop
strncmp m a b n = strncmp_loop n m a b 0

strlen_loop : ℕ → Memory → (s i : ℕ) → Option ℕ
strlen_loop zero m s i = none
strlen_loop (suc f) m s i =
    let rest = strlen_loop f m s (i + 1) in if m (s + i) == 0 then some i else rest

unfoldable pub strlen : ℕ → Memory → ℕ → Option ℕ
unfolding strlen_loop
strlen f m s = strlen_loop f m s 0

-- The loops of `strcpy` and, with `len` for the length of `dest`, of `strcat`.
copy_loop : ℕ → Memory → (dest src i : ℕ) → Option Memory
copy_loop zero m dest src i = none
copy_loop (suc f) m dest src i =
    let rest = copy_loop f (store m (dest + i) (m (src + i))) dest src (i + 1) in
    if m (src + i) == 0 then some (store m (dest + i) 0) else rest

unfoldable pub strcpy : ℕ → Memory → (dest src : ℕ) → Option Memory
unfolding copy_loop
strcpy f m dest src = copy_loop f m dest src 0

unfoldable pub strcat : ℕ → Memory → (dest src : ℕ) → Option Memory
unfolding copy_loop
strcat f m dest src = elim (strlen f m dest) [
  | none ↦ none
  | some len ↦ copy_loop f m (dest + len) src 0
]

-- `for (i = 0; i < n && src[i] != 0; i++)`, with the rounds left
strncpy_loop : ℕ → Memory → (dest src i : ℕ) → Memory
strncpy_loop zero m dest src i = store m (dest + i) 0
strncpy_loop (suc n) m dest src i =
    let rest = strncpy_loop n (store m (dest + i) (m (src + i))) dest src (i + 1) in
    if m (src + i) == 0 then store m (dest + i) 0 else rest

unfoldable pub strncpy : Memory → (dest src n : ℕ) → Memory
unfolding strncpy_loop
strncpy m dest src n = strncpy_loop n m dest src 0

memcpy_loop : ℕ → Memory → (dest src i : ℕ) → Memory
memcpy_loop zero m dest src i = m
memcpy_loop (suc n) m dest src i = memcpy_loop n (store m (dest + i) (m (src + i))) dest src (i + 1)

unfoldable pub kmemcpy : Memory → (dest src n : ℕ) → Memory
unfolding memcpy_loop
kmemcpy m dest src n = memcpy_loop n m dest src 0

-- `kmalloc` is a parameter: the block that it gives, and the memory with what it has written there itself.
unfoldable pub strjoin :
    (kmalloc : ℕ → Memory → ℕ × Memory) → ℕ → Memory → (a b : ℕ) → Option (ℕ × Memory)
unfolding kmemcpy strlen
strjoin kmalloc f m a b = elim (strlen f m a) [
  | none ↦ none
  | some len_a ↦ elim (strlen f m b) [
    | none ↦ none
    | some len_b ↦
        let (result, m') = kmalloc (len_a + len_b + 1) m in
        let joined = kmemcpy (kmemcpy m' result a len_a) (result + len_a) b len_b in
        some (result, store joined (result + (len_a + len_b)) 0)
  ]
]
