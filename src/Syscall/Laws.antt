-- ===== src/Syscall/Laws.antt =====
-- What the system calls do to the screen.
use keyhole_os.Prelude.{
  ℕ, zero, suc, ◌+◌, ◌≡◌, ◌≢◌, ◌<◌, ◌^◌, refl, ap, ◌∙◌, true, false, ◌==◌, List, [], ◌∷◌, length,
  Bool-cases, inl, inr, arith, ltb,
}
use keyhole_os.Prelude.Int.{pos, negsuc}
use keyhole_os.Memory.{Memory}
use keyhole_os.Console.{Screen, print_char, print_chars, print_int}
use keyhole_os.Console.Bounds.{IsValid, SameBehind, print_char-IsValid, print_str-IsValid}
use keyhole_os.Console.Numbers.{print_int_lem}
use keyhole_os.Syscall.{Outcome, returns, halts, write_bytes, handle_syscall, exit_text}

-- From `str` on stand the bytes `xs`.
abbrev pub Holds : Memory → ℕ → List ℕ → Type 0
Holds m str [] = Unit {0}
Holds m str (x ∷ xs) = (m str ≡ x) × Holds m (str + 1) xs

write_bytes_lem :
    (m : Memory) (str i : ℕ) (xs : List ℕ) (s : Screen)
    → Holds m (str + i) xs
    → write_bytes (length xs) m str i s ≡ print_chars xs s
unfolding write_bytes print_chars
write_bytes_lem m str i [] s h = refl
write_bytes_lem m str i (x ∷ xs) s h =
    let e : str + i + 1 ≡ str + (i + 1) = omega arith in
    ap (λ c. write_bytes (length xs) m str (i + 1) (print_char c s)) h.0
    ∙ write_bytes_lem m str (i + 1) xs (print_char x s) (rw e at (h.1))

-- the screen after a call
pub screen_of : Outcome → Screen
screen_of (returns r s) = s
screen_of (halts s) = s

abbrev pub IsSafe : Screen → Screen → Type 0
IsSafe s s' = IsValid s' × SameBehind s.buffer s'.buffer

write_bytes-IsSafe :
    (n : ℕ) (m : Memory) (str i : ℕ) {s : Screen} → IsValid s → IsSafe s (write_bytes n m str i s)
unfolding write_bytes
write_bytes-IsSafe zero m str i v = (v, λ j h. refl)
write_bytes-IsSafe (suc n) m str i v =
    let p = print_char-IsValid (m (str + i)) v in
    let r = write_bytes-IsSafe n m str (i + 1) p.0 in (r.0, λ j h. r.1 j h ∙ p.1 j h)

print_int_zero : (s : Screen) → print_int 0 s ≡ print_char b'0' s
unfolding print_int
print_int_zero s = refl

print_int-IsSafe : (n : ℕ) {s : Screen} → n < 2 ^ 64 → IsValid s → IsSafe s (print_int n s)
print_int-IsSafe n {s} h v = elim (Bool-cases (n == 0)) [
  | inl z ↦ let e : n ≡ 0 = ground arith in rw (e, print_int_zero s) (print_char-IsValid b'0' v)
  | inr nz ↦
      let printed = print_int_lem n s (ground arith) h in
      let r = print_str-IsValid printed.0 v in rw printed.1 (r.0, r.1)
]

-- `sys_write` to file 1 of a length below 2 ^ 63 prints the bytes that memory holds at the buffer, no
-- zero among them ending it, and answers their number. Any other file, and any number of a call but 1
-- and 60, is answered -1 with the screen as it was.
pub handle_syscall_lem :
    (print_prompt : Screen → Screen) (m : Memory) (buf : ℕ) (xs : List ℕ) (s : Screen)
    → Holds m buf xs
    → length xs < 2 ^ 63
    → (handle_syscall print_prompt m 1 1 buf (length xs) s
        ≡ returns (pos (length xs)) (print_chars xs s))
      × ((fd len : ℕ)
          → fd ≢ 1
          → handle_syscall print_prompt m 1 fd buf len s ≡ returns (negsuc 0) s)
      × ((num fd len : ℕ)
          → num ≢ 1
          → num ≢ 60
          → handle_syscall print_prompt m num fd buf len s ≡ returns (negsuc 0) s)
unfolding handle_syscall
handle_syscall_lem print_prompt m buf xs s h lt =
    let e : buf ≡ buf + 0 = omega arith in
    let short : ltb (length xs) (2 ^ 63) ≡ true = ground arith in
    (
      rw (write_bytes_lem m buf 0 xs s (rw e at h), short) refl,
      λ fd len ne. (let other : (fd == 1) ≡ false = ground arith in rw other refl),
      λ num fd len n1 n60.
          (let a : (num == 1) ≡ false = ground arith in
            let b : (num == 60) ≡ false = ground arith in rw (a, b) refl),
    )

-- No system call, whatever its 64-bit arguments, takes the cursor off the screen or writes behind its cells,
-- if the prompt does not.
pub handle_syscall-IsSafe :
    (print_prompt : Screen → Screen)
    → ((s : Screen) → IsValid s → IsSafe s (print_prompt s))
    → (m : Memory) (num arg1 arg2 arg3 : ℕ) {s : Screen} → arg1 < 2 ^ 64
    → IsValid s
    → IsSafe s (screen_of (handle_syscall print_prompt m num arg1 arg2 arg3 s))
unfolding handle_syscall screen_of
handle_syscall-IsSafe print_prompt prompt m num arg1 arg2 arg3 {s} h v =
    elim (Bool-cases (num == 60)) [
      | inl exit ↦
          let a = print_str-IsValid exit_text v in
          let b = print_int-IsSafe arg1 h a.0 in
          let c = print_char-IsValid 10 b.0 in
          let d = prompt _ c.0 in rw exit (d.0, λ j h. d.1 j h ∙ c.1 j h ∙ b.1 j h ∙ a.1 j h)
      | inr other ↦ elim (Bool-cases (num == 1)) [
        | inl write ↦ elim (Bool-cases (arg1 == 1)) [
          | inl out ↦ rw (other, write, out) (write_bytes-IsSafe arg3 m arg2 0 v)
          | inr other_file ↦ rw (other, write, other_file) (v, λ j h. refl)
        ]
        | inr none_such ↦ rw (other, none_such) (v, λ j h. refl)
      ]
    ]
