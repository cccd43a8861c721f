-- ===== src/Ksh/Sudo.antt =====
-- `sudo` in `execute`: the rest of the line is run again, in sudo mode.
use keyhole_os.Prelude.{
  ◌%◌, ◌^◌, ℕ, suc, ◌+◌, ◌*◌, ◌<◌, ◌≡◌, refl, Bool, true, false, some, leb, List, ◌∷◌, length,
  arith, bytes,
}
use keyhole_os.Vfs.{Vfs, same_text}
use keyhole_os.Ksh.{Kernel, tokens, Redirect, find_redirect, join}
use keyhole_os.Ksh.System.{pit_freq}
use keyhole_os.Ksh.Execute.{prepare, execute}
use keyhole_os.Ksh.Tokens.{AreWords, tokens-join}

-- sudo mode for a minute of the timer
abbrev pub as_sudo : Kernel → Kernel
as_sudo k = record k {
  vfs = record k.vfs { sudo_mode = true };
  sudo_expires = (k.ticks + pit_freq * 60) % 2 ^ 64;
}

-- A line of `sudo` and words runs the words before a redirection, split again into the same words, in
-- sudo mode for 6000 ticks, once the line is in the history. The redirection itself is not passed on:
-- the result is the same for each.
pub execute-sudo :
    (f depth : ℕ) (fresh : Vfs → ℕ) (holds : ℕ → Bool) (k k' : Kernel) (words : List (List ℕ))
    (w : List ℕ) (ws : List (List ℕ)) (r : Redirect)
    → AreWords words
    → AreWords (w ∷ ws)
    → find_redirect (bytes "sudo" ∷ words) ≡ (r, bytes "sudo" ∷ w ∷ ws)
    → length (join (w ∷ ws)) < 256
    → prepare f fresh holds (join (bytes "sudo" ∷ words)) k ≡ some k'
    → (execute f fresh holds (suc depth) (join (bytes "sudo" ∷ words)) k
        ≡ execute f fresh holds depth (join (w ∷ ws)) (as_sudo k'))
      × (tokens (join (w ∷ ws)) ≡ w ∷ ws)
unfolding execute same_text
execute-sudo f depth fresh holds k k' words w ws r all h found fits ready =
    let room : leb 256 (length (join (w ∷ ws))) ≡ false = ground arith in
    let many : leb 2 (length (bytes "sudo" ∷ w ∷ ws)) ≡ true = ground arith in
    (
      rw (ready, tokens-join (bytes "sudo" ∷ words) (refl, omega arith, all), found, many, room)
          refl,
      tokens-join (w ∷ ws) h,
    )
