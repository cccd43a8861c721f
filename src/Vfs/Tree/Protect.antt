-- ===== src/Vfs/Tree/Protect.antt =====
-- `is_protected` in the tree of vfs.c.
use keyhole_os.Prelude.{
  ℕ, zero, suc, ◌<◌, ◌≡◌, ◌≢◌, refl, true, false, some, ◌==◌, List, Bool-cases, inl, inr, ◌⊎◌,
  arith,
}
use keyhole_os.Vfs.{Node, Vfs, get, climb, is_protected, home, root_name}
use keyhole_os.Vfs.Tree.{IsTree, child-live, root_live}
use keyhole_os.Vfs.Tree.Find.{IsEnough, named, find_child-named, named-live}

-- On the way from `c` up to the root stands `home_root`, in front of the root.
pub data IsBelow (v : Vfs) (home_root : ℕ) : ℕ → Type 0 where
  here : {c : ℕ} → c ≢ v.root → c ≡ home_root → IsBelow v home_root c
  above :
      {c : ℕ} (n : Node)
      → c ≢ v.root
      → get v c ≡ some n
      → IsBelow v home_root n.parent
      → IsBelow v home_root c

abbrev pub home_of : Vfs → (ℕ → List ℕ) → ℕ
home_of v cs = named v root_name (cs (named v home (cs v.root)))

-- `/home/root` exists, and `c` is it or lies below it.
abbrev pub IsFree : Vfs → (ℕ → List ℕ) → ℕ → Type 0
IsFree v cs c = (named v home (cs v.root) ≢ 0) × (home_of v cs ≢ 0) × IsBelow v (home_of v cs) c

root-IsBelow : (v : Vfs) (home_root : ℕ) {c : ℕ} → c ≡ v.root → IsBelow v home_root c → ⊥
root-IsBelow v home_root e (here nr h) = nr e
root-IsBelow v home_root e (above n nr at b) = nr e

up-IsBelow :
    (v : Vfs) (home_root : ℕ) {c : ℕ} (n : Node)
    → c ≢ home_root
    → get v c ≡ some n
    → IsBelow v home_root c
    → IsBelow v home_root n.parent
up-IsBelow v home_root n nh at (here nr h) = absurd (nh h)
up-IsBelow v home_root n nh at (above m nr at' b) = let e : m ≡ n = cc in rw (← e) b

module _ {v : Vfs} {cs : ℕ → List ℕ} {depth : ℕ → ℕ} (t : IsTree v cs depth) where
  climb_lem :
      (f home_root c : ℕ) (n : Node)
      → get v c ≡ some n
      → depth c < f
      → ((climb f v home_root c ≡ some false) × IsBelow v home_root c)
        ⊎ ((climb f v home_root c ≡ some true) × ¬ IsBelow v home_root c)
  unfolding climb
  climb_lem zero home_root c n at lt = absurd (omega (arith, lt))
  climb_lem (suc f) home_root c n at lt = elim (Bool-cases (c == v.root)) [
    | inl r ↦ inr (rw r refl, root-IsBelow v home_root (ground (arith, r)))
    | inr nr ↦
        let far : c ≢ v.root = ground (arith, nr) in
        elim (Bool-cases (c == home_root)) [
          | inl h ↦ inl (rw (nr, h) refl, here far (ground (arith, h)))
          | inr nh ↦
              let (m, up) = (child-live t n.parent c (t.down c n at far)).0 in
              let deep = t.deeper c n at far in
              elim (climb_lem f home_root n.parent m up (omega (arith, lt, deep))) [
                | inl (e, b) ↦ inl (rw (nr, nh, at) e, above n far at b)
                | inr (e, nb) ↦ inr (
                  rw (nr, nh, at) e,
                  λ b. nb (up-IsBelow v home_root n (ground (arith, nh)) at b),
                )
              ]
        ]
  ]

  -- With enough fuel `is_protected` of a live node ends, and its answer is false for `/home/root` and what lies
  -- below it, if that directory exists, and true for all else.
  pub is_protected_lem :
      (f c : ℕ) (n : Node)
      → IsEnough f v cs depth
      → get v c ≡ some n
      → ((is_protected f v c ≡ some false) × IsFree v cs c)
        ⊎ ((is_protected f v c ≡ some true) × ¬ IsFree v cs c)
  unfolding is_protected
  is_protected_lem f c n enough at =
      let (top, top_at) = root_live t in
      let h = named v home (cs v.root) in
      let h_found = find_child-named t f v.root top home top_at (enough.room v.root) in
      elim (Bool-cases (h == 0)) [
        | inl z ↦ inr (rw (h_found, z) refl, λ free. free.0 (ground (arith, z)))
        | inr nz ↦ elim (named-live t v.root home) [
          | inl z ↦ absurd (ground (arith, nz, z))
          | inr (m, h_at) ↦
              let r = named v root_name (cs h) in
              let r_found = find_child-named t f h m root_name h_at (enough.room h) in
              elim (Bool-cases (r == 0)) [
                | inl z ↦
                    inr (rw (h_found, r_found, nz, z) refl, λ free. free.1 (ground (arith, z)))
                | inr rz ↦ elim (climb_lem f r c n at (enough.high c n at)) [
                  | inl (e, b) ↦
                      inl (
                        rw (h_found, r_found, nz, rz) e,
                        (ground (arith, nz), ground (arith, rz), b),
                      )
                  | inr (e, nb) ↦ inr (rw (h_found, r_found, nz, rz) e, λ free. nb free.2)
                ]
              ]
        ]
      ]
