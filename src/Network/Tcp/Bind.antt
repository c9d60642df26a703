-- ===== src/Network/Tcp/Bind.antt =====
-- The port that `tcp_bind` chooses when it is asked for any.
use james_os.Prelude.{
  ℕ, zero, suc, ◌+◌, ◌≤◌, ◌<◌, ◌≡◌, ◌≢◌, ◌⊎◌, refl, List, Option, none, some, ◌==◌, if◌then◌else◌,
  Bool-cases, ==→eq, ==→ne, inl, inr, arith, length, get_or, get_or-set,
}
use james_os.Network.Tcp.{free_port, tcp_bind}

pub free_port-free :
    (pids : List ℕ) (left i : ℕ)
    → free_port pids i left ≢ 0
    → (get_or pids (free_port pids i left) 0 ≡ 0)
      × (i ≤ free_port pids i left)
      × (free_port pids i left < i + left)
unfolding free_port
free_port-free pids zero i h = absurd (h refl)
free_port-free pids (suc n) i h = elim (Bool-cases (get_or pids i 0 == 0)) [
  | inl free ↦ rw free (==→eq _ _ free, omega arith, omega arith)
  | inr taken ↦ rw taken (
      let (a, b, c) = free_port-free pids n (i + 1) (rw taken at h) in
      (a, omega (arith, b), omega (arith, c)))
]

free_port-first :
    (pids : List ℕ) (left i q : ℕ)
    → 0 < i
    → i ≤ q
    → q < i + left
    → (free_port pids i left ≡ 0) ⊎ (q < free_port pids i left)
    → get_or pids q 0 ≢ 0
unfolding free_port
free_port-first pids zero i q pos lo hi h = absurd (omega arith)
free_port-first pids (suc n) i q pos lo hi h = elim (Bool-cases (get_or pids i 0 == 0)) [
  | inl free ↦ absurd (ground (arith, rw free at h))
  | inr taken ↦ elim (Bool-cases (i == q)) [
    | inl same ↦ rw (==→eq i q same) at (==→ne _ _ taken)
    | inr other ↦
        free_port-first pids n (i + 1) q (omega arith) (ground (arith, other)) (omega arith)
          (rw taken at h)
  ]
]

-- What a binding to any port means: the first ephemeral port that no process has is given to the
-- process, and the other ports stay as they are; or there is none.
pub FirstFree : List ℕ → ℕ → Option (ℕ × List ℕ) → Type 0
FirstFree pids pid none = (q : ℕ) → 32768 ≤ q → q ≤ 60999 → get_or pids q 0 ≢ 0
FirstFree pids pid (some (p, pids')) =
    (32768 ≤ p)
    × (p ≤ 60999)
    × (get_or pids p 0 ≡ 0)
    × ((q : ℕ) → 32768 ≤ q → q < p → get_or pids q 0 ≢ 0)
    × ((q : ℕ) → get_or pids' q 0 ≡ (if p == q then pid else get_or pids q 0))

-- `tcp_bind` for port 0 gives the process the first ephemeral port, from 32768 to 60999, that has
-- no process, and changes no other entry of the table; it returns -1 only if all of them are taken.
pub tcp_bind-FirstFree :
    (pids : List ℕ) (pid : ℕ) → length pids ≡ 65535 → FirstFree pids pid (tcp_bind pids pid 0)
unfolding tcp_bind FirstFree
tcp_bind-FirstFree pids pid len = elim (Bool-cases (free_port pids 32768 28232 == 0)) [
  | inl none_free ↦ rw none_free (λ q lo hi.
      free_port-first pids 28232 32768 q (omega arith) lo (omega arith) (inl (==→eq _ _ none_free)))
  | inr found ↦
      let (free, lo, hi) = free_port-free pids 28232 32768 (==→ne _ _ found) in
      rw found (
        lo,
        omega (arith, hi),
        free,
        λ q lo' lt.
            free_port-first pids 28232 32768 q (omega arith) lo' (omega (arith, hi)) (inr lt),
        λ q. get_or-set pids (free_port pids 32768 28232) q pid 0 (omega (arith, hi, len)),
      )
]
