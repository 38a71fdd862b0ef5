-- ===== src/Seh/Visits.antt =====
-- The frames that a walk with a set of visited frames can still come to, for tew/kernel/seh.py.
use tew.Base.{
  ℕ, zero, suc, ◌+◌, ◌≤◌, ◌<◌, ◌≡◌, ◌==◌, ==_iff, false, if◌then◌else◌, Bool-cases, subst, inl, inr,
  List, ◌∷◌, arith,
}
use tew.Seh.Dispatch.{member}

-- The numbers below `n` that are not in the list.
pub unvisited : ℕ → List ℕ → ℕ
unvisited zero visited = 0
unvisited (suc n) visited = (if member n visited then 0 else 1) + unvisited n visited

pub unvisited-le : (n : ℕ) (visited : List ℕ) → unvisited n visited ≤ n
unfolding unvisited
unvisited-le zero visited = omega arith
unvisited-le (suc n) visited = ground (arith, unvisited-le n visited)

unvisited-above :
    (n frame : ℕ) (visited : List ℕ)
    → n ≤ frame
    → unvisited n (frame ∷ visited) ≡ unvisited n visited
unfolding unvisited
unvisited-above zero frame visited h = omega arith
unvisited-above (suc n) frame visited h = ground (arith, unvisited-above n frame visited)

-- A visit leaves one frame less.
pub unvisited-visit :
    (n frame : ℕ) (visited : List ℕ)
    → frame < n
    → member frame visited ≡ false
    → unvisited n (frame ∷ visited) + 1 ≡ unvisited n visited
unfolding unvisited
unvisited-visit zero frame visited h new = elim h [ ]
unvisited-visit (suc n) frame visited h new = elim (Bool-cases (frame == n)) [
  | inl here ↦
      let same : frame ≡ n = (==_iff frame n).0 here in
      let rest = unvisited-above n frame visited (omega (arith, same)) in
      let absent : member n visited ≡ false = subst (λ k. member k visited ≡ false) same new in
      ground (arith, here, rest, absent)
  | inr other ↦
      let rest = unvisited-visit n frame visited (ground arith) new in ground (arith, rest)
]
