-- ===== src/Improv/Read/Progress.antt =====
-- `improv_read` takes bytes off the line.
use rigcontrol.Common.{ℕ, suc, ◌≤◌, arith, [], ◌∷◌, Bytes, length}
use rigcontrol.Improv.Read.{
  Reader, Next, more, returns, restarts, Outcome, returned, restarted, read_byte, read_loop, start,
  improv_read,
}

-- The line that an outcome leaves is no longer than `n`.
abbrev pub LeavesAtMost : ℕ → Outcome → Type 0
LeavesAtMost n (returned e r rest) = length rest ≤ n
LeavesAtMost n (restarted r) = Unit

LeavesAtMost-weaken : (n m : ℕ) (o : Outcome) → n ≤ m → LeavesAtMost n o → LeavesAtMost m o
LeavesAtMost-weaken n m (returned e r rest) h k = omega arith
LeavesAtMost-weaken n m (restarted r) h k = tt

go_on : Bytes → Next → Outcome
go_on line n = elim n [
  | more r' ↦ read_loop r' line
  | returns e r' ↦ returned e r' line
  | restarts r' ↦ restarted r'
]

go_on-LeavesAtMost :
    (line : Bytes)
    → ((r : Reader) → LeavesAtMost (length line) (read_loop r line))
    → (n : Next) → LeavesAtMost (length line) (go_on line n)
unfolding go_on
go_on-LeavesAtMost line ih (more r) = ih r
go_on-LeavesAtMost line ih (returns e r) = omega arith
go_on-LeavesAtMost line ih (restarts r) = tt

read_loop-LeavesAtMost : (line : Bytes) (r : Reader) → LeavesAtMost (length line) (read_loop r line)
unfolding read_loop go_on
read_loop-LeavesAtMost [] r = omega arith
read_loop-LeavesAtMost (c ∷ line) r =
    LeavesAtMost-weaken (length line) (suc (length line)) (go_on line (read_byte r c)) (omega arith)
      (go_on-LeavesAtMost line (λ r'. read_loop-LeavesAtMost line r') (read_byte r c))

pub improv_read-LeavesAtMost :
    (buf : Bytes) (count c : ℕ) (line : Bytes)
    → LeavesAtMost (length line) (improv_read buf count (c ∷ line))
unfolding improv_read read_loop go_on
improv_read-LeavesAtMost buf count c line =
    go_on-LeavesAtMost line (λ r'. read_loop-LeavesAtMost line r') (read_byte (start buf count) c)
