-- ===== src/Clients/Numbers.antt =====
-- The ints of messages (code/network/server.cc) as numbers with a sign.
use usc_cs.Common.{ℕ, ◌^◌, ◌<◌, ◌≡◌, inl, inr, ltb, Bool-cases, arith}
use usc_cs.Common.Int.{ℤ, pos, negsuc}
use usc_cs.Server.{ClientRequest}
use usc_cs.Peers.Messages.{int_at}
use usc_cs.Peers.Bytes.{int_at-put_int}
use usc_cs.Clients.{to_int, of_int, response}

pub of_int-to_int : (w : ℕ) → w < 2 ^ 32 → of_int (to_int w) ≡ w
of_int-to_int w h = elim (Bool-cases (ltb w (2 ^ 31))) [
  | inl low ↦ rw low (omega arith)
  | inr high ↦ rw high (omega arith)
]

of_int-word : (z : ℤ) → of_int z < 2 ^ 32
of_int-word (pos n) = omega arith
of_int-word (negsuc n) = omega arith

-- The int that a client reads in the answer.
pub response-int :
    (me : ℕ) (blank : ℕ → ℕ) (to : ClientRequest) (z : ℤ)
    → int_at 0 (response me blank to z).bytes ≡ of_int z
response-int me blank to z = int_at-put_int 0 (of_int z) blank (of_int-word z)
