-- ===== src/Server/Broadcasts.antt =====
-- The loop of ServerBroadcast (code/network/server.cc).
use usc_cs.Common.{
  ℕ, zero, suc, ◌≤◌, true, false, none, some, List, [], ◌∷◌, ◌++◌, if◌then◌else◌, ◌≡◌, refl, ◌∙◌,
  ap, length, arith,
}
use mathlib.Core.List.{append_assoc, append-nil}
use usc_cs.Common.Int.{ℤ, minus_one}
use usc_cs.Server.{
  ClientRequest, ServerCondition, same_int, some_waiting, condition_signal, take_first,
}
use usc_cs.Server.Conditions.{signal_all}

-- What the loop has to know while `q` waits: with somebody waiting, the condition remembers `k`.
abbrev Remembers : ℤ → List ClientRequest → ServerCondition → Type 0
Remembers k [] c = c.queue ≡ []
Remembers k (cr ∷ q) c = (c.queue ≡ cr ∷ q) × (same_int c.waiting_lock k ≡ true)

signal_first :
    (k : ℤ) (cr first : ClientRequest) (q : List ClientRequest) (c : ServerCondition)
    → c.queue ≡ first ∷ q
    → same_int c.waiting_lock k ≡ true
    → condition_signal k cr c ≡ (
      record { to = first; respond = true },
      record c { queue = q; waiting_lock = if some_waiting q then c.waiting_lock else minus_one },
    )
unfolding condition_signal
signal_first k cr first q c e right = ap (λ q. take_first k cr q c) e ∙ rw right refl

signal_all_lem :
    (q : List ClientRequest) (rounds : ℕ) (cr : ClientRequest) (k : ℤ) (c : ServerCondition)
    (out : List ClientRequest)
    → length q ≤ rounds
    → Remembers k q c
    → (c' : ServerCondition) × (signal_all rounds cr k c out ≡ some (c', out ++ q))
      × (c'.queue ≡ [])
unfolding signal_all
signal_all_lem [] zero cr k c out enough e = (c, rw (e, append-nil out) refl, e)
signal_all_lem [] (suc rounds) cr k c out enough e = (c, rw (e, append-nil out) refl, e)
signal_all_lem (first ∷ q) zero cr k c out enough h = absurd (omega arith)
signal_all_lem (first ∷ q) (suc rounds) cr k c out enough (e, right) =
    let c' = record c {
      queue = q;
      waiting_lock = if some_waiting q then c.waiting_lock else minus_one;
    } in
    let (end, run, empty) =
      signal_all_lem q rounds cr k c' (out ++ first ∷ []) (omega arith) (next q) in
    (
      end,
      rw (ap some_waiting e, signal_first k cr first q c e right) run
          ∙ ap (λ l. some (end, l)) (append_assoc out (first ∷ []) q),
      empty,
    )
  where
    next :
        (r : List ClientRequest)
        → Remembers k r (record c {
          queue = r;
          waiting_lock = if some_waiting r then c.waiting_lock else minus_one;
        })
    next [] = refl
    next (x ∷ r) = (refl, right)

-- The loop of ServerBroadcast, called with the lock number that the condition remembers, ends within
-- as many rounds as clients wait: all of them get an answer, in the order in which they came, and
-- nobody waits any more.
pub signal_all_ends :
    (cr : ClientRequest) (k : ℤ) (c : ServerCondition) (out : List ClientRequest)
    → same_int c.waiting_lock k ≡ true
    → (c' : ServerCondition) × (signal_all (length c.queue) cr k c out ≡ some (c', out ++ c.queue))
      × (c'.queue ≡ [])
signal_all_ends cr k c out right =
    signal_all_lem c.queue (length c.queue) cr k c out (omega arith) (start c.queue refl)
  where
    start : (q : List ClientRequest) → c.queue ≡ q → Remembers k q c
    start [] e = e
    start (x ∷ q) e = (e, right)

-- Called with another lock number while somebody waits, that loop does not end: Signal refuses every
-- time and changes nothing, so no number of rounds is enough.
pub signal_all_diverges :
    (rounds : ℕ) (cr : ClientRequest) (k : ℤ) (c : ServerCondition) (out : List ClientRequest)
    → some_waiting c.queue ≡ true
    → same_int c.waiting_lock k ≡ false
    → signal_all rounds cr k c out ≡ none
unfolding signal_all condition_signal
signal_all_diverges zero cr k c out waiting wrong = rw waiting refl
signal_all_diverges (suc rounds) cr k c out waiting wrong =
    rw (waiting, refused c.queue waiting)
      (signal_all_diverges rounds cr k c (out ++ cr ∷ []) waiting wrong)
  where
    refused :
        (q : List ClientRequest)
        → some_waiting q ≡ true
        → take_first k cr q c ≡ (record { to = cr; respond = false }, c)
    refused [] w = cc
    refused (x ∷ q) w = rw wrong refl
