-- ===== src/Server/Conditions.antt =====
-- The operations on condition variables of code/network/server.cc.
use usc_cs.Common.{
  ℕ, zero, suc, true, not, ◌&&◌, Option, none, some, List, [], ◌∷◌, ◌++◌, if◌then◌else◌, ◌>>=◌, put,
}
use usc_cs.Common.Int.{ℤ, pos, negsuc}
use usc_cs.Server.{
  ClientRequest, Answer, ServerCondition, condition_wait, condition_signal, some_waiting,
}
use usc_cs.Server.Operations.{Server, check_index, check_lower, clear_condition}

-- ServerDestroyCV
abbrev pub destroy_cv_valid : Option ℕ → Server → Option Server
destroy_cv_valid none s = some s
destroy_cv_valid (some n) s =
    let e = s.condition_table n in
    if not (some_waiting e.condition.queue)
    then clear_condition n s
    else some (record s {
      condition_table = put s.condition_table n (record e { is_to_be_deleted = true });
    })

unfoldable pub server_destroy_cv : ℤ → Server → Option Server
server_destroy_cv i s = do
  r ← check_index s.condition_map s.condition_array_size i
  destroy_cv_valid r s

abbrev pub put_condition : ℕ → ServerCondition → Server → Server
put_condition n c s = record s {
  condition_table = put s.condition_table n (record (s.condition_table n) { condition = c });
}

-- ServerSignal, with its test of the lock number: the answer is `none` for NULL.
abbrev pub signal_at : ClientRequest → ℕ → ℤ → Server → Server × Option Answer
signal_at cr n (negsuc k) s = (s, none)
signal_at cr n (pos k) s =
    let (answer, c) = condition_signal (pos k) cr (s.condition_table n).condition in
    (put_condition n c s, some answer)

abbrev pub signal_valid : ClientRequest → ℤ → Option ℕ → Server → Server × Option Answer
signal_valid cr k none s = (s, none)
signal_valid cr k (some n) s = signal_at cr n k s

unfoldable pub server_signal : ClientRequest → ℤ → ℤ → Server → Option (Server × Option Answer)
server_signal cr i k s = do
  r ← check_index s.condition_map s.condition_array_size i
  some (signal_valid cr k r s)

-- ServerWait. It drops the answer of ServerCondition::Wait.
abbrev pub wait_valid : ClientRequest → ℤ → Option ℕ → Server → Option Server
wait_valid cr k none s = some s
wait_valid cr k (some n) s =
    let (answer, c) = condition_wait k cr (s.condition_table n).condition in
    let s' = put_condition n c s in
    if (s.condition_table n).is_to_be_deleted && not (some_waiting c.queue)
    then clear_condition n s'
    else some s'

unfoldable pub server_wait : ClientRequest → ℤ → ℤ → Server → Option Server
server_wait cr i k s = do r ← check_lower s.condition_map i; wait_valid cr k r s

-- The loop of ServerBroadcast: while somebody waits, Signal once and remember whom to answer. `none`
-- where the loop has not ended within the rounds.
unfoldable pub signal_all :
    ℕ
    → ClientRequest
    → ℤ
    → ServerCondition
    → List ClientRequest
    → Option (ServerCondition × List ClientRequest)
signal_all zero cr k c out = if some_waiting c.queue then none else some (c, out)
signal_all (suc rounds) cr k c out =
    let (answer, c') = condition_signal k cr c in
    let rest = signal_all rounds cr k c' (out ++ answer.to ∷ []) in
    if some_waiting c.queue then rest else some (c, out)

abbrev pub broadcast_valid : ℕ → ClientRequest → ℤ → Option ℕ → Server → Option Server
broadcast_valid rounds cr k none s = some s
broadcast_valid rounds cr k (some n) s = do
  (c, out) ← signal_all rounds cr k (s.condition_table n).condition s.responses
  some (record (put_condition n c s) { responses = out })

-- ServerBroadcast, for at most `rounds` rounds of its loop
unfoldable pub server_broadcast : ℕ → ClientRequest → ℤ → ℤ → Server → Option Server
server_broadcast rounds cr i k s = do
  r ← check_lower s.condition_map i
  broadcast_valid rounds cr k r s
