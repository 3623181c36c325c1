-- ===== src/Clients/Entries.antt =====
-- SET_MV and GET_MV messages (code/network/server.cc) from the bytes of the request to those of the answer.
use usc_cs.Common.{ℕ, ◌-◌, ◌^◌, ◌≡◌, ◌⊎◌, inl, inr, refl, ◌∙◌, true, some, [], ◌∷◌, ◌++◌}
use usc_cs.Common.Int.{ℤ, minus_one}
use usc_cs.Server.Operations.{check_index}
use usc_cs.Server.Variables.{Variables, Sized, NoEntry, inside, set_then_get}
use usc_cs.Peers.Messages.{Packet, int_at}
use usc_cs.Peers.Bytes.{int_at-word}
use usc_cs.Clients.{
  Host, arg, client, internal_index, is_mine, response, with_variables, drain, answered, on_get_mv,
  on_set_mv,
}
use usc_cs.Clients.Numbers.{of_int-to_int, response-int}

-- A client writes an entry of a variable of this server, and a client, the same or another one, reads
-- it: neither message fails. Where the entry exists, the answer to the second one holds the int that
-- the first one carried, bit for bit; where there is no such entry, it holds -1. Both answers go to their senders, behind
-- those that were still waiting to be sent.
pub set_mv_then_get_mv :
    (h : Host) (p q : Packet) (blank blank' : ℕ → ℕ)
    → Sized h.variables
    → is_mine h.my_machine_id (arg 1 p) ≡ true
    → int_at 1 q.bytes ≡ int_at 1 p.bytes
    → int_at 5 q.bytes ≡ int_at 5 p.bytes
    → let index = internal_index h.my_machine_id (arg 1 p) in
      (v : Variables) × (value : ℤ) × (on_set_mv p blank h
        ≡ some (
          drain h.my_machine_id blank h.server.responses
              ++ response h.my_machine_id blank (client p) minus_one ∷ [],
          answered (with_variables v h),
        ))
      × (on_get_mv q blank' (answered (with_variables v h))
          ≡ some (
            response h.my_machine_id blank' (client q) value ∷ [],
            answered (with_variables v h),
          ))
      × (((n : ℕ) × (check_index h.variables.mv_map h.variables.mv_array_size index ≡ some (some n))
            × (inside (h.variables.mv_table n) (arg 5 p) ≡ true)
            × (int_at 0 (response h.my_machine_id blank' (client q) value).bytes
                ≡ int_at 9 p.bytes))
          ⊎ (NoEntry h.variables index (arg 5 p)
              × (int_at 0 (response h.my_machine_id blank' (client q) value).bytes ≡ 2 ^ 32 - 1)))
unfolding on_get_mv on_set_mv
set_mv_then_get_mv h p q blank blank' ok mine same_number same_entry =
    let index = internal_index h.my_machine_id (arg 1 p) in
    let (v, written, ok', read) = set_then_get h.variables index (arg 5 p) (arg 9 p) ok in
    elim read [
      | inl (n, valid, in_array, back, entries, others) ↦ (
        v,
        arg 9 p,
        simp (mine, written) refl,
        simp (same_number, same_entry, mine, back) refl,
        inl (
          n,
          valid,
          in_array,
          response-int h.my_machine_id blank' (client q) (arg 9 p)
              ∙ of_int-to_int (int_at 9 p.bytes) (int_at-word 9 p.bytes),
        ),
      )
      | inr (no_entry, refused, others) ↦ (
        v,
        minus_one,
        simp (mine, written) refl,
        simp (same_number, same_entry, mine, refused) refl,
        inr (no_entry, response-int h.my_machine_id blank' (client q) minus_one),
      )
    ]
