-- ===== src/Server/Index.antt =====
-- The numbers by which clients of code/network/server.cc name a lock, a condition or an array of
-- variables on any of the servers. They stay far below 2 ^ 31 for the few servers of a run.
use usc_cs.Common.{
  ℕ, ◌+◌, ◌-◌, ◌*◌, ◌/◌, ◌<◌, false, none, some, ltb, ◌==◌, if◌then◌else◌, ◌≡◌, ◌≢◌, ◌⊎◌, inl, inr,
  refl, Bool-cases, arith,
}
use usc_cs.Common.Int.{ℤ, pos, negsuc}
use usc_cs.BitMap.{BitMap}
use usc_cs.Server.Operations.{max_server_locks, check_index}

-- The difference of two numbers as an int.
abbrev pub minus : ℕ → ℕ → ℤ
minus a b = if ltb a b then negsuc (b - a - 1) else pos (a - b)

-- encodeIndex on the server `my_machine_id`
abbrev pub encode_index : ℕ → ℕ → ℕ
encode_index my_machine_id internal = my_machine_id * max_server_locks + internal

-- decodeIndex
abbrev pub decode_index : ℕ → ℕ → ℤ
decode_index my_machine_id encoded = minus encoded (my_machine_id * max_server_locks)

-- decodeMachineIDFromLockNumber, and the same for conditions and variables
abbrev pub decode_machine_id : ℕ → ℕ
decode_machine_id number = number / max_server_locks

past_end :
    (map : BitMap) (size : ℕ) (i : ℤ)
    → ((n : ℕ) → i ≡ pos n → ltb n size ≡ false)
    → check_index map size i ≡ some none
unfolding check_index
past_end map size (negsuc n) h = refl
past_end map size (pos n) h = rw (h n refl) refl

-- The number of an entry leads back to the server that gave it, and there to the entry; any other
-- server refuses the number as out of the bounds of its table, so it never takes it for an entry of
-- its own.
pub encode_lem :
    (my_machine_id other internal : ℕ)
    → internal < max_server_locks
    → (decode_machine_id (encode_index other internal) ≡ other)
      × (((my_machine_id ≡ other)
            × (decode_index my_machine_id (encode_index other internal) ≡ pos internal))
          ⊎ ((my_machine_id ≢ other)
              × ((map : BitMap)
                  → check_index map max_server_locks
                      (decode_index my_machine_id (encode_index other internal))
                    ≡ some none)))
encode_lem me other i small = (
  omega arith,
  elim (Bool-cases (me == other)) [
    | inl e ↦ inl (ground arith, ground arith)
    | inr e ↦ inr (λ q. ground arith, λ map. past_end map max_server_locks _ (λ n q. ground arith))
  ],
)
