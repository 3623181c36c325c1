-- ===== src/Server/Tests.antt =====
-- A server of code/network/server.cc with a few locks, waiters and variables.
use usc_cs.Common.{
  ℕ, zero, suc, ◌<◌, true, false, none, some, [], ◌∷◌, ◌≡◌, ◌≢◌, ◌⊎◌, inl, inr, refl, replicate,
  arith,
}
use usc_cs.Common.Int.{pos, minus_one}
use usc_cs.BitMap.Bits.{used, AllWords}
use usc_cs.Kernel.{busy}
use usc_cs.Server.{
  ClientRequest, ServerLock, ServerCondition, new_server_lock, new_server_condition,
}
use usc_cs.Server.Operations.{Server, max_server_locks, server_create_lock, lock_names, check_index}
use usc_cs.Server.Conditions.{signal_all}
use usc_cs.Server.Variables.{
  Elsewhere, NoEntry, Variables, Sized, set_then_get, server_set_mv, server_get_mv, inside, filled,
}
use usc_cs.Server.Objects.{LockOk, is_owned}
use usc_cs.Server.Creation.{create_lock_named}
use usc_cs.Server.Broadcasts.{signal_all_ends, signal_all_diverges}

abbrev client : ℕ → ClientRequest
client n = record { machine_id = n; mailbox_number = 1 }

-- Client 1 owns the lock, client 2 waits.
abbrev wanted : ServerLock
wanted = record {
  name = 5;
  state = busy;
  queue = client 2 ∷ [];
  current_client_request = some (client 1);
}

wanted-LockOk : LockOk wanted
wanted-LockOk = is_owned (client 1) refl refl

-- Clients 2 and 4 wait with the lock number 7.
abbrev crowded : ServerCondition
crowded = record { name = 3; queue = client 2 ∷ client 4 ∷ []; waiting_lock = pos 7 }

signal_all_ends_example :
    (c' : ServerCondition) × (signal_all 2 (client 1) (pos 7) crowded []
      ≡ some (c', client 2 ∷ client 4 ∷ []))
    × (c'.queue ≡ [])
signal_all_ends_example = signal_all_ends (client 1) (pos 7) crowded [] refl

signal_all_diverges_example : signal_all 1000 (client 1) (pos 8) crowded [] ≡ none
signal_all_diverges_example = signal_all_diverges 1000 (client 1) (pos 8) crowded [] refl refl

-- No table is allocated yet.
abbrev empty : Server
empty = record {
  lock_map = record { num_bits = 0; num_words = 0; map = [] };
  lock_table =
      λ _. record { lock = new_server_lock 0; is_to_be_deleted = false; acquire_count = pos 0 };
  lock_array_size = 0;
  condition_map = record { num_bits = 0; num_words = 0; map = [] };
  condition_table = λ _. record { condition = new_server_condition 0; is_to_be_deleted = false };
  condition_array_size = 0;
  responses = [];
}

zeros-AllWords : (n : ℕ) → AllWords (replicate n 0)
zeros-AllWords zero = tt
zeros-AllWords (suc n) = (omega arith, zeros-AllWords n)

create_lock_named_example :
    (s' : Server) × (((server_create_lock (replicate 16 0) 9 empty ≡ some (s', none))
        × ((j : ℕ) → j < max_server_locks → used s'.lock_map j ≡ true))
      ⊎ ((n : ℕ) × (server_create_lock (replicate 16 0) 9 empty ≡ some (s', some n))
          × (n < max_server_locks)
          × (used s'.lock_map n ≡ true)
          × (lock_names s' n ≡ 9)
          × (server_create_lock (replicate 16 0) 9 s' ≡ some (s', some n))))
create_lock_named_example =
    create_lock_named (replicate 16 0) 9 empty (inl refl) refl (zeros-AllWords 16)

-- One array of 4 variables.
abbrev variables : Variables
variables = record {
  mv_map = record { num_bits = 40; num_words = 2; map = 1 ∷ 0 ∷ [] };
  mv_table = λ _. filled 6 4 (pos 0);
  mv_array_size = 40;
}

variables-Sized : Sized variables
variables-Sized = record { bits = inr refl; lengths = λ n. refl }

set_then_get_example :
    (v' : Variables) × (server_set_mv (pos 0) (pos 3) (pos 8) variables ≡ some v')
    × Sized v'
    × (((n : ℕ) × (check_index variables.mv_map 40 (pos 0) ≡ some (some n))
          × (inside (variables.mv_table n) (pos 3) ≡ true)
          × (server_get_mv (pos 0) (pos 3) v' ≡ some (pos 8))
          × Elsewhere (pos 3) (variables.mv_table n) (v'.mv_table n)
          × ((m : ℕ) → m ≢ n → v'.mv_table m ≡ variables.mv_table m))
        ⊎ (NoEntry variables (pos 0) (pos 3)
            × (server_get_mv (pos 0) (pos 3) v' ≡ some minus_one)
            × ((m : ℕ) → v'.mv_table m ≡ variables.mv_table m)))
set_then_get_example = set_then_get variables (pos 0) (pos 3) (pos 8) variables-Sized

abbrev here : ℕ
here = 1

abbrev there : ℕ
there = 2
