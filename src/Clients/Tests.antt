-- ===== src/Clients/Tests.antt =====
-- Messages of clients (code/network/server.cc) to a server with one lock and one variable.
use usc_cs.Common.{ℕ, ◌-◌, ◌^◌, ◌≡◌, ◌≢◌, ◌⊎◌, refl, inr, true, false, some, [], ◌∷◌}
use usc_cs.Common.Int.{ℤ, pos, negsuc, minus_one}
use usc_cs.BitMap.{BitMap, test}
use usc_cs.Kernel.{busy}
use usc_cs.Server.{ClientRequest}
use usc_cs.Server.Operations.{Server, check_index}
use usc_cs.Server.Objects.{is_owned}
use usc_cs.Server.Variables.{Variables, Sized, NoEntry, inside, filled}
use usc_cs.Peers.Messages.{ask_acquire, operate, Packet, int_at, put_byte}
use usc_cs.Clients.{
  Host, arg, internal_index, response, with_server, with_variables, answered, on_release, on_get_mv,
  on_set_mv,
}
use usc_cs.Clients.Entries.{set_mv_then_get_mv}
use usc_cs.Clients.Handover.{release_hands_over}

abbrev first_marked : BitMap
first_marked = record { num_bits = 40; num_words = 2; map = 1 ∷ 0 ∷ [] }

abbrev sender : ClientRequest
sender = record { machine_id = 5; mailbox_number = 2 }

abbrev waiter : ClientRequest
waiter = record { machine_id = 6; mailbox_number = 2 }

-- The sender owns lock 0, another client waits.
abbrev tables : Server
tables = record {
  lock_map = first_marked;
  lock_table = λ _. record {
    lock = record {
      name = 5;
      state = busy;
      queue = waiter ∷ [];
      current_client_request = some sender;
    };
    is_to_be_deleted = true;
    acquire_count = pos 1;
  };
  lock_array_size = 40;
  condition_map = first_marked;
  condition_table = λ _. record {
    condition = record { name = 0; queue = []; waiting_lock = minus_one };
    is_to_be_deleted = false;
  };
  condition_array_size = 40;
  responses = [];
}

abbrev array : Variables
array = record { mv_map = first_marked; mv_table = λ _. filled 6 4 (pos 0); mv_array_size = 40 }

array-Sized : Sized array
array-Sized = record { bits = inr refl; lengths = λ n. refl }

abbrev host : ℕ → Host
host me = record { my_machine_id = me; server = tables; variables = array }

abbrev blank : ℕ → ℕ
blank i = 0

abbrev request : (ℕ → ℕ) → Packet
request bytes = record {
  from_machine = 5;
  from_mailbox = 2;
  to_machine = 0;
  to_mailbox = 0;
  kind = operate ask_acquire;
  bytes = bytes;
}

-- Object 0, entry 2, and the value -6
abbrev numbers : ℕ → ℕ
numbers = put_byte 8 2 (put_byte 9 255 (put_byte 10 255 (put_byte 11 255 (put_byte 12 250 blank))))

-- The value is -6.
value_read : arg 9 (request numbers) ≡ negsuc 5
unfolding usc_cs.Wire.extract_int
value_read = refl

set_mv_then_get_mv_example :
    let index = internal_index 0 (arg 1 (request numbers)) in
    (v : Variables) × (value : ℤ) × (on_set_mv (request numbers) blank (host 0)
      ≡ some (response 0 blank sender minus_one ∷ [], answered (with_variables v (host 0))))
    × (on_get_mv (request numbers) blank (answered (with_variables v (host 0)))
        ≡ some (response 0 blank sender value ∷ [], answered (with_variables v (host 0))))
    × (((n : ℕ) × (check_index first_marked 40 index ≡ some (some n))
          × (inside (array.mv_table n) (arg 5 (request numbers)) ≡ true)
          × (int_at 0 (response 0 blank sender value).bytes ≡ int_at 9 numbers))
        ⊎ (NoEntry array index (arg 5 (request numbers))
            × (int_at 0 (response 0 blank sender value).bytes ≡ 2 ^ 32 - 1)))
unfolding usc_cs.Wire.extract_int
set_mv_then_get_mv_example =
    set_mv_then_get_mv (host 0) (request numbers) (request numbers) blank blank array-Sized refl
      refl refl

release_hands_over_example :
    (s : Server) × (on_release (request numbers) blank (host 0)
      ≡ some (
        response 0 blank sender minus_one ∷ response 0 blank waiter minus_one ∷ [],
        with_server s (host 0),
      ))
    × ((s.lock_table 0).lock.current_client_request ≡ some waiter)
    × ((s.lock_table 0).lock.queue ≡ [])
    × (s.lock_map ≡ first_marked)
    × ((m : ℕ) → m ≢ 0 → s.lock_table m ≡ tables.lock_table m)
unfolding usc_cs.Wire.extract_int check_index test
release_hands_over_example =
    release_hands_over (host 0) (request numbers) blank 0 waiter [] refl refl
      (is_owned sender refl refl) refl refl
