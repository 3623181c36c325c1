-- ===== src/Server/Operations.antt =====
-- The operations on locks and conditions of code/network/server.cc. An operation that returns `none`
-- has failed the ASSERT of a bit map.
use usc_cs.Common.{
  ℕ, zero, suc, ◌+◌, Bool, true, false, not, ◌&&◌, Option, none, some, List, [], ltb, ◌==◌,
  if◌then◌else◌, ◌>>=◌, put,
}
use usc_cs.Common.Int.{ℤ, pos, negsuc}
use usc_cs.BitMap.{BitMap}
use usc_cs.BitMap
use usc_cs.Syscalls.{increase, decrease, is_zero}
use usc_cs.Server.{
  ClientRequest, Answer, ServerLock, ServerCondition, new_server_lock, new_server_condition,
  is_taken, lock_acquire, lock_release,
}

abbrev pub max_server_locks : ℕ
max_server_locks = 500

pub record ServerLockEntry : Type 0 where
  pub lock : ServerLock
  pub is_to_be_deleted : Bool
  pub acquire_count : ℤ

pub record ServerConditionEntry : Type 0 where
  pub condition : ServerCondition
  pub is_to_be_deleted : Bool

pub record Server : Type 0 where
  pub lock_map : BitMap
  pub lock_table : ℕ → ServerLockEntry
  pub lock_array_size : ℕ
  pub condition_map : BitMap
  pub condition_table : ℕ → ServerConditionEntry
  pub condition_array_size : ℕ
  -- necessaryResponses: the clients that get an answer
  pub responses : List ClientRequest

-- The bounds and the bit of an index: the index, or `none` where the operation prints a message.
unfoldable pub check_index : BitMap → ℕ → ℤ → Option (Option ℕ)
check_index map size (negsuc n) = some none
check_index map size (pos n) =
    if ltb n size then (do t ← BitMap.test map n; some (if t then some n else none)) else some none

-- Only the lower bound, as in ServerWait and ServerBroadcast; Test has the ASSERT for the upper one.
unfoldable pub check_lower : BitMap → ℤ → Option (Option ℕ)
check_lower map (negsuc n) = some none
check_lower map (pos n) = do t ← BitMap.test map n; some (if t then some n else none)

-- The table that the first call allocates.
abbrev pub allocate_table : BitMap → ℕ → List ℕ → Option (BitMap × ℕ)
allocate_table map size memory =
    if size == 0
    then (do m ← BitMap.new max_server_locks memory; some (m, max_server_locks))
    else some (map, size)

-- The first marked entry from `i` on with the name.
unfoldable pub find_name : ℕ → ℕ → ℕ → BitMap → (ℕ → ℕ) → Option (Option ℕ)
find_name zero i name map name_of = some none
find_name (suc rounds) i name map name_of =
    let rest = find_name rounds (i + 1) name map name_of in
    do t ← BitMap.test map i; if t && (name_of i == name) then some (some i) else rest

-- An index for a name: one that has it, a new one, or `none` for -1.
pub data Claim : Type 0 where
  existing fresh : ℕ → Claim
  full : Claim

abbrev pub claim_new : BitMap × Option ℕ → BitMap × Claim
claim_new (map, none) = (map, full)
claim_new (map, some n) = (map, fresh n)

unfoldable pub claim : ℕ → BitMap → (ℕ → ℕ) → Option (BitMap × Claim)
unfolding find_name
claim name map name_of = do
  found ← find_name max_server_locks 0 name map name_of
  elim found [ some i ↦ some (map, existing i) | none ↦ do r ← BitMap.find map; some (claim_new r) ]

abbrev pub lock_names : Server → ℕ → ℕ
lock_names s i = (s.lock_table i).lock.name

abbrev pub with_lock : ℕ → Claim → Server → Server × Option ℕ
with_lock name (existing i) s = (s, some i)
with_lock name (fresh n) s = (
  record s {
    lock_table =
        put s.lock_table n
          (record { lock = new_server_lock name; is_to_be_deleted = false; acquire_count = pos 0 });
  },
  some n,
)
with_lock name full s = (s, none)

-- ServerCreateLock
unfoldable pub server_create_lock : List ℕ → ℕ → Server → Option (Server × Option ℕ)
server_create_lock memory name s = do
  (map, size) ← allocate_table s.lock_map s.lock_array_size memory
  (map, c) ← claim name map (lock_names s)
  some (with_lock name c (record s { lock_map = map; lock_array_size = size }))

abbrev pub with_condition : ℕ → Claim → Server → Server × Option ℕ
with_condition name (existing i) s = (s, some i)
with_condition name (fresh n) s = (
  record s {
    condition_table =
        put s.condition_table n
          (record { condition = new_server_condition name; is_to_be_deleted = false });
  },
  some n,
)
with_condition name full s = (s, none)

-- ServerCreateCV
unfoldable pub server_create_cv : List ℕ → ℕ → Server → Option (Server × Option ℕ)
server_create_cv memory name s = do
  (map, size) ← allocate_table s.condition_map s.condition_array_size memory
  (map, c) ← claim name map (λ i. (s.condition_table i).condition.name)
  some (with_condition name c (record s { condition_map = map; condition_array_size = size }))

-- `delete serverLockTable[n].lock`: the queue of the lock goes with it. The rest of the object is freed
-- memory from then on, and stands here as it was.
abbrev pub delete_server_lock : ServerLockEntry → ServerLockEntry
delete_server_lock e = record e { lock = record e.lock { queue = [] } }

abbrev pub delete_server_condition : ServerConditionEntry → ServerConditionEntry
delete_server_condition e = record e { condition = record e.condition { queue = [] } }

abbrev pub clear_lock : ℕ → Server → Option Server
clear_lock n s = do
  m ← BitMap.clear s.lock_map n
  some (record s {
    lock_map = m;
    lock_table = put s.lock_table n (delete_server_lock (s.lock_table n));
  })

abbrev pub clear_condition : ℕ → Server → Option Server
clear_condition n s = do
  m ← BitMap.clear s.condition_map n
  some (record s {
    condition_map = m;
    condition_table = put s.condition_table n (delete_server_condition (s.condition_table n));
  })

-- ServerDestroyLock
abbrev pub destroy_valid : Option ℕ → Server → Option Server
destroy_valid none s = some s
destroy_valid (some n) s =
    let e = s.lock_table n in
    if not (is_taken e.lock.state && is_zero e.acquire_count)
    then clear_lock n s
    else some (record s { lock_table = put s.lock_table n (record e { is_to_be_deleted = true }) })

unfoldable pub server_destroy_lock : ℤ → Server → Option Server
server_destroy_lock i s = do r ← check_index s.lock_map s.lock_array_size i; destroy_valid r s

-- ServerAcquire: the answer is `none` for NULL.
abbrev pub acquire_valid : ClientRequest → Option ℕ → Server → Server × Option Answer
acquire_valid cr none s = (s, none)
acquire_valid cr (some n) s =
    let e = s.lock_table n in
    let (answer, l) = lock_acquire cr e.lock in
    (
      record s {
        lock_table =
            put s.lock_table n (record e { lock = l; acquire_count = increase e.acquire_count });
      },
      some answer,
    )

unfoldable pub server_acquire : ClientRequest → ℤ → Server → Option (Server × Option Answer)
server_acquire cr i s = do
  r ← check_index s.lock_map s.lock_array_size i
  some (acquire_valid cr r s)

-- ServerRelease
abbrev pub release_valid : ClientRequest → Option ℕ → Server → Option (Server × Option Answer)
release_valid cr none s = some (s, none)
release_valid cr (some n) s =
    let e = s.lock_table n in
    let count = decrease e.acquire_count in
    let (answer, l) = lock_release cr e.lock in
    let s' = record s {
      lock_table = put s.lock_table n (record e { lock = l; acquire_count = count });
    } in
    if e.is_to_be_deleted && is_zero count && not (is_taken l.state)
    then (do s'' ← clear_lock n s'; some (s'', some answer))
    else some (s', some answer)

unfoldable pub server_release : ClientRequest → ℤ → Server → Option (Server × Option Answer)
server_release cr i s = do r ← check_index s.lock_map s.lock_array_size i; release_valid cr r s
