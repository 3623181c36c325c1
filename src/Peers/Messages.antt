-- ===== src/Peers/Messages.antt =====
-- The messages between the servers (code/network/messagetypes.h and code/network/server.cc). A name
-- stands in a message with its length; the length of the whole message is left out.
use usc_cs.Common.{
  ℕ, zero, suc, ◌+◌, ◌-◌, Bool, true, false, ◌&&◌, ◌||◌, if◌then◌else◌, ltb, ◌==◌, List, [], ◌∷◌,
  get_or,
}
use usc_cs.Wire.{extract_int, compress_int}

-- Lock, CV and MV
pub data StructureType : Type 0 where
  lock_type cv_type mv_type : StructureType

-- The operations of clients on an object that they name by its index.
pub data Operation : Type 0 where
  ask_acquire ask_release ask_destroy_lock : Operation
  ask_destroy_cv ask_signal ask_wait ask_broadcast : Operation
  ask_destroy_mv ask_get_mv ask_set_mv : Operation

-- The messages between servers and those of clients, with the kind of object they are about.
pub data MessageType : Type 0 where
  do_you_have have do_not_have : StructureType → MessageType
  do_you_have_name have_name do_not_have_name : StructureType → MessageType
  create_object : StructureType → MessageType
  operate : Operation → MessageType
  -- the answer to a client, which has no type in front
  result : MessageType

abbrev pub same_type : StructureType → StructureType → Bool
same_type lock_type lock_type = true
same_type cv_type cv_type = true
same_type mv_type mv_type = true
same_type _ _ = false

-- strcmp(a, b) == 0
abbrev pub same_name : List ℕ → List ℕ → Bool
same_name [] [] = true
same_name (a ∷ xs) (b ∷ ys) = (a == b) && same_name xs ys
same_name _ _ = false

-- A message with its PacketHeader and MailHeader.
pub record Packet : Type 0 where
  pub from_machine : ℕ
  pub from_mailbox : ℕ
  pub to_machine : ℕ
  pub to_mailbox : ℕ
  pub kind : MessageType
  pub bytes : ℕ → ℕ

-- `data + k`
abbrev pub offset : ℕ → (ℕ → ℕ) → ℕ → ℕ
offset k bytes i = bytes (k + i)

-- `extractInt(data + k)`
abbrev pub int_at : ℕ → (ℕ → ℕ) → ℕ
int_at k bytes = extract_int (offset k bytes)

-- `compressInt(x, data + k)`
abbrev pub put_int : ℕ → ℕ → (ℕ → ℕ) → ℕ → ℕ
put_int k x bytes i = if ltb i k then bytes i else compress_int x (offset k bytes) (i - k)

-- The text of at most `n` characters from byte `k` on.
abbrev pub text_at : ℕ → ℕ → (ℕ → ℕ) → List ℕ
text_at zero k bytes = []
text_at (suc n) k bytes = if bytes k == 0 then [] else bytes k ∷ text_at n (k + 1) bytes

-- `strncpy(data + k, text, n)`: the text, and zeros up to `n` bytes
abbrev pub put_text : ℕ → ℕ → List ℕ → (ℕ → ℕ) → ℕ → ℕ
put_text k n text bytes i =
    if ltb i k || ltb (k + n) (i + 1) then bytes i else get_or text (i - k) 0

-- `data[k] = v;`
abbrev pub put_byte : ℕ → ℕ → (ℕ → ℕ) → ℕ → ℕ
put_byte k v bytes i = if i == k then v else bytes i
