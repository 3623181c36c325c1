-- ===== src/Peers.antt =====
-- ServerToServerMessageHandler of code/network/server.cc: how the servers find out which of them has
-- an object, and which of them makes a new one. A message is its type and its bytes; a name is the text
-- that strncpy takes out of the bytes. The tables of objects are those of the Server modules, taken here
-- as the operations that look a name up and make an object. The memory of a new buffer is `blank`.
pub mod Messages
pub mod Bytes
pub mod Pending
pub mod Store
pub mod Handler
pub mod Queries
pub mod Loop
pub mod Turns
pub mod Creation
pub mod Answers
pub mod Numbers
pub mod Queues
pub mod Lookups
pub mod Invariant
pub mod Late
mod Tests
