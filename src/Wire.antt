-- ===== src/Wire.antt =====
-- extractInt and compressInt of code/network/server.cc, and their copies extractIntFromBytes and
-- compressIntFromBytes in code/userprog/exception.cc: an int as four bytes of a message. An int is its
-- pattern of 32 bits, a char its pattern of 8, which an expression widens by its sign.
pub mod Masks
pub mod Integers
mod Tests
use usc_cs.Common.{ℕ, ◌+◌, ◌-◌, ◌*◌, ◌/◌, ◌%◌, ◌^◌, if◌then◌else◌, ltb, put}
use Prim.Native.Nat.{bit_and}
use usc_cs.Memory.{sign_extend}

-- `c << n`, where `c` is a char.
abbrev pub shift_left : ℕ → ℕ → ℕ
shift_left c n = sign_extend c * 2 ^ n % 2 ^ 32

-- `x >> n` on an int keeps the sign.
abbrev pub shift_right : ℕ → ℕ → ℕ
shift_right x n = if ltb x (2 ^ 31) then x / 2 ^ n else x / 2 ^ n + (2 ^ 32 - 2 ^ (32 - n))

-- extractInt and extractIntFromBytes
unfoldable pub extract_int : (ℕ → ℕ) → ℕ
extract_int buf =
    let a = bit_and (shift_left (buf 0) 24) 4278190080 in
    let b = bit_and (shift_left (buf 1) 16) 16711680 in
    let c = bit_and (shift_left (buf 2) 8) 65280 in
    let d = bit_and (shift_left (buf 3) 0) 255 in (a + b + c + d) % 2 ^ 32

-- compressInt and compressIntFromBytes
unfoldable pub compress_int : ℕ → (ℕ → ℕ) → ℕ → ℕ
compress_int x dest =
    let dest = put dest 0 (bit_and (shift_right x 24) 255) in
    let dest = put dest 1 (bit_and (shift_right x 16) 255) in
    let dest = put dest 2 (bit_and (shift_right x 8) 255) in
    put dest 3 (bit_and (shift_right x 0) 255)
