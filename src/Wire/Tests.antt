-- ===== src/Wire/Tests.antt =====
-- Tests of the ints in messages (code/network/server.cc) and concrete runs of their theorems.
use usc_cs.Common.{ℕ, ◌<◌, ◌≡◌, refl, arith}
use usc_cs.Wire.{compress_int}

-- The int -2.
abbrev minus_two : ℕ
minus_two = 4294967294

abbrev last_byte : ℕ
last_byte = 254

abbrev all_nines : ℕ → ℕ
all_nines i = 9

abbrev all_high : ℕ → ℕ
all_high i = 200

compress_int_test : compress_int minus_two all_nines 3 ≡ last_byte
unfolding compress_int
compress_int_test = refl

all_high-lt : (i : ℕ) → all_high i < 256
all_high-lt i = omega arith
