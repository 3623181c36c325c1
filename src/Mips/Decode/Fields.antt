-- ===== src/Mips/Decode/Fields.antt =====
-- The fields of an instruction that Instruction::Decode (code/machine/mipssim.cc) answers.
use usc_cs.Common.{
  ℕ, ◌/◌, ◌^◌, ◌<◌, ◌≡◌, subst, not, ◌==◌, if-either, Option, none, some, ◌>>=◌, get_elem?, arith,
}
use usc_cs.Common.Masks.{and-ones}
use usc_cs.Mips.Words.Bounds.{and-word, or-word}
use usc_cs.Mips.Decode.{
  OpCode, OpInfo, Format, ifmt, jfmt, rfmt, Instruction, fields_of, op_table, extra_of, final_code,
  decode,
}
use Prim.Native.Nat.{bit_and}

-- The fields of a decoded instruction.
pub record IsInstruction (i : Instruction) : Type 0 where
  pub rs_bound : i.rs < 32
  pub rt_bound : i.rt < 32
  pub rd_bound : i.rd < 32
  pub extra_word : i.extra < 2 ^ 32

register : (w : ℕ) → bit_and w 31 < 32
register w = omega (arith, and-ones 5 w)

extra_of-word : (format : Format) (value : ℕ) → value < 2 ^ 32 → extra_of format value < 2 ^ 32
extra_of-word ifmt value h =
    let low = and-word value 65535 h in
    if-either (λ x. x < 2 ^ 32) (not (bit_and (bit_and value 65535) 32768 == 0))
      (or-word (bit_and value 65535) 4294901760 low (omega arith)) low
extra_of-word rfmt value h = omega (arith, register (value / 2 ^ 6))
extra_of-word jfmt value h = and-word value 67108863 h

Valid : Option Instruction → Type 0
Valid none = Unit
Valid (some i) = IsInstruction i

pub decode-IsInstruction :
    (value : ℕ) (i : Instruction) → value < 2 ^ 32 → decode value ≡ some i → IsInstruction i
unfolding decode Valid
decode-IsInstruction value i h e =
    subst Valid e (go (get_elem? op_table (bit_and (value / 2 ^ 26) 63)))
  where
    with_code :
        (info : OpInfo) (o : Option OpCode) → Valid (do op ← o; some (fields_of info value op))
    with_code info none = tt
    with_code info (some op) = record {
      rs_bound = register (value / 2 ^ 21);
      rt_bound = register (value / 2 ^ 16);
      rd_bound = register (value / 2 ^ 11);
      extra_word = extra_of-word info.format value h;
    }

    go :
        (o : Option OpInfo)
        → Valid (do info ← o; op ← final_code info.op_code value; some (fields_of info value op))
    go none = tt
    go (some info) = with_code info (final_code info.op_code value)
