-- ===== src/Wire/Truncate.antt =====
-- src/wire.rs: `truncate_to`, for responses that are too long for the client's UDP socket.
pub mod Bounds
pub mod Marks
use dnsrivet.Prelude.{
  ℕ, ◌||◌, Option, none, some, Bytes, [], ◌∷◌, length, byte, set, take, write, replicate, leb, ltb,
  if◌then◌else◌, bit_or,
}
use dnsrivet.Wire.Read.{header_len}
use dnsrivet.Wire.Record.{questions_end}

-- `message[2] |= 0x02; message[6..12].fill(0);`
unfoldable pub mark_truncated : Bytes → Bytes
mark_truncated message = write (set message 2 (bit_or (byte message 2) 0x02)) 6 (replicate 6 0)

-- The last branch: no question fits.
unfoldable pub drop_questions : Bytes → Bytes
drop_questions message = take header_len (write message 4 (0 ∷ 0 ∷ []))

unfoldable pub cut : Bytes → ℕ → Bytes
cut message limit = elim (questions_end message) [
  | none ↦ drop_questions message
  | some end ↦ if leb end limit then take end message else drop_questions message
]

unfoldable pub truncate_to : Bytes → ℕ → Bytes
truncate_to message limit =
    if leb (length message) limit || ltb (length message) header_len
    then message
    else cut (mark_truncated message) limit
