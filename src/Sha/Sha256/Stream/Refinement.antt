-- ===== src/Sha/Sha256/Stream/Refinement.antt =====
-- generic/sha2.c: SHA256_Update absorbs its input byte by byte, whatever the pieces.
use e2factory.Common.{Bytes, length}
use e2factory.Sha.Sha2.Refinement.{IsContext, Updated}
use e2factory.Sha.Sha2.Blocks.{update-Updated}
use e2factory.Sha.Sha256.{Context256, machine256}
use e2factory.Sha.Sha256.Laws.{machine256-IsMachine}
use e2factory.Sha.Sha256.Stream.{update256}

-- A context with a count below 2 ^ 64 and a buffer of 64 bytes.
abbrev pub IsContext256 : Context256 → Type 0
IsContext256 = IsContext machine256 machine256-IsMachine

-- An update of a context with a count below 2 ^ 64 and a buffer of 64 bytes, with any input, ends
-- and writes nothing outside the buffer; the state
-- and the waiting bytes are those of the message so far with the input behind it, in whatever
-- pieces the message came, and the count is the number of its bits modulo 2 ^ 64.
pub update256-Updated :
    (c : Context256) (input : Bytes)
    → IsContext256 c
    → Updated machine256 machine256-IsMachine c input (update256 c input (length input))
unfolding update256
update256-Updated c input valid = update-Updated machine256 machine256-IsMachine c input valid
