-- ===== src/Tests/Sha256.antt =====
-- generic/sha2.c on test vectors of FIPS 180 for SHA-256.
use e2factory.Common.{◌≡◌, refl, some, codes, replicate}
use e2factory.Sha.Words.{memcpy}
use e2factory.Sha.Sha1.Final.{hex_of}
use e2factory.Sha.Sha2.{update, blocks_from, fill_and_go, pad, spill, last}
use e2factory.Sha.Sha256.{Context256, initial, transform256}
use e2factory.Sha.ByteOrder.{reverse32, reverse64}
use e2factory.Sha.Sha256.Stream.{data256}

abbrev empty : Context256
empty = record { state = initial; bitcount = 0; buffer = replicate 64 0 }

sha256_abc :
    data256 empty (codes "abc")
    ≡ some (codes "ba7816bf8f01cfea414140de5dae2223b00361a396177a9cb410ff61f20015ad")
unfolding data256 update blocks_from fill_and_go pad spill last transform256 reverse32 reverse64
    memcpy hex_of
sha256_abc = refl

sha256_two_blocks :
    data256 empty (codes "abcdbcdecdefdefgefghfghighijhijkijkljklmklmnlmnomnopnopq")
    ≡ some (codes "248d6a61d20638b8e5c026930c3e6039a33ce45964ff2167f6ecedd419db06c1")
unfolding data256 update blocks_from fill_and_go pad spill last transform256 reverse32 reverse64
    memcpy hex_of
sha256_two_blocks = refl
