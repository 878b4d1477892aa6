-- ===== src/Tests/Sha512.antt =====
-- generic/sha2.c on test vectors of FIPS 180 for SHA-512 and SHA-384.
use e2factory.Common.{◌≡◌, refl, some, codes, replicate}
use e2factory.Sha.Words.{memcpy}
use e2factory.Sha.ByteOrder.{reverse64}
use e2factory.Sha.Sha1.Final.{hex_of}
use e2factory.Sha.Sha2.{update, blocks_from, pad, last}
use e2factory.Sha.Sha512.{Context512, initial512, transform512, addinc128}
use e2factory.Sha.Sha512.Stream.{data512, data384}
use e2factory.Sha.Sha512.Stream.Digest.{sha512, data512-sha512}

abbrev fresh : Context512
fresh = record {
  state = initial512;
  bitcount = record { low = 0; high = 0 };
  buffer = replicate 128 0;
}

sha512_abc :
    data512 fresh (codes "abc")
    ≡ some (
        codes
          "ddaf35a193617abacc417349ae20413112e6fa4e89a97ea20a9eeee64b55d39a2192992a274fc1a836ba3c23a3feebbd454d4423643ce80e2a9ac94fa54ca49f")
unfolding data512 update blocks_from pad last transform512 addinc128 reverse64 memcpy hex_of
sha512_abc = refl

data512-sha512_example : data512 fresh (codes "abc") ≡ some (hex_of (sha512 (codes "abc")))
data512-sha512_example = data512-sha512 fresh (codes "abc")

sha384_abc :
    data384 fresh (codes "abc")
    ≡ some (
        codes
          "cb00753f45a35e8bb5a03d699ac65007272c32ab0eded1631a8b605a43ff5bed8086072ba1e7cc2358baeca134c825a7")
unfolding data384 update blocks_from pad last transform512 addinc128 reverse64 memcpy hex_of
sha384_abc = refl
