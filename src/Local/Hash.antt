-- ===== src/Local/Hash.antt =====
-- local/hash.lua: the hash context that the identities of builds are computed with. It gathers what
-- is appended and hands it to the functions of generic/lsha.c in pieces of 64 KB and more.
-- Appending changes the context in place, which is the context returned here.
pub mod Digest
use e2factory.Common.{ℕ, Option, none, some, List, [], ◌∷◌, ◌++◌, Bytes, length, leb, if◌then◌else◌}
use e2factory.Sha.Sha1.{Context}
use e2factory.Sha.Lsha.{Reply, done, error, fault, lsha1_init, lsha1_update, lsha1_final}

-- The fields are `none` when they are nil.
pub record HashContext : Type 0 where
  pub text : Option Bytes
  pub ctx : Option Context

infixl 5 ◌>>=◌
abbrev pub ◌>>=◌ : {A B : Type 0} → Reply A → (A → Reply B) → Reply B
done a >>= f = f a
error msg >>= f = error msg
fault >>= f = fault

unfoldable pub hash_start : Context → HashContext
unfolding lsha1_init
hash_start memory = record { text = some []; ctx = some (lsha1_init memory) }

-- `argerror` is what Lua reports of an argument of the wrong type, `assertion` what `assert` does.
module _ (argerror : ℕ → Bytes) (assertion : Bytes) where
  unfoldable pub append_text : HashContext → Bytes → Reply HashContext
  append_text hc text =
      if leb 65536 (length text)
      then (do
        ctx ← lsha1_update argerror hc.ctx (some text)
        done record { text = some []; ctx = some ctx })
      else done (record hc { text = some text })

  unfoldable pub hash_append : HashContext → Bytes → Reply HashContext
  unfolding append_text
  hash_append hc input = elim hc.text [
    | none ↦ error assertion
    | some text ↦ elim hc.ctx [ none ↦ error assertion | some ctx ↦ append_text hc (text ++ input) ]
  ]

  unfoldable pub hash_line : HashContext → Bytes → Reply HashContext
  unfolding hash_append
  hash_line hc input = hash_append hc (input ++ b'\n' ∷ [])

  -- The checksum, and the context as it is left.
  unfoldable pub hash_finish : HashContext → Reply (Bytes × HashContext)
  hash_finish hc = do
    ctx ← lsha1_update argerror hc.ctx hc.text
    final ← lsha1_final argerror (some ctx)
    done (final.0, record { text = none; ctx = none })
