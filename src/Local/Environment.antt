-- ===== src/Local/Environment.antt =====
-- local/environment.lua: the variables of a build. A table of Lua is the list of its pairs, each
-- key once, in the order in which `pairs` visits them; that order is nowhere promised.
pub mod Laws
pub mod Identity
use e2factory.Common.{
  ℕ, ◌+◌, Bool, true, false, ◌||◌, Option, none, some, List, [], ◌∷◌, ◌++◌, Bytes, map, codes,
  String, bytes_eq, if◌then◌else◌,
}
use e2factory.Common.Sorting.{table_sort}
use e2factory.Sha.Sha1.{Context}
use e2factory.Sha.Lsha.{Reply, done, error}
use e2factory.Local.Hash.{HashContext, ◌>>=◌, hash_start, hash_append, hash_finish}
use e2factory.Local.Tables.{Dict, get, put, keys, is_nil}

pub record Environment : Type 0 where
  pub seqid : ℕ
  pub dict : Dict

-- The second part is `environment_seqid` for the next call.
unfoldable pub new : ℕ → Environment × ℕ
new environment_seqid = (record { seqid = environment_seqid; dict = [] }, environment_seqid + 1)

-- `none`: the assertion that `var` is not empty fails.
unfoldable pub set : Environment → Bytes → Bytes → Option Environment
set env [] val = none
set env (c ∷ var) val = some (record env { dict = put env.dict (c ∷ var) val })

-- The loop of `merge` over the pairs that `merge` has.
unfoldable pub merge_from : Dict → Dict → Bool → Dict
unfolding is_nil
merge_from dict [] override = dict
merge_from dict ((var, val) ∷ rest) override =
    merge_from (if is_nil (get dict var) || override then put dict var val else dict) rest override

unfoldable pub merge : Environment → Environment → Bool → Environment
unfolding merge_from
merge env other override = record env { dict = merge_from env.dict other.dict override }

-- What the iterator returns: a key, and what the table holds there, `none` for nil.
unfoldable pub iter : Environment → List (Bytes × Option Bytes)
iter env = map (λ var. (var, get env.dict var)) (table_sort (keys env.dict))

-- `dict[var] = val`; to assign nil to a new key leaves the table as it is.
unfoldable pub assign : Dict → Bytes → Option Bytes → Dict
assign dict var none = dict
assign dict var (some val) = put dict var val

-- The loop of `get_dict`.
unfoldable pub copied : Dict → List (Bytes × Option Bytes) → Dict
unfolding assign
copied dict [] = dict
copied dict ((var, val) ∷ rest) = copied (assign dict var val) rest

unfoldable pub get_dict : Environment → Dict
unfolding iter copied
get_dict env = copied [] (iter env)

module _ (argerror : ℕ → Bytes) (assertion concat_nil : Bytes) where
  -- The body of the loop of `envid`; `var .. nil` raises an error.
  unfoldable pub hash_pair : HashContext → Bytes → Option Bytes → Reply HashContext
  hash_pair hc var none = error concat_nil
  hash_pair hc var (some val) = hash_append argerror assertion hc (var ++ val)

  unfoldable pub hash_pairs : HashContext → List (Bytes × Option Bytes) → Reply HashContext
  unfolding hash_pair
  hash_pairs hc [] = done hc
  hash_pairs hc ((var, val) ∷ rest) = hash_pair hc var val >>= λ next. hash_pairs next rest

  -- `memory` is what the new hash context holds.
  unfoldable pub envid : Context → Environment → Reply Bytes
  unfolding hash_pairs
  envid memory env = do
    hc ← hash_pairs (hash_start memory) (iter env)
    final ← hash_finish argerror assertion hc
    done final.0
