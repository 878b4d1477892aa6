-- ===== src/Local/Environment/Identity.antt =====
-- local/environment.lua: what `envid` stands for.
use e2factory.Common.{
  ℕ, ◌≡◌, ◌≢◌, refl, ap, ◌∙◌, true, false, Option, none, some, List, [], ◌∷◌, ◌++◌, Bytes, bytes_eq,
  fun_ext, ap₂, length, arith, map, append_assoc,
}
use e2factory.Common.Sorting.{member, table_sort, bytes_eq_refl, member-table_sort}
use e2factory.Sha.Sha1.{Context}
use e2factory.Sha.Sha1.Final.{hex_of}
use e2factory.Sha.Sha1.Final.Digest.{sha1}
use e2factory.Sha.Lsha.{Reply, done, error, fault}
use e2factory.Local.Hash.{HashContext, ◌>>=◌, hash_start, hash_finish, hash_append}
use e2factory.Local.Hash.Digest.{Call, append, texts, AllSmall, calls, checksum-sha1}
use e2factory.Local.Tables.{Dict, get, keys, is_nil, IsTable, member-keys}
use e2factory.Local.Environment.{Environment, iter, hash_pair, hash_pairs, envid}
use e2factory.Local.Environment.Laws.{value, iter-canonical}

abbrev pub or_empty : Option Bytes → Bytes
or_empty none = []
or_empty (some val) = val

-- The variables in the order of their names, each name with its value behind it.
abbrev pub calls_of : Dict → List Bytes → List Call
calls_of dict vars = map (λ var. append (var ++ or_empty (get dict var))) vars

abbrev pub pairs_text : Environment → Bytes
pairs_text env = texts (calls_of env.dict (table_sort (keys env.dict)))

-- Two variables and their values, joined, are far below 4 GiB.
abbrev pub IsSmall : Environment → Type 0
IsSmall env = AllSmall (calls_of env.dict (table_sort (keys env.dict)))

bind_assoc :
    {A B C : Type 0} (m : Reply A) (f : A → Reply B) (g : B → Reply C)
    → (m >>= λ a. f a >>= g) ≡ (m >>= f >>= g)
bind_assoc (done a) f g = refl
bind_assoc (error msg) f g = refl
bind_assoc fault f g = refl

-- An environment of one variable.
abbrev pub single : ℕ → Bytes → Bytes → Environment
single seqid var val = record { seqid = seqid; dict = (var, val) ∷ [] }

append-longer : (v x : Bytes) → x ≢ [] → bytes_eq (v ++ x) v ≡ false
unfolding bytes_eq
append-longer [] [] more = absurd (more refl)
append-longer [] (a ∷ x) more = refl
append-longer (b ∷ v) x more = ground (arith, append-longer v x more)

module _ (argerror : ℕ → Bytes) (assertion concat_nil : Bytes) where
  hash_pair-call :
      (hc : HashContext) (var : Bytes) (val : Option Bytes)
      → is_nil val ≡ false
      → hash_pair argerror assertion concat_nil hc var val
        ≡ hash_append argerror assertion hc (var ++ or_empty val)
  unfolding hash_pair is_nil
  hash_pair-call hc var none there = cc
  hash_pair-call hc var (some val) there = refl

  hash_pairs-calls :
      (dict : Dict) (vars : List Bytes) (hc : HashContext)
      → ((x : Bytes) → member x vars ≡ true → is_nil (get dict x) ≡ false)
      → hash_pairs argerror assertion concat_nil hc (map (λ var. (var, get dict var)) vars)
        ≡ calls argerror assertion hc (calls_of dict vars)
  unfolding hash_pairs member
  hash_pairs-calls dict [] hc there = refl
  hash_pairs-calls dict (var ∷ vars) hc there =
      let here =
        hash_pair-call hc var (get dict var) (there var (ground (arith, bytes_eq_refl var))) in
      let rest = λ (next : HashContext).
        hash_pairs-calls dict vars next λ x m. there x (ground (arith, m)) in
      ap₂ (λ (m : Reply HashContext) k. m >>= k) here (fun_ext rest)

  -- The identity of an environment is the SHA-1, over the functions on words of the source, of its
  -- variables in the order of their names, each name with its value behind it, if each such text is
  -- 65664 bytes below 4 GiB at least and the memory of the hash context has a buffer of 64 bytes.
  pub envid-sha1 :
      (memory : Context) (env : Environment)
      → length memory.buffer ≡ 64
      → IsSmall env
      → envid argerror assertion concat_nil memory env ≡ done (hex_of (sha1 (pairs_text env)))
  unfolding envid iter
  envid-sha1 memory env sized small =
      let pairs =
        hash_pairs-calls env.dict (table_sort (keys env.dict)) (hash_start memory)
          λ x m. ground (arith, m, member-table_sort x (keys env.dict), member-keys env.dict x) in
      let whole = checksum-sha1 argerror assertion memory _ sized small in
      rw pairs (
        bind_assoc _ (hash_finish argerror assertion) (λ final. done final.0)
        ∙ ap (λ r. r >>= λ final. done final.0) whole)

  -- Two environments whose lists of pairs are tables, each key standing once, and which hold the
  -- same values have the same identity, whatever the order in which the variables were set or
  -- merged.
  pub envid-canonical :
      (memory : Context) (a b : Environment)
      → IsTable a.dict
      → IsTable b.dict
      → value a ≡ value b
      → envid argerror assertion concat_nil memory a ≡ envid argerror assertion concat_nil memory b
  unfolding envid
  envid-canonical memory a b ta tb same =
      ap
        (λ pairs. hash_pairs argerror assertion concat_nil (hash_start memory) pairs >>= λ hc.
          hash_finish argerror assertion hc >>= λ final. done final.0)
        (iter-canonical a b ta tb same)

  -- A name and its value are hashed with nothing between them: if the end `x` of a name, not empty,
  -- moves to the front of its value, the environment is another and has the same identity.
  pub envid-collides :
      (memory : Context) (m n : ℕ) (v x y : Bytes)
      → x ≢ []
      → (value (single m v (x ++ y)) ≢ value (single n (v ++ x) y))
        × (envid argerror assertion concat_nil memory (single m v (x ++ y))
            ≡ envid argerror assertion concat_nil memory (single n (v ++ x) y))
  unfolding envid iter get keys table_sort hash_pairs hash_pair
  envid-collides memory m n v x y more = (
    λ same. ground (arith, ap (λ value. value v) same, bytes_eq_refl v, append-longer v x more),
    rw (bytes_eq_refl v, bytes_eq_refl (v ++ x), hash_pair, append_assoc v x y) refl,
  )
