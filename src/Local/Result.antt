-- ===== src/Local/Result.antt =====
-- local/result.lua: the environment that a result is built in.
use e2factory.Common.{ℕ, ◌≡◌, refl, ap, ◌∙◌, true, false, Option, none, some, List, [], ◌∷◌, Bytes}
use e2factory.Local.StringList.{StringList, totable}
use e2factory.Local.Tables.{get, IsTable}
use e2factory.Local.Environment.{Environment, new, merge}
use e2factory.Local.Environment.Laws.{value, or_else, value-merge}

-- What `merged_env` reads: the environments of the project, of each source, of the project for this
-- result, and of the result itself, and the names of the result's sources.
pub record Inputs : Type 0 where
  pub global_env : Environment
  pub source_env : Bytes → Environment
  pub result_env : Environment
  pub own_env : Environment
  pub sources_list : StringList

module _ (source_env : Bytes → Environment) where
  unfoldable pub merge_sources : Environment → List Bytes → Environment
  merge_sources env [] = env
  merge_sources env (name ∷ names) = merge_sources (merge env (source_env name) true) names

-- `environment_seqid` numbers the new environment.
unfoldable pub merged_env : ℕ → Inputs → Environment
unfolding merge_sources
merged_env environment_seqid r =
    let global = merge (new environment_seqid).0 r.global_env false in
    let sources = merge_sources r.source_env global (totable r.sources_list).0 in
    merge (merge sources r.result_env true) r.own_env true

-- The last source that sets a variable gives its value.
abbrev pub last_value : (Bytes → Environment) → List Bytes → Bytes → Option Bytes
last_value source_env [] x = none
last_value source_env (name ∷ names) x =
    or_else (last_value source_env names x) (value (source_env name) x)

pub record AreTables (r : Inputs) : Type 0 where
  pub global : IsTable r.global_env.dict
  pub source : (name : Bytes) → IsTable (r.source_env name).dict
  pub result : IsTable r.result_env.dict
  pub own : IsTable r.own_env.dict

or_else_assoc : (a b c : Option Bytes) → or_else a (or_else b c) ≡ or_else (or_else a b) c
or_else_assoc none b c = refl
or_else_assoc (some v) b c = refl

value-merge_sources :
    (source_env : Bytes → Environment) (names : List Bytes) (env : Environment) (x : Bytes)
    → ((name : Bytes) → IsTable (source_env name).dict)
    → value (merge_sources source_env env names) x
      ≡ or_else (last_value source_env names x) (value env x)
unfolding merge_sources
value-merge_sources source_env [] env x t = refl
value-merge_sources source_env (name ∷ names) env x t =
    value-merge_sources source_env names (merge env (source_env name) true) x t
    ∙ ap (or_else (last_value source_env names x))
        (value-merge env (source_env name) true x (t name))
    ∙ or_else_assoc (last_value source_env names x) (value (source_env name) x) (value env x)

-- If the environments are tables, a variable of the merged environment has the value that the
-- result's own environment gives it; else that of the project's environment for this result; else
-- that of the last source, in the order in which the list of sources is read, that sets it; else
-- that of the project's environment; else none.
pub merged_env-precedence :
    (environment_seqid : ℕ) (r : Inputs) (x : Bytes)
    → AreTables r
    → value (merged_env environment_seqid r) x
      ≡ or_else (value r.own_env x) (
          or_else
            (value r.result_env x)
            (or_else (last_value r.source_env (totable r.sources_list).0 x) (value r.global_env x)))
unfolding merged_env new get
merged_env-precedence seqid r x t =
    let global = merge (new seqid).0 r.global_env false in
    let names = (totable r.sources_list).0 in
    let sources = merge_sources r.source_env global names in
    value-merge (merge sources r.result_env true) r.own_env true x t.own
    ∙ ap (or_else (value r.own_env x)) (
        value-merge sources r.result_env true x t.result
        ∙ ap (or_else (value r.result_env x)) (
            value-merge_sources r.source_env names global x t.source
            ∙ ap (or_else (last_value r.source_env names x))
                (value-merge (new seqid).0 r.global_env false x t.global)))
