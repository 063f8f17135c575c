-- ===== src/Engine.antt =====
-- `ComputeEngine` of src/ComputeEngine.hpp: a forest of tree programs, of a type `P`, which are built
-- and queried one after the other; `train` builds them in the order of the forest. Their `build`,
-- `find_neighbors` and constructor are arguments.
pub mod Forest
pub mod Tests
use monya.Prelude.{
  ℕ, zero, suc, ◌+◌, List, [], ◌∷◌, ◌++◌, Option, none, some, Run, ok, throw, fault, assertion,
  not_implemented_exception, ◌>>=◌, ◌>>◌, require, ◌==◌, length, get_elem?,
}
use monya.Params.{Params}
use monya.Query
use monya.Query.{ProximityQuery}

pub record ComputeEngine (P : Type 0) : Type 0 where
  pub forest : List P
  pub params : Params

module _ {P : Type 0} where
  -- the loop of the constructor: `new TreeProgramType(params, tree_id)` for each tree
  unfoldable pub new_trees : (Params → ℕ → Run P) → Params → ℕ → ℕ → Run (List P)
  new_trees new params zero tree_id = ok []
  new_trees new params (suc n) tree_id = do
    tree ← new params tree_id
    trees ← new_trees new params n (tree_id + 1)
    ok (tree ∷ trees)

  -- `ComputeEngine(Params&)`
  pub create : (Params → ℕ → Run P) → Params → Run (ComputeEngine P)
  create new params = do
    forest ← new_trees new params params.ntree 0
    ok (record { forest = forest; params = params })

  -- `ComputeEngine(Params&, std::vector<TreeProgramType*>&)`
  pub create_with : Params → List P → ComputeEngine P
  create_with params forest = record { forest = forest; params = params }

  pub set_params : ComputeEngine P → Params → ComputeEngine P
  set_params e params = record e { params = params }

  pub add_tree : ComputeEngine P → P → ComputeEngine P
  add_tree e tree = record e { forest = e.forest ++ tree ∷ [] }

  -- `build` of each tree, which changes it
  unfoldable pub build_all : (P → Run P) → List P → Run (List P)
  build_all build [] = ok []
  build_all build (tree ∷ trees) = do
    tree ← build tree
    trees ← build_all build trees
    ok (tree ∷ trees)

  unfoldable pub train : (P → Run P) → ComputeEngine P → Run (ComputeEngine P)
  train build e = do
    require (length e.forest == e.params.ntree) assertion
    forest ← build_all build e.forest
    ok (record e { forest = forest })

  pub predict : ComputeEngine P → Run (ComputeEngine P)
  predict e = throw not_implemented_exception

  -- `forest[id]`
  pub get_tree : ComputeEngine P → ℕ → Run P
  get_tree e id = elim (get_elem? e.forest id) [ none ↦ fault | some tree ↦ ok tree ]

  pub ntree : ComputeEngine P → ℕ
  ntree e = length e.forest

  module _ {D : Type 0} where
    -- `pq->run(tree)` for each tree
    unfoldable pub query_all :
        (P → ProximityQuery D → Run (ProximityQuery D))
        → List P
        → ProximityQuery D
        → Run (ProximityQuery D)
    query_all find_neighbors [] pq = ok pq
    query_all find_neighbors (tree ∷ trees) pq = do
      pq ← Query.run (find_neighbors tree) pq
      query_all find_neighbors trees pq

    unfoldable pub query :
        (P → ProximityQuery D → Run (ProximityQuery D))
        → ComputeEngine P
        → ProximityQuery D
        → Run (ProximityQuery D)
    query find_neighbors e pq = query_all find_neighbors e.forest pq
