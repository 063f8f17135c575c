-- ===== src/Params.antt =====
-- `Params` of src/common/types.hpp, and the choice of `IOfactory` (src/io/IOfactory.hpp) by its I/O type.
pub mod Tests
use monya.Prelude.{
  ℕ, Bool, true, false, not, ◌&&◌, Run, ok, throw, parameter_exception, not_implemented_exception,
  ◌>>=◌, ◌>>◌, require, ltb,
}
use monya.MemoryIo.{MatOrient}

-- `io_t`
pub data IoType : Type 0 where
  mem sem sync : IoType

-- `file_t`
pub data FileType : Type 0 where
  bin fvecs ivecs bvecs hdf5 : FileType

-- the file's name is left out
pub record Params : Type 0 where
  pub nsamples : ℕ
  pub nfeatures : ℕ
  pub iotype : IoType
  pub ntree : ℕ
  pub nthread : ℕ
  pub orientation : MatOrient
  pub fanout : ℕ
  pub max_depth : ℕ
  pub filetype : FileType

abbrev pub is_mem : IoType → Bool
is_mem mem = true
is_mem _ = false

-- the constructor, of the members' values
unfoldable pub create : Params → Run Params
create p = do require (not (not (is_mem p.iotype) && ltb 1 p.nthread)) parameter_exception; ok p

-- which `IO` the factory makes
pub data IoKind : Type 0 where
  memory_io sync_io : IoKind

unfoldable pub create_io : IoType → Run IoKind
create_io mem = ok memory_io
create_io sem = throw not_implemented_exception
create_io sync = ok sync_io
