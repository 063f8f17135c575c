-- ===== src/Params/Tests.antt =====
-- Parameters with and without threads on external memory.
use monya.Prelude.{◌≡◌, refl, ok, throw, parameter_exception}
use monya.MemoryIo.{col}
use monya.Params.{Params, IoType, mem, sem, bin, create}

abbrev pub threaded : IoType → Params
threaded iotype = record {
  nsamples = 10;
  nfeatures = 2;
  iotype = iotype;
  ntree = 1;
  nthread = 4;
  orientation = col;
  fanout = 2;
  max_depth = 8;
  filetype = bin;
}

create_in_memory : create (threaded mem) ≡ ok (threaded mem)
unfolding create
create_in_memory = refl

create_refuses : create (threaded sem) ≡ throw parameter_exception
unfolding create
create_refuses = refl
