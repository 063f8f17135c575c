-- ===== src/TreeProgram/Setup.antt =====
-- The constructors of `Scheduler` (src/structures/Scheduler.cpp) and of `BinaryTreeProgram`
-- (src/BinaryTreeProgram.hpp), after the new threads have gone into their wait. The name of the file is
-- left out: it is not empty.
use monya.Prelude.{
  ℕ, zero, suc, ◌/◌, ◌^◌, ◌<◌, ◌≡◌, refl, arith, List, [], ◌∷◌, Run, ok, throw,
  not_implemented_exception, fault, assertion, ◌>>=◌, ◌>>◌, require, Returns, bind-Returns, subst,
  sym, ◌≢◌, true, null, ltb, ◌==◌, ◌&&◌, if◌then◌else◌, length,
}
use monya.MemoryIo
use monya.MemoryIo.{MemoryIo}
use monya.Params.{Params, IoType, IoKind, memory_io, sync_io, create_io, mem, sem}
use monya.TaskQueue
use monya.TaskQueue.{TaskQueue}
use monya.Scheduler.{Scheduler}
use monya.Scheduler.HandOff.{all_tasks, AllUnlocked}
use monya.TreeProgram.{Program}
use monya.TreeProgram.Fill.{IsIdle}

-- the task queues of `n` new threads
unfoldable pub new_queues : ℕ → List TaskQueue
new_queues zero = []
new_queues (suc n) = TaskQueue.create ∷ new_queues n

-- `Scheduler::Scheduler`
unfoldable pub new_scheduler : ℕ → ℕ → ℕ → Scheduler
new_scheduler fanout max_depth nthread = record {
  fanout = fanout;
  max_levels = max_depth;
  current_level = 0;
  nodes = [];
  threads = new_queues nthread;
}

-- `std::max(1, static_cast<int>(params.nthread/params.ntree))`
unfoldable pub nworkers : Params → Run ℕ
nworkers params = if params.ntree == 0 then fault else do
  let share = params.nthread / params.ntree
  ok (if ltb 0 share && ltb share (2 ^ 31) then share else 1)

-- what the constructor does with the new `IO`: its orientation, its shape and, of a `MemoryIO`, the
-- contents of the file. What a `SyncIO` reads is the argument `sync`.
unfoldable pub open_matrix :
    {D : Type 0} → Params → Run (List D) → Run (MemoryIo D) → IoKind → Run (MemoryIo D)
open_matrix params file sync memory_io =
    let ioer = MemoryIo.set_orientation MemoryIo.create params.orientation in
    MemoryIo.from_file file (MemoryIo.shape ioer (params.nsamples, params.nfeatures))
open_matrix params file sync sync_io = sync

-- `BinaryTreeProgram(Params&, tree_t, int)`. `configure` makes the nodes over the new `IO`.
unfoldable pub create : {S : Type 0} → Params → (IoKind → Run S) → Run (Program S)
create params configure = do
  kind ← create_io params.iotype
  nodes ← configure kind
  require (params.fanout == 2) assertion
  n ← nworkers params
  ok (record {
    root = null;
    max_depth = params.max_depth;
    scheduler = new_scheduler params.fanout params.max_depth n;
    nodes = nodes;
  })

new_queues-free : (n : ℕ) → AllUnlocked (new_queues n)
unfolding new_queues TaskQueue.create
new_queues-free zero = tt
new_queues-free (suc n) = (refl, new_queues-free n)

new_queues-empty : (n : ℕ) → all_tasks (new_queues n) ≡ []
unfolding new_queues TaskQueue.create
new_queues-empty zero = refl
new_queues-empty (suc n) = new_queues-empty n

length-new_queues : (n : ℕ) → length (new_queues n) ≡ n
unfolding new_queues
length-new_queues zero = refl
length-new_queues (suc n) = omega (arith, length-new_queues n)

nworkers-pos :
    (params : Params) → params.ntree ≢ 0 → Returns (λ n. (0 < n) × (n < 2 ^ 32)) (nworkers params)
unfolding nworkers
nworkers-pos params h = ground arith

create_io-mem : (t : IoType) → t ≡ mem → create_io t ≡ ok memory_io
unfolding create_io
create_io-mem t e = rw e refl

-- A type of I/O that the factory does not know ends the constructor.
create_refused :
    {S : Type 0} (params : Params) (configure : IoKind → Run S)
    → params.iotype ≡ sem
    → create params configure ≡ throw not_implemented_exception
unfolding create create_io
create_refused params configure e = rw e refl

-- what the constructor makes
pub record IsCreated {S : Type 0} (params : Params) (nodes : S) (p : Program S) : Type 0 where
  pub idle : IsIdle p [] []
  pub kept : p.nodes ≡ nodes
  pub no_root : p.root ≡ null
  pub depth : p.max_depth ≡ params.max_depth

pub create-IsCreated :
    {S : Type 0} (params : Params) (configure : IoKind → Run S) (nodes : S)
    → params.iotype ≡ mem
    → configure memory_io ≡ ok nodes
    → params.fanout ≡ 2
    → params.ntree ≢ 0
    → Returns (IsCreated params nodes) (create params configure)
unfolding create new_scheduler
create-IsCreated params configure nodes in_memory opens two some_tree =
    let binary : (params.fanout == 2) ≡ true = ground arith in
    rw (create_io-mem params.iotype in_memory, opens, binary)
      (bind-Returns (IsCreated params nodes) (nworkers params) _ (nworkers-pos params some_tree)
        λ n (pos, word). record {
          idle = record {
            ready = record {
              some_thread = omega (arith, length-new_queues n, pos);
              word = omega (arith, length-new_queues n, word);
              free = new_queues-free n;
            };
            empty = new_queues-empty n;
            levelled = record {
              nodes = refl;
              levels = refl;
              all_full = tt;
              room = subst (λ f. 0 < f ^ 0) (sym two) (omega arith);
            };
            binary = two;
          };
          kept = refl;
          no_root = refl;
          depth = refl;
        })
