-- ===== src/KdTree/Program/Setup.antt =====
-- The loop of `main` in src/examples/kdtree.cpp that gives each tree of the forest its root.
use monya.Prelude.{
  ℕ, zero, suc, ◌+◌, ◌<◌, ◌≡◌, ◌≢◌, refl, ap, subst, sym, false, not, arith, List, [], ◌∷◌, Run, ok,
  assertion, ◌>>=◌, ◌>>◌, require, Returns, bind-Returns, Ptr, null, update, ◌==◌, ==_refl, ◌&&◌,
  ltb, mem, true, some,
}
use monya.CUnsigned
use monya.CUnsigned.{CUnsigned}
use monya.IndexVector.{IndexVal}
use monya.MemoryIo
use monya.MemoryIo.{MemoryIo}
use monya.NodeView
use monya.NodeView.{NodeView, index_range}
use monya.KdTree.{KdNode}
use monya.Params
use monya.Params.{Params, IoKind, memory_io}
use monya.KdTree.Program.{KdHeap, deref}
use monya.KdTree.Program.Prepare.{samples_of}
use monya.KdTree.Program.Build.{IsFresh}
use monya.TreeProgram.{Program}
use monya.TreeProgram.Setup.{open_matrix, create, create-IsCreated}

pub mem-index_range : (n start i : ℕ) → mem i (index_range n start) ≡ true → i < start + n
unfolding index_range
mem-index_range zero start i e = cc
mem-index_range (suc n) start i e = ground (arith, mem-index_range n (start + 1) i)

module _ {D : Type 0} where
  -- the matrix that the constructor of a program in memory loads
  abbrev pub loaded : Params → List D → MemoryIo D
  loaded params d = record {
    data_ = some d;
    orientation = params.orientation;
    dim = (params.nsamples, params.nfeatures);
    is_data_local = true;
  }

  -- the nodes over the matrix that the constructor opens
  unfoldable pub configure :
      Params → Run (List D) → Run (MemoryIo D) → KdHeap D → IoKind → Run (KdHeap D)
  configure params file sync h kind = do
    io ← open_matrix params file sync kind
    ok (record h { io = io })

  pub configure-loaded :
      (params : Params) (d : List D) (sync : Run (MemoryIo D)) (h : KdHeap D)
      → configure params (ok d) sync h memory_io ≡ ok (record h { io = loaded params d })
  unfolding configure open_matrix MemoryIo.create MemoryIo.set_orientation MemoryIo.shape
      MemoryIo.from_file
  configure-loaded params d sync h = refl

  -- `BinaryTreeProgram::set_root`, of a program that has no root: `insert` clears the node's links
  unfoldable pub set_first_root : Ptr → Program (KdHeap D) → Ptr → Run (Program (KdHeap D))
  set_first_root ioer p node = do
    require (not (node == null)) assertion
    require (not (ioer == null)) assertion
    n ← deref p.nodes node (p.nodes.node node)
    let n = record n { view = NodeView.set_ioer n.view ioer }
    ok (record p {
      root = node;
      nodes = record p.nodes {
        node = update p.nodes.node node n;
        left = update p.nodes.left node null;
        right = update p.nodes.right node null;
      };
    })

  -- the loop's body: `new kdnode` with its dimension, which is also the column that it asks for
  unfoldable pub init_root : NodeView D → Ptr → ℕ → Program (KdHeap D) → Run (Program (KdHeap D))
  unfolding set_first_root
  init_root blank ioer split_dim p = do
    let root = p.nodes.next
    let n : KdNode D = record { view = NodeView.set_index blank split_dim; split_dim = split_dim }
    set_first_root ioer
        (record p {
          nodes = record p.nodes { node = update p.nodes.node root n; next = p.nodes.next + 1 };
        })
        root

  -- the loop over the forest
  unfoldable pub init_roots :
      NodeView D → Ptr → CUnsigned → List (Program (KdHeap D)) → Run (List (Program (KdHeap D)))
  init_roots blank ioer split_dim [] = ok []
  init_roots blank ioer split_dim (tree ∷ trees) = do
    tree ← init_root blank ioer (CUnsigned.get split_dim) tree
    trees ← init_roots blank ioer (CUnsigned.inc split_dim) trees
    ok (tree ∷ trees)

  rows_of_empty :
      (io : MemoryIo D) (items : List (IndexVal D)) (i : ℕ)
      → items ≡ []
      → mem i (samples_of io items) ≡ true
      → i < io.dim.0
  rows_of_empty io items i none e =
      let h = mem-index_range io.dim.0 0 i (subst (λ z. mem i (samples_of io z) ≡ true) none e) in
      omega (arith, h)

  -- The root of a new program over a matrix is as `build` needs it.
  pub create-init_root-IsFresh :
      (params : Params) (configure : IoKind → Run (KdHeap D)) (h : KdHeap D) (blank : NodeView D)
      (ioer : Ptr) (split_dim : ℕ)
      → params.iotype ≡ Params.mem
      → configure memory_io ≡ ok h
      → params.fanout ≡ 2
      → params.ntree ≢ 0
      → (ioer == null) ≡ false
      → 0 < h.next
      → split_dim < h.io.dim.1
      → blank.depth ≡ 0
      → blank.data_index.items ≡ []
      → Returns
          (λ p. IsFresh h.io p × (p.max_depth ≡ params.max_depth))
          (create params configure >>= λ p. init_root blank ioer split_dim p)
  unfolding init_root NodeView.set_index NodeView.set_ioer
  create-init_root-IsFresh params configure h blank ioer split_dim in_memory opens two some_tree
        some_io some_addr dim depth none =
      bind-Returns _ (create params configure) _
        (create-IsCreated params configure h in_memory opens two some_tree)
        λ p c.
          let h' = p.nodes in
          let same : p.nodes ≡ h = c.kept in
          let some_addr' : 0 < p.nodes.next = subst (λ z. 0 < z.next) (sym same) some_addr in
          let not_null : (p.nodes.next == null) ≡ false = ground arith in
          let live : (ltb 0 p.nodes.next && ltb p.nodes.next (p.nodes.next + 1)) ≡ true =
            ground arith in
          let self : (p.nodes.next == p.nodes.next) ≡ true = ==_refl p.nodes.next in
          rw (not_null, some_io, live)
            (
              record {
                idle = record {
                  ready = c.idle.ready;
                  empty = c.idle.empty;
                  levelled = c.idle.levelled;
                  binary = c.idle.binary;
                };
                parent = blank.parent;
                placed = record {
                  live = live;
                  parent = rw self refl;
                  depth_ = rw self depth;
                  ioer = rw self some_io;
                  ready = record {
                    request = rw self refl;
                    dim = rw self (subst (λ z. split_dim < z.io.dim.1) (sym same) dim);
                    rows = λ i e. rows_of_empty p.nodes.io _ i (rw self none) e;
                  };
                };
                no_left = rw self refl;
                no_right = rw self refl;
                matrix = ap (λ z. z.io) same;
                no_sample = rw self none;
              },
              c.depth,
            )
