-- ===== src/Scheduler/HandOff.antt =====
-- The loop of `run_level` hands out each node of a level once.
use mathlib.Core.List.{append-nil, append_assoc}
use mathlib.Core.List.Perm
use mathlib.Core.List.Permᴰ
use monya.Prelude.{
  ℕ, zero, suc, ◌+◌, ◌≤◌, ◌<◌, ◌^◌, ◌≡◌, refl, sym, ap, subst, ◌∙◌, false, List, [], ◌∷◌, ◌++◌,
  Perm, arith, Bool-cases, inl, inr, ok, fault, none, some, get_elem?, ◌%◌, Returns, Returns-mono,
  bind-Returns, Ptr, ◌==◌, length, take, drop, take-append-drop,
}
use monya.CUnsigned
use monya.CUnsigned.{CUnsigned}
use monya.CUnsigned.Laws.{IsCounter, inc-IsCounter, inc-max}
use monya.TaskQueue.{TaskQueue, enqueue_all}
use monya.Scheduler.{Scheduler, enqueue_on, batch_size, hand_off, run_level, get_nodes}

-- the tasks of all queues
abbrev pub all_tasks : List TaskQueue → List Ptr
all_tasks [] = []
all_tasks (q ∷ qs) = q.tasks ++ all_tasks qs

abbrev pub AllUnlocked : List TaskQueue → Type 0
AllUnlocked [] = Unit
AllUnlocked (q ∷ qs) = (q.locked ≡ false) × AllUnlocked qs

-- the queues after some tasks have been handed out
pub record Handed (before : List TaskQueue) (given : List Ptr) (after : List TaskQueue)
    : Type 0 where
  pub tasks : Perm (all_tasks after) (all_tasks before ++ given)
  pub threads : length after ≡ length before
  pub free : AllUnlocked after

append_swap : (a b c : List Ptr) → Perm (a ++ b ++ c) (a ++ c ++ b)
append_swap a b c =
    rw (append_assoc a b c, append_assoc a c b) (Perm.append_left a ∣ Permᴰ.append_comm b c ∣₁)

enqueue_on-Handed :
    (qs : List TaskQueue) (tid : ℕ) (batch : List Ptr)
    → AllUnlocked qs
    → tid < length qs
    → Returns (Handed qs batch) (enqueue_on qs tid batch)
unfolding enqueue_on enqueue_all
enqueue_on-Handed [] tid batch u h = absurd (omega arith)
enqueue_on-Handed (q ∷ qs) zero batch u h = rw u.0 (record {
  tasks = append_swap q.tasks batch (all_tasks qs);
  threads = refl;
  free = (refl, u.1);
})
enqueue_on-Handed (q ∷ qs) (suc tid) batch u h =
    bind-Returns (Handed (q ∷ qs) batch) (enqueue_on qs tid batch) _
      (enqueue_on-Handed qs tid batch u.1 (omega arith))
      λ rs r. record {
        tasks = rw (append_assoc q.tasks (all_tasks qs) batch) (Perm.append_left q.tasks r.tasks);
        threads = ap suc r.threads;
        free = (u.0, r.free);
      }

drop_nil {ℓ} : {A : Type ℓ} (n : ℕ) → drop {A = A} n [] ≡ []
drop_nil zero = refl
drop_nil (suc n) = refl

drop_cons {ℓ} :
    {A : Type ℓ} (m n : ℕ) (x : A) (xs : List A) → n ≡ suc m → drop n (x ∷ xs) ≡ drop m xs
drop_cons m n x xs e = ap (λ k. drop k (x ∷ xs)) e

drop-drop {ℓ} : {A : Type ℓ} (m n : ℕ) (xs : List A) → drop n (drop m xs) ≡ drop (m + n) xs
drop-drop zero n xs = ap (λ k. drop k xs) (omega arith)
drop-drop (suc m) n [] = drop_nil n ∙ sym (drop_nil (suc m + n))
drop-drop (suc m) n (x ∷ xs) =
    drop-drop m n xs ∙ sym (drop_cons (m + n) (suc m + n) x xs (omega arith))

drop_end {ℓ} : {A : Type ℓ} (xs : List A) → drop (length xs) xs ≡ []
drop_end [] = refl
drop_end (x ∷ xs) = drop_end xs

-- what a batch takes and what it leaves
batch-drop : (i n : ℕ) (l : List Ptr) → take n (drop i l) ++ drop (i + n) l ≡ drop i l
batch-drop i n l = rw (sym (drop-drop i n l)) (take-append-drop n (drop i l))

-- one batch, then the rest
Handed-then :
    (qs ms rs : List TaskQueue) (a b c : List Ptr)
    → a ++ b ≡ c
    → Handed qs a ms
    → Handed ms b rs
    → Handed qs c rs
Handed-then qs ms rs a b c e h k = record {
  tasks = Perm.trans k.tasks (
      subst (λ d. Perm (all_tasks ms ++ b) (all_tasks qs ++ d)) e
        (subst (Perm (all_tasks ms ++ b)) (append_assoc (all_tasks qs) a b)
          (Perm.append_right b h.tasks)));
  threads = k.threads ∙ h.threads;
  free = k.free;
}

batch_size_lem : (i n : ℕ) → i < n → (0 < batch_size i n) × (i + batch_size i n ≤ n)
unfolding batch_size
batch_size_lem i n h = ground arith

-- From any position the loop returns, and hands out exactly the nodes from there on.
pub hand_off-Handed :
    (fuel : ℕ) (l : List Ptr) (qs : List TaskQueue) (tid : CUnsigned) (i : ℕ)
    → AllUnlocked qs
    → IsCounter tid
    → tid.max ≡ length qs
    → i < length l
    → length l ≤ fuel + i
    → Returns (Handed qs (drop i l)) (hand_off fuel l qs tid i)
unfolding hand_off CUnsigned.get
hand_off-Handed zero l qs tid i u c m h f = absurd (omega arith)
hand_off-Handed (suc fuel) l qs tid i u c m h f =
    let n : ℕ = batch_size i (length l) in
    let (pos, fits) = batch_size_lem i (length l) h in
    let batch : List Ptr = take n (drop i l) in
    bind-Returns (Handed qs (drop i l)) (enqueue_on qs tid.val batch) _
      (enqueue_on-Handed qs tid.val batch u (omega (arith, c.below, m)))
      λ ms r. elim (Bool-cases (i + n == length l)) [
        | inl last ↦
            let all : i + n ≡ length l = ground arith in
            let whole : batch ++ [] ≡ drop i l =
              subst (λ d. batch ++ d ≡ drop i l) (ap (λ k. drop k l) all ∙ drop_end l)
                (batch-drop i n l) in
            rw last (subst (λ d. Handed qs d ms) (sym (append-nil batch) ∙ whole) r)
        | inr more ↦ rw more (
            Returns-mono (Handed qs (drop i l)) (hand_off fuel l ms (CUnsigned.inc tid) (i + n))
              (hand_off-Handed fuel l ms (CUnsigned.inc tid) (i + n) r.free (inc-IsCounter tid c)
                (inc-max tid ∙ m ∙ sym r.threads) (ground arith) (omega (arith, pos, f)))
              λ rs k. Handed-then qs ms rs batch (drop (i + n) l) (drop i l) (batch-drop i n l) r k)
      ]

-- what a scheduler needs to run a level: threads, few enough for an `unsigned`, with free queues
pub record IsReady (s : Scheduler) : Type 0 where
  pub some_thread : 0 < length s.threads
  pub word : length s.threads < 2 ^ 32
  pub free : AllUnlocked s.threads

pub get_nodes-get_elem? :
    (s : Scheduler) (level : ℕ) (l : List Ptr)
    → get_elem? s.nodes level ≡ some l
    → get_nodes s level ≡ ok l
unfolding get_nodes
get_nodes-get_elem? s level l e = ap (λ o. elim o [ none ↦ fault | some l ↦ ok l ]) e

-- `run_level` of a level that is not empty hands each of its nodes, once, to the queues, whose
-- earlier tasks stay; it changes nothing else.
pub run_level-Handed :
    (s : Scheduler) (level : ℕ) (l : List Ptr)
    → IsReady s
    → get_elem? s.nodes level ≡ some l
    → 0 < length l
    → Returns
        (λ t. Handed s.threads l t.threads × (t ≡ record s { threads = t.threads }))
        (run_level s level)
unfolding run_level CUnsigned.create
run_level-Handed s level l r e h =
    let size : length s.threads % 2 ^ 32 ≡ length s.threads = omega (arith, r.word) in
    let not_none : (length s.threads == 0) ≡ false = ground (arith, r.some_thread) in
    let not_empty : (length l == 0) ≡ false = ground arith in
    rw (get_nodes-get_elem? s level l e, not_empty, size, not_none)
      (bind-Returns (λ t. Handed s.threads l t.threads × (t ≡ record s { threads = t.threads }))
        (hand_off (length l) l s.threads (record { val = 0; max = length s.threads }) 0) _
        (hand_off-Handed (length l) l s.threads (record { val = 0; max = length s.threads }) 0
          r.free (record { below = r.some_thread; word = r.word }) refl h (omega arith))
        λ ts k. (k, refl))
