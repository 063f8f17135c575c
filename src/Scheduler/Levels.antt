-- ===== src/Scheduler/Levels.antt =====
-- The levels of a scheduler: each below the current one holds `fanout ^ level` nodes, and the current
-- one fewer.
use mathlib.Core.List.{append-nil}
use native.Mathlib.Nat.{one-le-pow}
use monya.Prelude.{
  ℕ, ◌+◌, ◌<◌, ◌^◌, ◌≡◌, refl, sym, ap, subst, ◌∙◌, true, false, some, List, [], ◌∷◌, ◌++◌, arith,
  Bool-cases, inl, inr, ok, Returns, Returns-mono, Ptr, ltb, ◌==◌, if◌then◌else◌, length, get_elem?,
  length-append,
}
use monya.Scheduler.{Scheduler, push_at, level_is_full, run_level, schedule}
use monya.Scheduler.HandOff.{Handed, IsReady, run_level-Handed, get_nodes-get_elem?}

-- the full levels from `level` on
abbrev pub AllFull : ℕ → ℕ → List (List Ptr) → Type 0
AllFull fanout level [] = Unit
AllFull fanout level (l ∷ ls) = (length l ≡ fanout ^ level) × AllFull fanout (level + 1) ls

-- the level being filled, which has no list before its first node
abbrev pub open_level : List Ptr → List (List Ptr)
open_level [] = []
open_level (p ∷ ps) = (p ∷ ps) ∷ []

pub record IsLevelled (s : Scheduler) (full : List (List Ptr)) (current : List Ptr) : Type 0 where
  pub nodes : s.nodes ≡ full ++ open_level current
  pub levels : length full ≡ s.current_level
  pub all_full : AllFull s.fanout 0 full
  pub room : length current < s.fanout ^ s.current_level

-- The level has been filled, its nodes are handed out once, and the next one begins.
abbrev pub Filled : Scheduler → List (List Ptr) → List Ptr → Scheduler → Type 0
Filled s full level t =
    IsLevelled t (full ++ level ∷ []) [] × Handed s.threads level t.threads × (t.fanout ≡ s.fanout)

-- The node has been filed on the level, and nothing has been handed out.
abbrev pub Filed : Scheduler → List (List Ptr) → List Ptr → Scheduler → Type 0
Filed s full level t = IsLevelled t full level × (t.threads ≡ s.threads) × (t.fanout ≡ s.fanout)

-- what a call of `schedule` has done with its node
abbrev pub Scheduled : Scheduler → List (List Ptr) → List Ptr → Scheduler → Type 0
Scheduled s full level t =
    if s.fanout ^ s.current_level == length level
    then Filled s full level t
    else Filed s full level t

pub last_level :
    (full : List (List Ptr)) (l : List Ptr) → get_elem? (full ++ l ∷ []) (length full) ≡ some l
last_level [] l = refl
last_level (x ∷ full) l = last_level full l

push_at_last :
    (full : List (List Ptr)) (l : List Ptr) (node : Ptr)
    → push_at (full ++ l ∷ []) (length full) node ≡ ok (full ++ (l ++ node ∷ []) ∷ [])
unfolding push_at
push_at_last [] l node = refl
push_at_last (x ∷ full) l node = rw (push_at_last full l node) refl

AllFull-append :
    (fanout level : ℕ) (full : List (List Ptr)) (l : List Ptr)
    → AllFull fanout level full
    → length l ≡ fanout ^ (level + length full)
    → AllFull fanout level (full ++ l ∷ [])
AllFull-append fanout level [] l a e = (e ∙ ap (λ k. fanout ^ k) (omega arith), tt)
AllFull-append fanout level (x ∷ full) l a e =
    (a.0, AllFull-append fanout (level + 1) full l a.1 (e ∙ ap (λ k. fanout ^ k) (omega arith)))

-- the list of levels once the node is filed
file_node :
    (s : Scheduler) (full : List (List Ptr)) (current : List Ptr) (node : Ptr)
    → IsLevelled s full current
    → (if ltb (length s.nodes) (s.current_level + 1)
        then ok (s.nodes ++ (node ∷ []) ∷ [])
        else push_at s.nodes s.current_level node)
      ≡ ok (full ++ (current ++ node ∷ []) ∷ [])
file_node s full [] node v =
    let whole : s.nodes ≡ full = v.nodes ∙ append-nil full in
    let first : ltb (length s.nodes) (s.current_level + 1) ≡ true =
      rw whole (ground (arith, v.levels)) in
    rw (first, whole) refl
file_node s full (p ∷ ps) node v =
    let len = length-append full ((p ∷ ps) ∷ []) in
    let later : ltb (length s.nodes) (s.current_level + 1) ≡ false =
      rw v.nodes (ground (arith, v.levels, len)) in
    rw (later, v.nodes, sym v.levels) (push_at_last full (p ∷ ps) node)

open_append :
    (current : List Ptr) (node : Ptr)
    → open_level (current ++ node ∷ []) ≡ (current ++ node ∷ []) ∷ []
open_append [] node = refl
open_append (p ∷ ps) node = refl

pow_pos : (b n : ℕ) → 0 < b → 0 < b ^ n
pow_pos b n h = one-le-pow n b h

-- the levels after the current one is filled, and while it is not
IsLevelled-next :
    (s t : Scheduler) (full : List (List Ptr)) (level : List Ptr)
    → length full ≡ s.current_level
    → AllFull s.fanout 0 full
    → 0 < s.fanout
    → s.fanout ^ s.current_level ≡ length level
    → t.nodes ≡ full ++ level ∷ []
    → t.fanout ≡ s.fanout
    → t.current_level ≡ s.current_level + 1
    → IsLevelled t (full ++ level ∷ []) []
IsLevelled-next s t full level levels all_full pos e n f c = record {
  nodes = n ∙ sym (append-nil (full ++ level ∷ []));
  levels = omega (arith, c, levels, length-append full (level ∷ []));
  all_full = rw f (
      AllFull-append s.fanout 0 full level all_full
        (sym e ∙ ap (λ k. s.fanout ^ k) (omega (arith, levels))));
  room = rw f (pow_pos s.fanout t.current_level pos);
}

-- `schedule` files the node on the current level. Where that fills the level, its nodes go to the
-- threads' queues, each once, and the next level begins; elsewhere the queues stay as they are.
pub schedule-Scheduled :
    (s : Scheduler) (full : List (List Ptr)) (current : List Ptr) (node : Ptr)
    → IsReady s
    → IsLevelled s full current
    → 0 < s.fanout
    → Returns (Scheduled s full (current ++ node ∷ [])) (schedule s node)
unfolding schedule level_is_full
schedule-Scheduled s full current node r v pos =
    let level = current ++ node ∷ [] in
    let len = length-append current (node ∷ []) in
    let filed : Scheduler = record s { nodes = full ++ level ∷ [] } in
    let here : get_elem? filed.nodes s.current_level ≡ some level =
      subst (λ k. get_elem? (full ++ level ∷ []) k ≡ some level) v.levels (last_level full level) in
    rw (file_node s full current node v, get_nodes-get_elem? filed s.current_level level here)
      (elim (Bool-cases (s.fanout ^ s.current_level == length level)) [
        | inl filled ↦
            let next : Scheduler = record filed { current_level = s.current_level + 1 } in
            rw filled (
              Returns-mono _ (run_level next s.current_level)
                (run_level-Handed next s.current_level level
                  (record { some_thread = r.some_thread; word = r.word; free = r.free }) here
                  (omega (arith, len)))
                λ t (handed, e). rw filled (
                  IsLevelled-next s t full level v.levels v.all_full pos (ground arith)
                      (ap (λ u. u.nodes) e) (ap (λ u. u.fanout) e) (ap (λ u. u.current_level) e),
                  handed,
                  ap (λ u. u.fanout) e,
                ))
        | inr more ↦
            rw (more, more)
              (
                record {
                  nodes = ap (λ o. full ++ o) (sym (open_append current node));
                  levels = v.levels;
                  all_full = v.all_full;
                  room = ground (arith, v.room, len);
                },
                refl,
                refl,
              )
      ])
