-- ===== src/Net/LoopPool/RoundRobin.antt =====
-- The loops of a pool are handed out in turn.
use xjblg.Base.{
  ℕ, zero, suc, ◌+◌, ◌<◌, ◌≡◌, refl, sym, ap, ◌∙◌, true, false, Option, some, List, [], ◌∷◌, arith,
  length, get_elem?, drop, drop-all, leb, le→leb, ◌>>=◌, if◌then◌else◌,
}
use xjblg.Net.LoopPool.{LoopPool, get_next_loop}

-- What so many calls of `getNextLoop` return, and what they leave.
abbrev pub next_loops : ℕ → LoopPool → Option (List ℕ × LoopPool)
next_loops zero p = some ([], p)
next_loops (suc n) p =
    get_next_loop p >>= λ (l, p'). (next_loops n p' >>= λ (ls, p''). some (l ∷ ls, p''))

drop-get_elem? :
    (ls : List ℕ) (i : ℕ)
    → i < length ls
    → (l : ℕ) × (get_elem? ls i ≡ some l) × (drop i ls ≡ l ∷ drop (suc i) ls)
drop-get_elem? [] i h = absurd (omega arith)
drop-get_elem? (l ∷ ls) zero h = (l, refl, refl)
drop-get_elem? (l ∷ ls) (suc i) h = drop-get_elem? ls i (omega arith)

-- A started pool with loops.
abbrev pub pool_at : ℕ → ℕ → ℕ → ℕ → List ℕ → LoopPool
pool_at base threads i l ls = record {
  base_loop = base;
  started = true;
  num_threads = threads;
  next = i;
  loops = l ∷ ls;
}

-- One call, in a pool that has loops.
get_next_loop-at :
    (base threads i l : ℕ) (ls : List ℕ) (loop : ℕ)
    → get_elem? (l ∷ ls) i ≡ some loop
    → get_next_loop (pool_at base threads i l ls)
      ≡ some (loop, pool_at base threads (if leb (length (l ∷ ls)) (i + 1) then 0 else i + 1) l ls)
unfolding get_next_loop
get_next_loop-at base threads i l ls loop e = rw (get_next_loop, e)

-- The calls from index `i` to the end.
next_loops-from :
    (n base threads i l : ℕ) (ls : List ℕ)
    → i + suc n ≡ length (l ∷ ls)
    → next_loops (suc n) (pool_at base threads i l ls)
      ≡ some (drop i (l ∷ ls), pool_at base threads 0 l ls)
next_loops-from zero base threads i l ls h =
    let (loop, got, dropped) = drop-get_elem? (l ∷ ls) i (omega arith) in
    let last : leb (length (l ∷ ls)) (i + 1) ≡ true = le→leb _ _ (omega arith) in
    let nothing : drop (suc i) (l ∷ ls) ≡ [] = drop-all (suc i) (l ∷ ls) (omega arith) in
    let step : get_next_loop (pool_at base threads i l ls)
        ≡ some (loop, pool_at base threads 0 l ls) =
      get_next_loop-at base threads i l ls loop got
      ∙ ap (λ t. some (loop, pool_at base threads (if t then 0 else i + 1) l ls)) last in
    rw step (
      ap (λ (d : List ℕ). some (d, pool_at base threads 0 l ls))
        (sym (dropped ∙ ap (◌∷◌ loop) nothing)))
next_loops-from (suc n) base threads i l ls h =
    let (loop, got, dropped) = drop-get_elem? (l ∷ ls) i (omega arith) in
    let more : leb (length (l ∷ ls)) (i + 1) ≡ false = ground arith in
    let step : get_next_loop (pool_at base threads i l ls)
        ≡ some (loop, pool_at base threads (i + 1) l ls) =
      get_next_loop-at base threads i l ls loop got
      ∙ ap (λ t. some (loop, pool_at base threads (if t then 0 else i + 1) l ls)) more in
    let at_next : i + 1 ≡ suc i = omega arith in
    rw (step, next_loops-from n base threads (i + 1) l ls (omega arith))
      (ap (λ (d : List ℕ). some (d, pool_at base threads 0 l ls))
        (ap (λ j. loop ∷ drop j (l ∷ ls)) at_next ∙ sym dropped))

-- From a started pool with loops whose next index is 0, as many calls of `getNextLoop` as there are loops
-- return each loop once, in their order, and leave the pool as it was.
pub next_loops-round :
    (base threads l : ℕ) (ls : List ℕ)
    → next_loops (length (l ∷ ls)) (pool_at base threads 0 l ls)
      ≡ some (l ∷ ls, pool_at base threads 0 l ls)
next_loops-round base threads l ls = next_loops-from (length ls) base threads 0 l ls (omega arith)
