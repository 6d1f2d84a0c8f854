-- ===== src/Lstl/Linked/Clearing.antt =====
-- LSTL/list.h: `clear`, which destroys every node but the list's own.
use xjblg.Base.{
  ℕ, zero, suc, ◌<◌, ◌≡◌, refl, sym, ◌∙◌, ◌≢◌, inl, inr, false, some, List, [], ◌∷◌, arith, length,
  ◌==◌, ==_iff, ==-refl, Bool-cases,
}
use xjblg.Base.Maps.{put, put-same, put-other}
use xjblg.Lstl.Linked.{
  absent, raw, Memory, is_held, value_of, set_next, set_prev, get_next, destroy_node, clear_loop,
  clear,
}
use xjblg.Lstl.Linked.Chain.{Chain, Away, Apart, first_of, Chain-put_cell, next_first}
use xjblg.Lstl.Linked.Inserting.{Ring}

differs : (a b : ℕ) → a ≢ b → (a == b) ≡ false
differs a b n = elim (Bool-cases (a == b)) [ inl e ↦ absurd (n ((==_iff a b).0 e)) | inr e ↦ e ]

module _ {A : Type 0} where
  -- None of the nodes is in use.
  abbrev pub AreFreed : Memory A → List (ℕ × A) → Type 0
  AreFreed h [] = Unit
  AreFreed h ((p, v) ∷ cs) = (h.cells p ≡ absent) × AreFreed h cs

  -- What the loop leaves of the memory.
  record Cleared (node : ℕ) (cs : List (ℕ × A)) (h h' : Memory A) : Type 0 where
    pub others : (m : ℕ) → Away m cs → h'.cells m ≡ h.cells m
    pub freed : AreFreed h' cs

  clear_loop-Cleared :
      (fuel node a : ℕ) (cs : List (ℕ × A)) (h : Memory A)
      → length cs < fuel
      → Chain h a cs node
      → Apart cs
      → Away node cs
      → (h' : Memory A) × (clear_loop fuel node (first_of cs node) h ≡ some h')
        × Cleared node cs h h'
  unfolding clear_loop get_next destroy_node is_held value_of
  clear_loop-Cleared zero node a cs h lt c d w = absurd (omega (arith, lt))
  clear_loop-Cleared (suc fuel) node a [] h lt c d w =
      (h, rw (==-refl node) refl, record { others = λ m u. refl; freed = tt })
  clear_loop-Cleared (suc fuel) node a ((p, v) ∷ cs) h lt (e, f, g, c) d w =
      let t : Memory A = record h { cells = put h.cells p absent } in
      let (h', loop, cleared) =
        clear_loop-Cleared fuel node p cs t (omega arith)
          (Chain-put_cell p absent h p cs node d.0 c) d.1 w.1 in
      (
        h',
        rw (differs p node w.0, g, next_first h p cs node c) loop,
        record {
          others = λ m u. cleared.others m u.1 ∙ put-other h.cells p absent m (λ z. u.0 (sym z));
          freed = (cleared.others p d.0 ∙ put-same h.cells p absent, cleared.freed);
        },
      )

  -- A ring is cleared, with more fuel than it has values: the call returns, the list is empty, none of the
  -- old nodes is in use any more, and what stands at any other place is as before.
  pub clear-Ring :
      (fuel : ℕ) (h : Memory A) (node : ℕ) (cs : List (ℕ × A)) (m : ℕ)
      → length cs < fuel
      → Ring h node cs
      → Away m cs
      → (h' : Memory A) × (clear fuel node h ≡ some h')
        × Ring h' node []
        × AreFreed h' cs
        × (h'.cells m ≡ h.cells m)
  unfolding clear get_next set_next set_prev is_held
  clear-Ring fuel h node cs m lt r other =
      let (t, loop, cleared) = clear_loop-Cleared fuel node node cs h lt r.chain r.apart r.away in
      let own : t.cells node ≡ raw = cleared.others node r.away ∙ r.sentinel in
      (
        record t { next = put t.next node node; prev = put t.prev node node },
        rw (r.sentinel, next_first h node cs node r.chain, loop, own, own) refl,
        record {
          chain = (put-same t.next node node, put-same t.prev node node);
          apart = tt;
          away = tt;
          sentinel = own;
        },
        cleared.freed,
        cleared.others m other,
      )
