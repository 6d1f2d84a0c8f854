-- ===== src/Lstl/Linked/Inserting.antt =====
-- LSTL/list.h: `insert`, and what is made of it.
use xjblg.Base.{ℕ, ◌≡◌, refl, sym, ap, ◌∙◌, ◌≢◌, true, some, List, [], ◌∷◌, ◌++◌}
use mathlib.Core.Path.{subst}
use xjblg.Base.Maps.{put, put-same, put-other}
use xjblg.Lstl.Linked.{
  absent, raw, object, Memory, is_held, set_next, set_prev, get_prev, create_node, insert,
}
use xjblg.Lstl.Linked.Chain.{
  Chain, Away, Apart, first_of, Chain-put_next, Chain-put_prev, Chain-put_cell, prev_first,
  first-Away, last-Away,
}

module _ {A : Type 0} where
  -- The list is the ring from its own node through the nodes of the values and back.
  pub record Ring (h : Memory A) (node : ℕ) (cs : List (ℕ × A)) : Type 0 where
    pub chain : Chain h node cs node
    pub apart : Apart cs
    pub away : Away node cs
    pub sentinel : h.cells node ≡ raw

  pub fresh-Away :
      (h : Memory A) (n a : ℕ) (cs : List (ℕ × A)) (b : ℕ)
      → h.cells n ≡ absent
      → Chain h a cs b
      → Away n cs
  fresh-Away h n a [] b f c = tt
  fresh-Away h n a ((p, v) ∷ cs) b f (e, g, o, c) =
      ((λ same. let q : h.cells p ≡ absent = ap h.cells same ∙ f in cc), fresh-Away h n p cs b f c)

  pub first_held :
      (h : Memory A) (a : ℕ) (xs ys : List (ℕ × A)) (b : ℕ)
      → is_held (h.cells b) ≡ true
      → Chain h a (xs ++ ys) b
      → is_held (h.cells (first_of ys b)) ≡ true
  unfolding is_held
  first_held h a [] [] b held c = held
  first_held h a [] ((p, v) ∷ ys) b held c = rw c.2 refl
  first_held h a (x ∷ xs) ys b held c = first_held h x.0 xs ys b held c.3

  pub last_held :
      (h : Memory A) (a : ℕ) (xs ys : List (ℕ × A)) (b : ℕ)
      → is_held (h.cells a) ≡ true
      → Chain h a (xs ++ ys) b
      → is_held (h.cells (h.prev (first_of ys b))) ≡ true
  unfolding is_held
  last_held h a [] ys b held c = rw (prev_first h a ys b c) held
  last_held h a ((p, v) ∷ xs) ys b held (e, f, g, c) = last_held h p xs ys b (rw g refl) c

  -- The memory behind `insert`.
  abbrev pub inserted : ℕ → A → ℕ → Memory A → Memory A
  inserted q v n h = record {
    next = put (put h.next n q) (h.prev q) n;
    prev = put (put h.prev n (h.prev q)) q n;
    cells = put h.cells n (object v);
  }

  insert-eq :
      (q : ℕ) (v : A) (n : ℕ) (h : Memory A)
      → q ≢ n
      → h.prev q ≢ n
      → is_held (h.cells q) ≡ true
      → is_held (h.cells (h.prev q)) ≡ true
      → insert q v n h ≡ some (inserted q v n h)
  unfolding insert create_node set_next set_prev get_prev is_held
  insert-eq q v n h q≢n r≢n held held' =
      let here = put-same h.cells n (object v) in
      let there = put-other h.cells n (object v) q q≢n in
      rw (
        here,
        there,
        held,
        here,
        put-other h.prev n (h.prev q) q q≢n,
        there,
        held,
        put-other h.cells n (object v) (h.prev q) r≢n,
        held',
        there,
        held,
      )

  module _ (n : ℕ) (v : A) (h : Memory A) (b : ℕ) (b≢n : b ≢ n) where
    -- The second part hangs on the new node.
    tail-Chain :
        (a : ℕ) (ys : List (ℕ × A))
        → a ≢ n
        → Away n ys
        → Away a ys
        → Apart ys
        → Away b ys
        → Chain h a ys b
        → Chain (inserted (first_of ys b) v n h) n ys b
    tail-Chain a [] a≢n w wa d wb (e, f) =
        let n≢r : n ≢ h.prev b = λ p. a≢n (sym (p ∙ f)) in
        (put-other _ (h.prev b) n n n≢r ∙ put-same h.next n b, put-same _ b n)
    tail-Chain a ((q, x) ∷ ys) a≢n w wa d wb (e, f, g, c) =
        let n≢r : n ≢ h.prev q = λ p. a≢n (sym (p ∙ f)) in
        let c1 = Chain-put_cell n (object v) h q ys b w.1 c in
        let h1 : Memory A = record h { cells = put h.cells n (object v) } in
        let c2 = Chain-put_next n q h1 q ys b w.0 w.1 c1 in
        let h2 : Memory A = record h1 { next = put h.next n q } in
        let c3 =
          Chain-put_next (h.prev q) n h2 q ys b (λ p. wa.0 (p ∙ f))
            (subst (λ t. Away t ys) (sym f) wa.1) c2 in
        let h3 : Memory A = record h2 { next = put h2.next (h.prev q) n } in
        let c4 = Chain-put_prev n (h.prev q) h3 q ys b b≢n w.1 c3 in
        let h4 : Memory A = record h3 { prev = put h.prev n (h.prev q) } in
        (
          put-other _ (h.prev q) n n n≢r ∙ put-same h.next n q,
          put-same _ q n,
          put-other h.cells n (object v) q w.0 ∙ g,
          Chain-put_prev q n h4 q ys b (λ p. wb.0 (sym p)) d.0 c4,
        )

    inserted-Chain :
        (a : ℕ) (xs ys : List (ℕ × A))
        → a ≢ n
        → Away n (xs ++ ys)
        → Away a (xs ++ ys)
        → Apart (xs ++ ys)
        → Away b (xs ++ ys)
        → Chain h a (xs ++ ys) b
        → Chain (inserted (first_of ys b) v n h) a (xs ++ ((n, v) ∷ ys)) b
    inserted-Chain a [] ys a≢n w wa d wb c =
        let r : h.prev (first_of ys b) ≡ a = prev_first h a ys b c in
        let q≢n : first_of ys b ≢ n = first-Away n [] ys b b≢n w in
        (
          ap (put (put h.next n (first_of ys b)) (h.prev (first_of ys b)) n) (sym r)
              ∙ put-same _ (h.prev (first_of ys b)) n,
          put-other _ (first_of ys b) n n (λ p. q≢n (sym p))
              ∙ put-same h.prev n (h.prev (first_of ys b))
              ∙ r,
          put-same h.cells n (object v),
          tail-Chain a ys a≢n w wa d wb c,
        )
    inserted-Chain a ((p, x) ∷ xs) ys a≢n w wa d wb (e, f, g, c) =
        let q = first_of ys b in
        let a≢r : a ≢ h.prev q = λ z. last-Away a h p xs ys b wa.0 wa.1 c (sym z) in
        let p≢q : p ≢ q = λ z. first-Away p xs ys b (λ t. wb.0 (sym t)) d.0 (sym z) in
        (
          put-other _ (h.prev q) n a a≢r ∙ put-other h.next n q a a≢n ∙ e,
          put-other _ q n p p≢q ∙ put-other h.prev n (h.prev q) p w.0 ∙ f,
          put-other h.cells n (object v) p w.0 ∙ g,
          inserted-Chain p xs ys w.0 w.1 d.0 d.1 wb.1 c,
        )

  Away-insert :
      (m n : ℕ) (v : A) (xs ys : List (ℕ × A))
      → n ≢ m
      → Away m (xs ++ ys)
      → Away m (xs ++ ((n, v) ∷ ys))
  Away-insert m n v [] ys n≢m w = (n≢m, w)
  Away-insert m n v (x ∷ xs) ys n≢m w = (w.0, Away-insert m n v xs ys n≢m w.1)

  Apart-insert :
      (n : ℕ) (v : A) (xs ys : List (ℕ × A))
      → Away n (xs ++ ys)
      → Apart (xs ++ ys)
      → Apart (xs ++ ((n, v) ∷ ys))
  Apart-insert n v [] ys w d = (w, d)
  Apart-insert n v ((p, x) ∷ xs) ys w d =
      (Away-insert p n v xs ys (λ z. w.0 (sym z)) d.0, Apart-insert n v xs ys w.1 d.1)

  -- A value is inserted in front of a node of a ring, or of its end: with a node that is not yet in use the
  -- call returns, and the ring is the old one with the new node and the value at that place.
  pub insert-Ring :
      (h : Memory A) (node : ℕ) (xs ys : List (ℕ × A)) (v : A) (n : ℕ)
      → Ring h node (xs ++ ys)
      → h.cells n ≡ absent
      → (h' : Memory A) × (insert (first_of ys node) v n h ≡ some h')
        × Ring h' node (xs ++ ((n, v) ∷ ys))
  unfolding is_held
  insert-Ring h node xs ys v n r fresh =
      let q = first_of ys node in
      let w = fresh-Away h n node (xs ++ ys) node fresh r.chain in
      let node≢n : node ≢ n =
        λ same. let e : h.cells n ≡ raw = ap h.cells (sym same) ∙ r.sentinel in cc in
      let held : is_held (h.cells node) ≡ true = rw r.sentinel refl in
      (
        inserted q v n h,
        insert-eq q v n h (first-Away n xs ys node node≢n w)
            (last-Away n h node xs ys node node≢n w r.chain)
            (first_held h node xs ys node held r.chain) (last_held h node xs ys node held r.chain),
        record {
          chain =
              inserted-Chain n v h node node≢n node xs ys node≢n w r.away r.apart r.away r.chain;
          apart = Apart-insert n v xs ys w r.apart;
          away = Away-insert node n v xs ys (λ z. node≢n (sym z)) r.away;
          sentinel = put-other h.cells n (object v) node node≢n ∙ r.sentinel;
        },
      )
