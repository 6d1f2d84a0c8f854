-- ===== src/Lstl/Linked/Erasing.antt =====
-- LSTL/list.h: `erase`, which unlinks a node and gives it back.
use mathlib.Core.Path.{subst}
use xjblg.Base.{ℕ, ◌≡◌, refl, sym, ap, ◌∙◌, ◌≢◌, true, some, List, [], ◌∷◌, ◌++◌}
use xjblg.Base.Maps.{put, put-same, put-other}
use xjblg.Lstl.Linked.{
  absent, raw, object, Memory, is_held, value_of, set_next, set_prev, get_next, get_prev,
  destroy_node, erase,
}
use xjblg.Lstl.Linked.Chain.{
  Chain, Away, Apart, first_of, Chain-put_next, Chain-put_prev, Chain-put_cell, next_first,
  first-Away, last-Away,
}
use xjblg.Lstl.Linked.Inserting.{Ring, first_held, last_held}

module _ {A : Type 0} where
  -- The memory behind `erase`.
  abbrev pub erased : ℕ → Memory A → Memory A
  erased p h = record {
    next = put h.next (h.prev p) (h.next p);
    prev = put h.prev (h.next p) (h.prev p);
    cells = put h.cells p absent;
  }

  erase-eq :
      (p : ℕ) (v : A) (h : Memory A)
      → h.cells p ≡ object v
      → is_held (h.cells (h.prev p)) ≡ true
      → is_held (h.cells (h.next p)) ≡ true
      → erase p h ≡ some (h.next p, erased p h)
  unfolding erase set_next set_prev get_next get_prev destroy_node is_held value_of
  erase-eq p v h o before after = rw (o, before, after, o)

  -- The part behind a node.
  behind_node :
      (h : Memory A) (a p : ℕ) (v : A) (xs ys : List (ℕ × A)) (b : ℕ)
      → Chain h a (xs ++ ((p, v) ∷ ys)) b
      → (h.cells p ≡ object v) × Chain h p ys b
  behind_node h a p v [] ys b (e, f, g, c) = (g, c)
  behind_node h a p v (x ∷ xs) ys b c = behind_node h x.0 p v xs ys b c.3

  first_behind :
      (m p : ℕ) (v : A) (xs ys : List (ℕ × A)) (b : ℕ)
      → b ≢ m
      → Away m (xs ++ ((p, v) ∷ ys))
      → first_of ys b ≢ m
  first_behind m p v [] ys b n w = first-Away m [] ys b n w.1
  first_behind m p v (x ∷ xs) ys b n w = first_behind m p v xs ys b n w.1

  Away-erase :
      (m p : ℕ) (v : A) (xs ys : List (ℕ × A)) → Away m (xs ++ ((p, v) ∷ ys)) → Away m (xs ++ ys)
  Away-erase m p v [] ys w = w.1
  Away-erase m p v (x ∷ xs) ys w = (w.0, Away-erase m p v xs ys w.1)

  Apart-erase :
      (p : ℕ) (v : A) (xs ys : List (ℕ × A)) → Apart (xs ++ ((p, v) ∷ ys)) → Apart (xs ++ ys)
  Apart-erase p v [] ys d = d.1
  Apart-erase p v ((y, x) ∷ xs) ys d = (Away-erase y p v xs ys d.0, Apart-erase p v xs ys d.1)

  module _ (h : Memory A) (p : ℕ) (v : A) (b : ℕ) where
    -- The second part hangs on what stood in front of the node.
    rest-Chain :
        (a : ℕ) (ys : List (ℕ × A))
        → b ≢ p
        → Away p ys
        → Away a ys
        → Apart ys
        → Away b ys
        → h.prev p ≡ a
        → Chain h p ys b
        → Chain (erased p h) a ys b
    rest-Chain a [] b≢p w wa d wb r (e, f) = (
      ap (put h.next (h.prev p) (h.next p)) (sym r) ∙ put-same _ (h.prev p) (h.next p) ∙ e,
      ap (put h.prev (h.next p) (h.prev p)) (sym e) ∙ put-same _ (h.next p) (h.prev p) ∙ r,
    )
    rest-Chain a ((q, x) ∷ ys) b≢p w wa d wb r (e, f, g, c) =
        let c1 =
          Chain-put_next (h.prev p) (h.next p) h q ys b (λ z. wa.0 (z ∙ r))
            (subst (λ t. Away t ys) (sym r) wa.1) c in
        let h1 : Memory A = record h { next = put h.next (h.prev p) (h.next p) } in
        let c2 =
          Chain-put_prev (h.next p) (h.prev p) h1 q ys b (λ z. wb.0 (sym (z ∙ e)))
            (subst (λ t. Away t ys) (sym e) d.0) c1 in
        let h2 : Memory A = record h1 { prev = put h.prev (h.next p) (h.prev p) } in
        (
          ap (put h.next (h.prev p) (h.next p)) (sym r) ∙ put-same _ (h.prev p) (h.next p) ∙ e,
          ap (put h.prev (h.next p) (h.prev p)) (sym e) ∙ put-same _ (h.next p) (h.prev p) ∙ r,
          put-other h.cells p absent q w.0 ∙ g,
          Chain-put_cell p absent h2 q ys b w.1 c2,
        )

    erased-Chain :
        (a : ℕ) (xs ys : List (ℕ × A))
        → b ≢ p
        → Away a (xs ++ ((p, v) ∷ ys))
        → Apart (xs ++ ((p, v) ∷ ys))
        → Away b (xs ++ ((p, v) ∷ ys))
        → Chain h a (xs ++ ((p, v) ∷ ys)) b
        → Chain (erased p h) a (xs ++ ys) b
    erased-Chain a [] ys b≢p wa d wb (e, f, g, c) = rest-Chain a ys b≢p d.0 wa.1 d.1 wb.1 f c
    erased-Chain a ((y, x) ∷ xs) ys b≢p wa d wb (e, f, g, c) =
        let a≢r : a ≢ h.prev p = λ z. last-Away a h y xs ((p, v) ∷ ys) b wa.0 wa.1 c (sym z) in
        let s : h.next p ≡ first_of ys b = next_first h p ys b (behind_node h y p v xs ys b c).1 in
        let y≢s : y ≢ h.next p =
          λ z. first_behind y p v xs ys b (λ t. wb.0 (sym t)) d.0 (sym (z ∙ s)) in
        (
          put-other h.next (h.prev p) (h.next p) a a≢r ∙ e,
          put-other h.prev (h.next p) (h.prev p) y y≢s ∙ f,
          put-other h.cells p absent y
                (λ z. first-Away y xs ((p, v) ∷ ys) b (λ t. wb.0 (sym t)) d.0 (sym z))
              ∙ g,
          erased-Chain y xs ys b≢p d.0 d.1 wb.1 c,
        )

  -- A node of a ring with its value is erased: the call returns the node behind it, or the end, the node is
  -- no longer in use, and the ring is the old one without it.
  pub erase-Ring :
      (h : Memory A) (node p : ℕ) (v : A) (xs ys : List (ℕ × A))
      → Ring h node (xs ++ ((p, v) ∷ ys))
      → (h' : Memory A) × (erase p h ≡ some (first_of ys node, h'))
        × Ring h' node (xs ++ ys)
        × (h'.cells p ≡ absent)
  unfolding is_held
  erase-Ring h node p v xs ys r =
      let (o, c) = behind_node h node p v xs ys node r.chain in
      let s : h.next p ≡ first_of ys node = next_first h p ys node c in
      let held : is_held (h.cells node) ≡ true = rw r.sentinel refl in
      let held_p : is_held (h.cells p) ≡ true = rw o refl in
      let after : is_held (h.cells (h.next p)) ≡ true =
        ap (λ t. is_held (h.cells t)) s ∙ first_held h p [] ys node held c in
      let node≢p : node ≢ p =
        λ z. let e : h.cells p ≡ raw = ap h.cells (sym z) ∙ r.sentinel in cc in
      (
        erased p h,
        erase-eq p v h o (last_held h node xs ((p, v) ∷ ys) node held r.chain) after
            ∙ ap (λ t. some (t, erased p h)) s,
        record {
          chain = erased-Chain h p v node node xs ys node≢p r.away r.apart r.away r.chain;
          apart = Apart-erase p v xs ys r.apart;
          away = Away-erase node p v xs ys r.away;
          sentinel = put-other h.cells p absent node node≢p ∙ r.sentinel;
        },
        put-same h.cells p absent,
      )
