-- ===== src/Lstl/Linked/Chain.antt =====
-- What it means for nodes to be linked one behind another, and what a write to another node leaves.
use xjblg.Base.{ℕ, ◌≡◌, sym, ◌∙◌, ◌≢◌, List, [], ◌∷◌, ◌++◌}
use xjblg.Base.Maps.{put, put-other}
use xjblg.Lstl.Linked.{Cell, object, Memory}

module _ {A : Type 0} where
  -- The links lead from `a` through the nodes, with their values, to `b`, and back.
  abbrev pub Chain : Memory A → ℕ → List (ℕ × A) → ℕ → Type 0
  Chain h a [] b = (h.next a ≡ b) × (h.prev b ≡ a)
  Chain h a ((p, v) ∷ cs) b =
      (h.next a ≡ p) × (h.prev p ≡ a) × (h.cells p ≡ object v) × Chain h p cs b

  -- None of the nodes is `m`.
  abbrev pub Away : ℕ → List (ℕ × A) → Type 0
  Away m [] = Unit
  Away m ((p, v) ∷ cs) = (p ≢ m) × Away m cs

  -- No two of the nodes are the same.
  abbrev pub Apart : List (ℕ × A) → Type 0
  Apart [] = Unit
  Apart ((p, v) ∷ cs) = Away p cs × Apart cs

  -- The first node, or `b`.
  abbrev pub first_of : List (ℕ × A) → ℕ → ℕ
  first_of [] b = b
  first_of ((p, v) ∷ cs) b = p

  module _ (m x : ℕ) where
    pub Chain-put_next :
        (h : Memory A) (a : ℕ) (cs : List (ℕ × A)) (b : ℕ)
        → a ≢ m
        → Away m cs
        → Chain h a cs b
        → Chain (record h { next = put h.next m x }) a cs b
    Chain-put_next h a [] b n w (e, f) = (put-other h.next m x a n ∙ e, f)
    Chain-put_next h a ((p, v) ∷ cs) b n w (e, f, g, c) =
        (put-other h.next m x a n ∙ e, f, g, Chain-put_next h p cs b w.0 w.1 c)

    pub Chain-put_prev :
        (h : Memory A) (a : ℕ) (cs : List (ℕ × A)) (b : ℕ)
        → b ≢ m
        → Away m cs
        → Chain h a cs b
        → Chain (record h { prev = put h.prev m x }) a cs b
    Chain-put_prev h a [] b n w (e, f) = (e, put-other h.prev m x b n ∙ f)
    Chain-put_prev h a ((p, v) ∷ cs) b n w (e, f, g, c) =
        (e, put-other h.prev m x p w.0 ∙ f, g, Chain-put_prev h p cs b n w.1 c)

  pub Chain-put_cell :
      (m : ℕ) (x : Cell A) (h : Memory A) (a : ℕ) (cs : List (ℕ × A)) (b : ℕ)
      → Away m cs
      → Chain h a cs b
      → Chain (record h { cells = put h.cells m x }) a cs b
  Chain-put_cell m x h a [] b w c = c
  Chain-put_cell m x h a ((p, v) ∷ cs) b w (e, f, g, c) =
      (e, f, put-other h.cells m x p w.0 ∙ g, Chain-put_cell m x h p cs b w.1 c)

  pub next_first :
      (h : Memory A) (a : ℕ) (cs : List (ℕ × A)) (b : ℕ) → Chain h a cs b → h.next a ≡ first_of cs b
  next_first h a [] b c = c.0
  next_first h a ((p, v) ∷ cs) b c = c.0

  pub prev_first :
      (h : Memory A) (a : ℕ) (cs : List (ℕ × A)) (b : ℕ)
      → Chain h a cs b
      → h.prev (first_of cs b) ≡ a
  prev_first h a [] b c = c.1
  prev_first h a ((p, v) ∷ cs) b c = c.1

  pub first-Away :
      (m : ℕ) (xs ys : List (ℕ × A)) (b : ℕ) → b ≢ m → Away m (xs ++ ys) → first_of ys b ≢ m
  first-Away m [] [] b n w = n
  first-Away m [] (y ∷ ys) b n w = w.0
  first-Away m (x ∷ xs) ys b n w = first-Away m xs ys b n w.1

  -- What stands in front of the second part is the last node of the first part, or `a`.
  pub last-Away :
      (m : ℕ) (h : Memory A) (a : ℕ) (xs ys : List (ℕ × A)) (b : ℕ)
      → a ≢ m
      → Away m (xs ++ ys)
      → Chain h a (xs ++ ys) b
      → h.prev (first_of ys b) ≢ m
  last-Away m h a [] ys b n w c = λ e. n (sym (prev_first h a ys b c) ∙ e)
  last-Away m h a ((p, v) ∷ xs) ys b n w (e, f, g, c) = last-Away m h p xs ys b w.0 w.1 c

  pub Away-split : (m : ℕ) (xs ys : List (ℕ × A)) → Away m (xs ++ ys) → Away m ys
  Away-split m [] ys w = w
  Away-split m (x ∷ xs) ys w = Away-split m xs ys w.1
