-- ===== src/Net/Buffer/Search.antt =====
-- `findCRLF` against the first position at which the readable bytes hold "\r\n".
use xjblg.Base.{
  ℕ, zero, suc, ◌+◌, ◌<◌, ◌≡◌, inl, inr, Option, none, some, List, [], ◌∷◌, arith, get_elem?, ◌==◌,
  ◌&&◌, false, Bool-cases,
}
use xjblg.Net.Buffer.{Buffer, search_crlf, find_crlf}
use xjblg.Net.Buffer.Inv.{contents}

-- "\r\n" stands at index `k`.
abbrev pub HasCrlf : List ℕ → ℕ → Type 0
HasCrlf cs k = (get_elem? cs k ≡ some b'\r') × (get_elem? cs (suc k) ≡ some b'\n')

-- What a search from index `i` on finds: the first place, or none where there is none.
abbrev pub FirstCrlf : ℕ → List ℕ → Option ℕ → Type 0
FirstCrlf i cs none = (j : ℕ) → ¬ HasCrlf cs j
FirstCrlf i cs (some p) = (k : ℕ) × (p ≡ i + k) × HasCrlf cs k × ((j : ℕ) → j < k → ¬ HasCrlf cs j)

later :
    (i c d : ℕ) (cs : List ℕ) (r : Option ℕ)
    → (c == b'\r' && d == b'\n') ≡ false
    → FirstCrlf (i + 1) (d ∷ cs) r
    → FirstCrlf i (c ∷ d ∷ cs) r
later i c d cs none miss f = before
  where
    before : (j : ℕ) → ¬ HasCrlf (c ∷ d ∷ cs) j
    before zero h = ground arith
    before (suc j) h = f j h
later i c d cs (some p) miss (k, e, here, first) = (suc k, omega arith, here, before)
  where
    before : (j : ℕ) → j < suc k → ¬ HasCrlf (c ∷ d ∷ cs) j
    before zero lt h = ground arith
    before (suc j) lt h = first j (omega arith) h

not-HasCrlf-one : (c j : ℕ) → ¬ HasCrlf (c ∷ []) j
not-HasCrlf-one c zero h = cc
not-HasCrlf-one c (suc j) h = cc

pub search_crlf-FirstCrlf : (i : ℕ) (cs : List ℕ) → FirstCrlf i cs (search_crlf i cs)
unfolding search_crlf
search_crlf-FirstCrlf i [] = λ j h. cc
search_crlf-FirstCrlf i (c ∷ []) = not-HasCrlf-one c
search_crlf-FirstCrlf i (c ∷ d ∷ cs) = elim (Bool-cases (c == b'\r' && d == b'\n')) [
  | inl hit ↦ rw hit (0, omega arith, ground arith, λ j lt h. absurd (omega arith))
  | inr miss ↦ rw miss (later i c d cs _ miss (search_crlf-FirstCrlf (i + 1) (d ∷ cs)))
]

-- `findCRLF` returns the position of the first "\r\n" among the readable bytes, and NULL only where
-- they hold none.
pub find_crlf_lem : (b : Buffer) → FirstCrlf b.reader (contents b) (find_crlf b)
unfolding find_crlf
find_crlf_lem b = search_crlf-FirstCrlf b.reader (contents b)
