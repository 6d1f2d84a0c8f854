-- ===== src/Net/Buffer/Lines.antt =====
-- Taking a line, up to its "\r\n", out of a Buffer.
use xjblg.Base.{
  ℕ, zero, suc, ◌+◌, ◌-◌, ◌≤◌, ◌<◌, ◌≡◌, refl, sym, ap, ◌∙◌, Option, none, some, List, [], ◌∷◌,
  ◌++◌, arith, length, take, drop, get_elem?, take-take,
}
use xjblg.Base.Words.{add_size}
use xjblg.Base.Text.{Lacks}
use xjblg.Net.Buffer.{Buffer, range, find_crlf, retrieve_until}
use xjblg.Net.Buffer.Inv.{IsValid, contents, length-contents}
use xjblg.Net.Buffer.Consume.{retrieve_until_lem}
use xjblg.Net.Buffer.Search.{HasCrlf, FirstCrlf, find_crlf_lem}

get_elem?-lt : (cs : List ℕ) (k c : ℕ) → get_elem? cs k ≡ some c → k < length cs
get_elem?-lt [] k c h = cc
get_elem?-lt (x ∷ cs) zero c h = omega arith
get_elem?-lt (x ∷ cs) (suc k) c h = omega (arith, get_elem?-lt cs k c h)

range-take :
    (b : Buffer) (p k : ℕ)
    → IsValid b
    → p ≡ b.reader + k
    → k ≤ length (contents b)
    → range b b.reader p ≡ take k (contents b)
range-take b p k v e h =
    ap (λ n. take n (drop b.reader b.bytes)) (let q : p - b.reader ≡ k = omega arith in q)
    ∙ sym (
        take-take k (b.writer - b.reader) (drop b.reader b.bytes)
          (omega (arith, length-contents b v)))

-- On a valid buffer, where `findCRLF` reports a position: it lies so many bytes behind the read index,
-- with two readable bytes more, the bytes before it are so many of the readable bytes, and
-- `retrieveUntil(crlf + 2)` returns, drops exactly these and the two, and leaves a valid buffer.
pub found_line :
    (b : Buffer) (p : ℕ)
    → IsValid b
    → find_crlf b ≡ some p
    → (k : ℕ) × (b' : Buffer) × (p ≡ b.reader + k)
      × (k + 2 ≤ length (contents b))
      × (range b b.reader p ≡ take k (contents b))
      × (retrieve_until (add_size p 2) b ≡ some b')
      × IsValid b'
      × (contents b' ≡ drop (k + 2) (contents b))
found_line b p v found =
    let (k, e, (cr, lf), _) = rw found at (find_crlf_lem b) in
    let fits : k + 2 ≤ length (contents b) =
      omega (arith, get_elem?-lt (contents b) (suc k) b'\n' lf) in
    let len : length (contents b) ≡ b.writer - b.reader = length-contents b v in
    let (b', got, v', rest) =
      retrieve_until_lem b (add_size p 2) (k + 2) v (omega (arith, v.ordered, v.within, v.small))
        fits in
    (k, b', e, fits, range-take b p k v e (omega arith), got, v', rest)

HasCrlf-end : (line rest : List ℕ) → HasCrlf (line ++ (b'\r' ∷ b'\n' ∷ rest)) (length line)
HasCrlf-end [] rest = (refl, refl)
HasCrlf-end (c ∷ line) rest = HasCrlf-end line rest

not-HasCrlf-before :
    (line rest : List ℕ) (k : ℕ) → Lacks b'\r' line → k < length line → ¬ HasCrlf (line ++ rest) k
not-HasCrlf-before [] rest k l h = absurd (omega arith)
not-HasCrlf-before (c ∷ line) rest zero l h = λ (e, _). l.0 (ground arith)
not-HasCrlf-before (c ∷ line) rest (suc k) l h = not-HasCrlf-before line rest k l.1 (omega arith)

take-length : (xs ys : List ℕ) → take (length xs) (xs ++ ys) ≡ xs
take-length [] ys = refl
take-length (x ∷ xs) ys = ap (◌∷◌ x) (take-length xs ys)

drop-length : (xs ys : List ℕ) → drop (length xs) (xs ++ ys) ≡ ys
drop-length [] ys = refl
drop-length (x ∷ xs) ys = drop-length xs ys

drop-line : (line rest : List ℕ) → drop (length line + 2) (line ++ (b'\r' ∷ b'\n' ∷ rest)) ≡ rest
drop-line [] rest = refl
drop-line (c ∷ line) rest =
    let e : suc (length line) + 2 ≡ suc (length line + 2) = omega arith in
    rw e (drop-line line rest)

position :
    (line rest : List ℕ) (i : ℕ) (r : Option ℕ)
    → Lacks b'\r' line
    → FirstCrlf i (line ++ (b'\r' ∷ b'\n' ∷ rest)) r
    → r ≡ some (i + length line)
position line rest i none l f = absurd (f (length line) (HasCrlf-end line rest))
position line rest i (some p) l (k, e, here, first) =
    let low : ¬ (k < length line) = λ h. not-HasCrlf-before line _ k l h here in
    let high : ¬ (length line < k) = λ h. first (length line) h (HasCrlf-end line rest) in
    ap some (omega arith)

-- On a valid buffer whose readable bytes are a line without '\r', then "\r\n", then a rest: `findCRLF`
-- finds the end of the line, the bytes before it are the line, and `retrieveUntil(crlf + 2)` returns
-- and leaves a valid buffer with the rest.
pub take_line :
    (b : Buffer) (line rest : List ℕ)
    → IsValid b
    → contents b ≡ line ++ (b'\r' ∷ b'\n' ∷ rest)
    → Lacks b'\r' line
    → (p : ℕ) × (b' : Buffer) × (find_crlf b ≡ some p)
      × (range b b.reader p ≡ line)
      × (retrieve_until (add_size p 2) b ≡ some b')
      × IsValid b'
      × (contents b' ≡ rest)
take_line b line rest v e l =
    let found : find_crlf b ≡ some (b.reader + length line) =
      position line rest b.reader (find_crlf b) l (rw e at (find_crlf_lem b)) in
    let (k, b', at_k, fits, text, got, v', left) = found_line b (b.reader + length line) v found in
    let same : k ≡ length line = omega arith in
    (
      b.reader + length line,
      b',
      found,
      text ∙ ap (λ n. take n (contents b)) same ∙ ap (take (length line)) e ∙ take-length line _,
      got,
      v',
      left
          ∙ ap (λ n. drop (n + 2) (contents b)) same
          ∙ ap (drop (length line + 2)) e
          ∙ drop-line line rest,
    )
