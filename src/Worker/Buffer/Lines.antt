-- ===== src/Worker/Buffer/Lines.antt =====
-- The lines do not depend on how the stream was cut into chunks.
use dockermock.Prelude.{
  ◌≡◌, inl, inr, refl, sym, ap, ◌∙◌, ℕ, zero, suc, ◌≤◌, ◌<◌, false, none, some, List, [], ◌∷◌, ◌++◌,
  if◌then◌else◌, ◌==◌, nat_eq, length, append-nil, append_assoc, arith, All, Bool-cases,
  Option-cases,
}
use dockermock.Prelude.Utf8.{Bytes}
use dockermock.Worker.Buffer.{split_line, drain, receive, receive_all}

abbrev push : ℕ → List Bytes × Bytes → List Bytes × Bytes
push c ([], left) = ([], c ∷ left)
push c (line ∷ lines, left) = ((c ∷ line) ∷ lines, left)

-- The complete lines of a stream and what follows the last of them.
unfoldable pub lines_of : Bytes → List Bytes × Bytes
lines_of [] = ([], [])
lines_of (c ∷ s) =
    let rest : List Bytes × Bytes = lines_of s in
    if c == b'\n' then ([] ∷ rest.0, rest.1) else push c rest

split_line-none : (b : Bytes) → split_line b ≡ none → lines_of b ≡ ([], b)
unfolding split_line lines_of
split_line-none [] e = refl
split_line-none (c ∷ s) e = elim (Bool-cases (c == b'\n')) [
  | inl hit ↦ absurd (ground arith)
  | inr miss ↦ elim (Option-cases (split_line s)) [
    | inl whole ↦ rw (miss, split_line-none s whole)
    | inr (pair, found) ↦ absurd (ground arith)
  ]
]

split_line-some :
    (b line rest : Bytes)
    → split_line b ≡ some (line, rest)
    → (lines_of b ≡ (line ∷ (lines_of rest).0, (lines_of rest).1)) × (length rest < length b)
unfolding split_line lines_of
split_line-some [] line rest e = absurd cc
split_line-some (c ∷ s) line rest e = elim (Bool-cases (c == b'\n')) [
  | inl hit ↦
      let empty : [] ≡ line = ground arith in
      let later : s ≡ rest = ground arith in
      (rw (hit, ← empty, ← later), omega (arith, ap length later))
  | inr miss ↦ elim (Option-cases (split_line s)) [
    | inl whole ↦ absurd (ground arith)
    | inr ((line', rest'), found) ↦
        let (eq, shorter) = split_line-some s line' rest' found in
        let longer : c ∷ line' ≡ line = ground arith in
        let later : rest' ≡ rest = ground arith in
        (rw (miss, eq, ← longer, ← later), omega (arith, ap length later, shorter))
  ]
]

-- With enough fuel the loop ends for want of a newline.
drain-eq-lines_of : (fuel : ℕ) (b : Bytes) → length b ≤ fuel → drain fuel b ≡ lines_of b
unfolding drain
drain-eq-lines_of zero [] h = unfold lines_of in refl
drain-eq-lines_of zero (c ∷ s) h = absurd (omega arith)
drain-eq-lines_of (suc fuel) b h = elim (Option-cases (split_line b)) [
  | inl whole ↦ rw (drain, whole) (sym (split_line-none b whole))
  | inr ((line, rest), e) ↦
      let (eq, shorter) = split_line-some b line rest e in
      rw (drain, e, eq, drain-eq-lines_of fuel rest (omega arith))
]

abbrev joined : List Bytes × Bytes → Bytes → List Bytes × Bytes
joined (lines, left) d = (lines ++ (lines_of (left ++ d)).0, (lines_of (left ++ d)).1)

push-joined :
    (c : ℕ) (r : List Bytes × Bytes) (d : Bytes)
    → (c == b'\n') ≡ false
    → push c (joined r d) ≡ joined (push c r) d
push-joined c ([], left) d miss = unfold lines_of in rw miss
push-joined c (line ∷ lines, left) d miss = refl

lines_of-append : (b d : Bytes) → lines_of (b ++ d) ≡ joined (lines_of b) d
unfolding lines_of
lines_of-append [] d = refl
lines_of-append (c ∷ s) d = elim (Bool-cases (c == b'\n')) [
  | inl hit ↦ rw (hit, lines_of-append s d)
  | inr miss ↦ rw (miss, lines_of-append s d) (push-joined c (lines_of s) d miss)
]

receive-eq-lines_of : (b d : Bytes) → receive b d ≡ lines_of (b ++ d)
receive-eq-lines_of b d =
    unfold receive in drain-eq-lines_of (length (b ++ d)) (b ++ d) (omega arith)

abbrev pub concat : List Bytes → Bytes
concat [] = []
concat (chunk ∷ chunks) = chunk ++ concat chunks

-- What the chunks bring: those before the first empty one, which is the end of the stream.
abbrev pub stream : List Bytes → Bytes
stream [] = []
stream ([] ∷ chunks) = []
stream ((c ∷ chunk) ∷ chunks) = (c ∷ chunk) ++ stream chunks

push-left :
    (c : ℕ) (r : List Bytes × Bytes)
    → (c == b'\n') ≡ false
    → lines_of r.1 ≡ ([], r.1)
    → lines_of (push c r).1 ≡ ([], (push c r).1)
push-left c ([], left) miss h = unfold lines_of in rw (miss, h)
push-left c (line ∷ lines, left) miss h = h

lines_of-left : (b : Bytes) → lines_of (lines_of b).1 ≡ ([], (lines_of b).1)
unfolding lines_of
lines_of-left [] = refl
lines_of-left (c ∷ s) = elim (Bool-cases (c == b'\n')) [
  | inl hit ↦ rw hit (lines_of-left s)
  | inr miss ↦ rw miss (push-left c (lines_of s) miss (lines_of-left s))
]

-- From a buffer without a complete line: however the stream, which the first empty chunk ends, is cut
-- into chunks, the worker takes out the complete lines of the whole stream, in order, and keeps what
-- follows the last of them.
pub receive_all-eq-lines_of :
    (b : Bytes) (chunks : List Bytes)
    → lines_of b ≡ ([], b)
    → receive_all b chunks ≡ lines_of (b ++ stream chunks)
unfolding receive_all
receive_all-eq-lines_of b [] h = rw (append-nil b) (sym h)
receive_all-eq-lines_of b ([] ∷ chunks) h = rw (append-nil b) (sym h)
receive_all-eq-lines_of b ((c ∷ s) ∷ chunks) h =
    let chunk = c ∷ s in
    let first = lines_of (b ++ chunk) in
    let rest = receive_all-eq-lines_of first.1 chunks (lines_of-left (b ++ chunk)) in
    rw (receive-eq-lines_of b chunk, rest)
      (sym (lines_of-append (b ++ chunk) (stream chunks))
        ∙ rw (append_assoc b chunk (stream chunks)))

-- A line without a newline in it, and its end.
pub lines_of-line :
    (line s : Bytes)
    → All (λ c. (c == b'\n') ≡ false) line
    → lines_of ((line ++ b'\n' ∷ []) ++ s) ≡ (line ∷ (lines_of s).0, (lines_of s).1)
unfolding lines_of
lines_of-line [] s h = refl
lines_of-line (c ∷ line) s h = rw (h.0, lines_of-line line s h.1)
