-- ===== src/Worker/Buffer.antt =====
-- kqueue_parent.py, `run`: how the bytes from the server's socket become names of containers.
pub mod Lines
pub mod Names
mod Tests
use dockermock.Prelude.{
  ℕ, zero, suc, ◌<◌, Bool, true, false, ◌&&◌, ◌||◌, Option, none, some, List, [], ◌∷◌, ◌++◌,
  if◌then◌else◌, ◌==◌, nat_eq, length, leb, Result, ok, raise, ◌>>=◌, arith,
}
use dockermock.Prelude.Text.{Text}
use dockermock.Prelude.Utf8.{Bytes, decode}

abbrev pub consed : ℕ → Option (Bytes × Bytes) → Option (Bytes × Bytes)
consed c none = none
consed c (some (line, rest)) = some (c ∷ line, rest)

-- buffer.split(b"\n", 1), and none where there is no newline
unfoldable pub split_line : Bytes → Option (Bytes × Bytes)
split_line [] = none
split_line (c ∷ buffer) =
    let rest : Option (Bytes × Bytes) = split_line buffer in
    if c == b'\n' then some ([], buffer) else consed c rest

-- The loop `while b"\n" in buffer`: the lines it takes out and the buffer it leaves.
unfoldable pub drain : ℕ → Bytes → List Bytes × Bytes
drain zero buffer = ([], buffer)
drain (suc fuel) buffer = elim (split_line buffer) [
  | none ↦ ([], buffer)
  | some (line, rest) ↦ let (lines, left) = drain fuel rest in (line ∷ lines, left)
]

-- buffer += data, and the loop. Each round shortens the buffer, so its length is enough fuel.
unfoldable pub receive : Bytes → Bytes → List Bytes × Bytes
receive buffer chunk = drain (length (buffer ++ chunk)) (buffer ++ chunk)

-- The rounds of `run` that read the chunks, one after the other. An empty chunk, which the server's end
-- of the socket sends when it is closed, is the end of the loop.
unfoldable pub receive_all : Bytes → List Bytes → List Bytes × Bytes
receive_all buffer [] = ([], buffer)
receive_all buffer ([] ∷ chunks) = ([], buffer)
receive_all buffer ((c ∷ chunk) ∷ chunks) =
    let (lines, left) = receive buffer (c ∷ chunk) in
    let (later, rest) = receive_all left chunks in (lines ++ later, rest)

abbrev within : ℕ → ℕ → ℕ → Bool
within low c high = leb low c && leb c high

-- str.isspace of a character
abbrev pub is_space : ℕ → Bool
is_space c =
    within 9 c 13
    || within 28 c 32
    || c == 133
    || c == 160
    || c == 5760
    || within 8192 c 8202
    || within 8232 c 8233
    || c == 8239
    || c == 8287
    || c == 12288

unfoldable pub lstrip : Text → Text
lstrip [] = []
lstrip (c ∷ s) = let rest : Text = lstrip s in if is_space c then rest else c ∷ s

abbrev drop_space : ℕ → Text → Text
drop_space c [] = if is_space c then [] else c ∷ []
drop_space c (d ∷ s) = c ∷ d ∷ s

unfoldable pub rstrip : Text → Text
rstrip [] = []
rstrip (c ∷ s) = drop_space c (rstrip s)

abbrev pub strip : Text → Text
strip s = rstrip (lstrip s)

-- msg = line.decode(); name = msg.strip()
unfoldable pub message : Bytes → Result Text
message line = do msg ← decode line; ok (strip msg)

unfoldable pub messages : List Bytes → Result (List Text)
messages [] = ok []
messages (line ∷ lines) = do name ← message line; names ← messages lines; ok (name ∷ names)
