-- ===== src/Worker/Buffer/Names.antt =====
-- The names that the server sends are the names that the worker takes out of the stream.
use dockermock.Prelude.{
  ◌≡◌, refl, ◌∙◌, ◌<◌, false, List, [], ◌∷◌, ◌++◌, ◌==◌, nat_eq, arith, map, All, All-append, ok,
}
use dockermock.Prelude.Text.{Text}
use dockermock.Prelude.Utf8.{Bytes, encode, encode_ascii, decode_ascii}
use dockermock.Worker.Buffer.{is_space, lstrip, rstrip, message, messages, receive_all}
use dockermock.Worker.Buffer.Lines.{
  lines_of, concat, stream, receive_all-eq-lines_of, lines_of-line,
}

-- ASCII text without white space.
abbrev pub IsPlain : Text → Type 0
IsPlain name = All (λ c. (c < 128) × (is_space c ≡ false)) name

-- What `start_jail` sends for a name.
abbrev pub sent_line : Text → Bytes
sent_line name = encode (name ++ b'\n' ∷ [])

plain-ascii : (name : Text) → IsPlain name → All (λ c. c < 128) name
plain-ascii [] h = tt
plain-ascii (c ∷ name) h = (h.0.0, plain-ascii name h.1)

sent_line_plain : (name : Text) → IsPlain name → sent_line name ≡ name ++ b'\n' ∷ []
sent_line_plain name h =
    encode_ascii (name ++ b'\n' ∷ [])
      (All-append (λ c. c < 128) name (b'\n' ∷ []) (plain-ascii name h) (omega arith))

pub lstrip_plain : (name : Text) → IsPlain name → lstrip name ≡ name
unfolding lstrip
lstrip_plain [] h = refl
lstrip_plain (c ∷ name) h = rw h.0.1

pub rstrip_plain : (name : Text) → IsPlain name → rstrip name ≡ name
unfolding rstrip
rstrip_plain [] h = refl
rstrip_plain (c ∷ []) h = rw h.0.1
rstrip_plain (c ∷ d ∷ name) h = rw (rstrip_plain (d ∷ name) h.1)

message_plain : (name : Text) → IsPlain name → message name ≡ ok name
unfolding message
message_plain name h =
    rw (message, decode_ascii name (plain-ascii name h), lstrip_plain name h, rstrip_plain name h)

messages_plain : (names : List Text) → All IsPlain names → messages names ≡ ok names
unfolding messages
messages_plain [] h = refl
messages_plain (name ∷ names) h = rw (messages, message_plain name h.0, messages_plain names h.1)

-- No character of a plain name is a newline.
plain-newline : (name : Text) → IsPlain name → All (λ c. (c == b'\n') ≡ false) name
plain-newline [] h = tt
plain-newline (c ∷ name) h =
    let here : (c == b'\n') ≡ false = ground (arith, h.0) in (here, plain-newline name h.1)

lines_of-sent :
    (names : List Text) → All IsPlain names → lines_of (concat (map sent_line names)) ≡ (names, [])
lines_of-sent [] h = unfold lines_of in refl
lines_of-sent (name ∷ names) h = rw (sent_line_plain name h.0) (
    lines_of-line name (concat (map sent_line names)) (plain-newline name h.0)
    ∙ rw (lines_of-sent names h.1))

-- For plain names: however the stream of the lines sent for them, which the first empty chunk ends, is
-- cut into chunks, the worker gets exactly these names, in order, and its buffer ends empty.
pub receive_all-sent :
    (names : List Text) (chunks : List Bytes)
    → All IsPlain names
    → stream chunks ≡ concat (map sent_line names)
    → (messages (receive_all [] chunks).0 ≡ ok names) × ((receive_all [] chunks).1 ≡ [])
receive_all-sent names chunks h cut =
    let taken : receive_all [] chunks ≡ (names, []) =
      receive_all-eq-lines_of [] chunks (unfold lines_of in refl)
      ∙ rw cut (lines_of-sent names h) in
    (rw taken (messages_plain names h), rw taken)
