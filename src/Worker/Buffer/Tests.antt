-- ===== src/Worker/Buffer/Tests.antt =====
-- Runs of the buffer, and its theorems there.
use dockermock.Prelude.{◌≡◌, refl, List, [], ◌∷◌, ok, raise, value_error, arith, All, map}
use dockermock.Prelude.Text.{codes}
use dockermock.Prelude.Utf8.{Bytes, encode, decode}
use dockermock.Worker.Buffer.{
  receive, receive_all, drain, split_line, messages, message, lstrip, rstrip,
}
use dockermock.Worker.Buffer.Lines.{lines_of, concat, stream, receive_all-eq-lines_of}
use dockermock.Worker.Buffer.Names.{IsPlain, sent_line, receive_all-sent}

-- "web" and "db", cut inside of both names, and the end of the stream
abbrev chunks : List Bytes
chunks = codes "we" ∷ codes "b\nd" ∷ codes "b\n" ∷ [] ∷ []

receive_run :
    (receive_all [] chunks ≡ (codes "web" ∷ codes "db" ∷ [], []))
    × (messages (codes " web\r" ∷ []) ≡ ok (codes "web" ∷ []))
    × (messages ((233 ∷ []) ∷ []) ≡ raise value_error)
unfolding receive_all receive drain split_line messages message decode lstrip rstrip
receive_run = (refl, refl, refl)

-- The euro sign.
utf8_run :
    (encode (8364 ∷ []) ≡ 226 ∷ 130 ∷ 172 ∷ []) × (decode (226 ∷ 130 ∷ 172 ∷ []) ≡ ok (8364 ∷ []))
unfolding encode decode
utf8_run = (refl, refl)

nothing_read : lines_of [] ≡ ([], [])
unfolding lines_of
nothing_read = refl

receive_all-eq-lines_of_example : receive_all [] chunks ≡ lines_of (stream chunks)
receive_all-eq-lines_of_example = receive_all-eq-lines_of [] chunks nothing_read

names-IsPlain : All IsPlain (codes "web" ∷ codes "db" ∷ [])
names-IsPlain = ground arith

same_stream : stream chunks ≡ concat (map sent_line (codes "web" ∷ codes "db" ∷ []))
unfolding encode
same_stream = refl

receive_all-sent_example :
    (messages (receive_all [] chunks).0 ≡ ok (codes "web" ∷ codes "db" ∷ []))
    × ((receive_all [] chunks).1 ≡ [])
receive_all-sent_example =
    receive_all-sent (codes "web" ∷ codes "db" ∷ []) chunks names-IsPlain same_stream
