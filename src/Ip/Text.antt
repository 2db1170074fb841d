-- ===== src/Ip/Text.antt =====
-- str of an address: its four octets in decimal, with dots between them.
use dockermock.Prelude.{ℕ, zero, suc, ◌+◌, ◌/◌, ◌%◌, [], ◌∷◌, ◌++◌, if◌then◌else◌, ltb}
use dockermock.Prelude.Text.{Text}

-- The decimal digits of a number, with as many rounds as the fuel. A round divides by ten.
unfoldable pub digits : ℕ → ℕ → Text
digits zero n = []
digits (suc fuel) n =
    let before : Text = digits fuel (n / 10) in
    if ltb n 10 then (48 + n) ∷ [] else before ++ (48 + n % 10) ∷ []

-- The number is more than the rounds that it takes.
abbrev pub decimal : ℕ → Text
decimal n = digits (suc n) n

unfoldable pub show_ip : ℕ → Text
show_ip ip =
    digits 3 (ip / 16777216 % 256)
    ++ (b'.' ∷ digits 3 (ip / 65536 % 256)
        ++ (b'.' ∷ digits 3 (ip / 256 % 256) ++ b'.' ∷ digits 3 (ip % 256)))
