-- ===== src/System/Rctl.antt =====
-- app2/helpers.py: `convert_to_bytes` and `convert_to_rctl_rules`. A rule is kept by its parts, which
-- the code joins to `subject:resource:action=amount`.
pub mod Amounts
use Prim.Native.String.{String}
use dockermock.Prelude.{
  ℕ, ◌+◌, ◌-◌, ◌*◌, Bool, true, false, ◌&&◌, Option, none, some, List, [], ◌∷◌, ◌++◌, map,
  if◌then◌else◌, ◌==◌, nat_eq, string_eq, leb,
}
use dockermock.Prelude.Text.{Text, codes, text_beq}
use dockermock.Worker.Buffer.{strip, lstrip, rstrip}

-- What a limit's MAX is, and what `convert_to_bytes` returns: a number or a text.
pub data Amount : Type 0 where
  number : ℕ → Amount
  words : Text → Amount

-- str.upper on ASCII
abbrev pub upper_char : ℕ → ℕ
upper_char c = if leb b'a' c && leb c b'z' then c - 32 else c

abbrev pub upper : Text → Text
upper s = map upper_char s

abbrev pub is_digit : ℕ → Bool
is_digit c = leb b'0' c && leb c b'9'

-- int(match.group(1)) for `\d+`, with the value of the digits before: the number and the rest.
unfoldable pub digits_from : ℕ → Text → ℕ × Text
digits_from value [] = (value, [])
digits_from value (c ∷ s) =
    let later : ℕ × Text = digits_from (value * 10 + (c - b'0')) s in
    if is_digit c then later else (value, c ∷ s)

-- match.group(2) for `[KMG]?B?`, as the multiplier of the unit; "B" alone is in no entry of the table.
abbrev pub multiplier : Text → ℕ
multiplier [] = 1
multiplier (c ∷ s) =
    if c == b'K' then 1024 else if c == b'M' then 1048576 else if c == b'G' then 1073741824 else 1

abbrev pub scaled : ℕ × Text → Amount
scaled (num, unit) = number (num * multiplier unit)

-- The match and what follows it, on a text that is stripped and in upper case.
abbrev pub matched : Text → Amount
matched [] = words []
matched (c ∷ s) = if is_digit c then scaled (digits_from 0 (c ∷ s)) else words (c ∷ s)

unfoldable pub convert_to_bytes : Amount → Amount
convert_to_bytes (number value) = number value
convert_to_bytes (words value) = matched (upper (strip value))

pub record Limit : Type 0 where
  pub resource : String
  pub maximum : Amount
  pub action : String

pub record Rule : Type 0 where
  pub subject : Text
  pub rctl_resource : String
  pub rctl_action : String
  pub amount : Amount

unfoldable pub resource_map : String → Option String
resource_map name =
    if name == "MEMORY"
    then some "memoryuse"
    else if name == "CPU_PERCENT"
    then some "pcpu"
    else if name == "PROCESS_COUNT"
    then some "maxproc"
    else if name == "OPEN_FILES"
    then some "openfiles"
    else if name == "SWAP"
    then some "swapuse"
    else if name == "CPU_TIME"
    then some "cputime"
    else none

unfoldable pub action_map : String → Option String
action_map name =
    if name == "BLOCK" then some "deny" else if name == "LOG" then some "log" else none

abbrev pub rule_for : Text → Amount → Option String → Option String → List Rule
rule_for subject value none action = []
rule_for subject value (some resource) none = []
rule_for subject value (some resource) (some action) =
    record {
      subject = subject;
      rctl_resource = resource;
      rctl_action = action;
      amount = convert_to_bytes value;
    }
    ∷ []

unfoldable pub convert_to_rctl_rules : List Limit → Text → List Rule
convert_to_rctl_rules [] subject = []
convert_to_rctl_rules (limit ∷ limits) subject =
    rule_for subject limit.maximum (resource_map limit.resource) (action_map limit.action)
    ++ convert_to_rctl_rules limits subject
