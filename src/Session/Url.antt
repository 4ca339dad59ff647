-- ===== src/Session/Url.antt =====
-- parse_url. A text is the list of its bytes; an exception of std::stoi is an outcome.
pub mod Forms
use libpanaudia_core.Prelude.{
  Bool, List, Option, [], bytes_eq, drop, if◌then◌else◌, leb, ltb, none, not, some, take, u32, ℕ,
  ◌%◌, ◌&&◌, ◌*◌, ◌+◌, ◌-◌, ◌==◌, ◌^◌, ◌||◌, ◌∷◌,
}

pub data UrlResult : Type 0 where
  parsed : List ℕ → ℕ → UrlResult
  rejected thrown : UrlResult

-- What follows the first "://", or the text itself.
unfoldable pub after_scheme : List ℕ → Option (List ℕ)
after_scheme [] = none
after_scheme (c ∷ cs) =
    let rest = after_scheme cs in
    if bytes_eq (take 3 (c ∷ cs)) (b':' ∷ b'/' ∷ b'/' ∷ []) then some (drop 2 cs) else rest

unfoldable pub or_else : Option (List ℕ) → List ℕ → List ℕ
or_else none d = d
or_else (some a) d = a

-- What comes before the first byte `b`, or all of it.
unfoldable pub before : ℕ → List ℕ → List ℕ
before b [] = []
before b (c ∷ cs) = if c == b then [] else c ∷ before b cs

-- The parts before and behind the first byte `b`, and the last.
unfoldable pub split_first : ℕ → List ℕ → Option (List ℕ × List ℕ)
split_first b [] = none
split_first b (c ∷ cs) =
    let rest = split_first b cs in if c == b then some ([], cs) else push c rest
  where
    push : ℕ → Option (List ℕ × List ℕ) → Option (List ℕ × List ℕ)
    push d none = none
    push d (some (l, r)) = some (d ∷ l, r)

unfoldable pub split_last : ℕ → List ℕ → Option (List ℕ × List ℕ)
split_last b [] = none
split_last b (c ∷ cs) = later c cs (split_last b cs)
  where
    later : ℕ → List ℕ → Option (List ℕ × List ℕ) → Option (List ℕ × List ℕ)
    later d ds (some (l, r)) = some (d ∷ l, r)
    later d ds none = if d == b then some ([], ds) else none

-- std::stoi skips white space, takes a sign, and needs a digit; it throws without one, and beyond
-- the range of an int. Where the sign is, the value is counted down from 2 ^ 32.
unfoldable pub is_space : ℕ → Bool
is_space c = c == 32 || (leb 9 c && leb c 13)

unfoldable pub skip_space : List ℕ → List ℕ
unfolding is_space
skip_space [] = []
skip_space (c ∷ cs) = let rest = skip_space cs in if is_space c then rest else c ∷ cs

unfoldable pub is_digit : ℕ → Bool
is_digit c = leb b'0' c && leb c b'9'

unfoldable pub digits_value : ℕ → List ℕ → ℕ
unfolding is_digit
digits_value n [] = n
digits_value n (c ∷ cs) =
    let rest = digits_value (n * 10 + (c - b'0')) cs in if is_digit c then rest else n

unfoldable pub unsigned_value : ℕ → List ℕ → Option ℕ
unfolding is_digit digits_value
unsigned_value largest [] = none
unsigned_value largest (c ∷ cs) =
    let n = digits_value 0 (c ∷ cs) in
    if not (is_digit c) then none else (if ltb largest n then none else some n)

unfoldable pub stoi : List ℕ → Option ℕ
unfolding skip_space unsigned_value
stoi cs = signed (skip_space cs)
  where
    negate : Option ℕ → Option ℕ
    negate none = none
    negate (some n) = some (u32 (2 ^ 32 - n))

    signed : List ℕ → Option ℕ
    signed [] = none
    signed (c ∷ ds) =
        if c == b'-'
        then negate (unsigned_value (2 ^ 31) ds)
        else (if c == b'+'
            then unsigned_value (2 ^ 31 - 1) ds
            else unsigned_value (2 ^ 31 - 1) (c ∷ ds))

-- The port is cast to uint16_t; an empty host is refused.
unfoldable pub with_port : List ℕ → Option ℕ → UrlResult
with_port host none = thrown
with_port [] (some port) = rejected
with_port (c ∷ host) (some port) = parsed (c ∷ host) (port % 2 ^ 16)

unfoldable pub port_or_default : List ℕ → Option ℕ
unfolding stoi
port_or_default [] = some 443
port_or_default (c ∷ cs) = if c == b':' then stoi cs else some 443

unfoldable pub parse_bracketed : Option (List ℕ × List ℕ) → UrlResult
unfolding with_port port_or_default
parse_bracketed none = rejected
parse_bracketed (some (host, behind)) = with_port host (port_or_default behind)

unfoldable pub parse_plain : List ℕ → Option (List ℕ × List ℕ) → UrlResult
unfolding with_port stoi
parse_plain work none = with_port work (some 443)
parse_plain work (some (host, behind)) = with_port host (stoi behind)

unfoldable pub parse_authority : List ℕ → UrlResult
unfolding parse_bracketed parse_plain split_first split_last
parse_authority [] = rejected
parse_authority (c ∷ work) =
    if c == b'['
    then parse_bracketed (split_first b']' work)
    else parse_plain (c ∷ work) (split_last b':' (c ∷ work))

unfoldable pub parse_url : List ℕ → UrlResult
unfolding after_scheme or_else before parse_authority
parse_url url = parse_authority (before b'/' (or_else (after_scheme url) url))
