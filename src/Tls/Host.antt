-- ===== src/Tls/Host.antt =====
-- actix-tls/src/connect/host.rs: the hostname and the port of a text. A text is the list of its
-- characters, by their code points; `u16::from_str` and the printing of a number are the standard
-- library's.
pub mod Ports
pub mod Splits
pub mod Names
use actix_net.Prelude.{
  ℕ, zero, suc, ◌+◌, ◌-◌, ◌*◌, ◌/◌, ◌%◌, ltb, leb, ◌==◌, Bool, true, false, ◌&&◌, List, [], ◌∷◌,
  ◌++◌, Option, none, some, if◌then◌else◌,
}

abbrev pub Text : Type 0
Text = List ℕ

abbrev pub colon : ℕ
colon = 58

abbrev pub open_bracket : ℕ
open_bracket = 91

abbrev pub close_bracket : ℕ
close_bracket = 93

-- The trait `Host`, of which a request type has an instance.
pub record Host {ℓ} (R : Type ℓ) : Type ℓ where
  pub hostname : R → Text
  pub port : R → Option ℕ

-- A text cut in two at the first of a character.
abbrev pub cons_first : ℕ → Option (Text × Text) → Option (Text × Text)
cons_first x none = none
cons_first x (some (before, after)) = some (x ∷ before, after)

unfoldable pub split_once : ℕ → Text → Option (Text × Text)
split_once c [] = none
split_once c (x ∷ xs) =
    let rest = split_once c xs in if x == c then some ([], xs) else cons_first x rest

abbrev pub split_colon : Text → Option (Text × Text) → Text × Option Text
split_colon host none = (host, none)
split_colon host (some (hostname, port)) = (hostname, some port)

-- What is behind a closing bracket: nothing, a port, or something else.
abbrev pub bracketed : Text → Text → Text × Option Text → Text × Option Text
bracketed before [] other = (before ++ close_bracket ∷ [], none)
bracketed before (c ∷ port) other =
    if c == colon then (before ++ close_bracket ∷ [], some port) else other

abbrev pub at_bracket : Option (Text × Text) → Text × Option Text → Text × Option Text
at_bracket none other = other
at_bracket (some (before, after)) other = bracketed before after other

abbrev pub starts_with : ℕ → Text → Bool
starts_with c [] = false
starts_with c (x ∷ xs) = x == c

unfoldable pub split_host : Text → Text × Option Text
unfolding split_once
split_host host =
    let other = split_colon host (split_once colon host) in
    if starts_with open_bracket host
    then at_bracket (split_once close_bracket host) other
    else other

-- `u16::from_str`: one `+` is allowed, digits follow, and the number fits into 16 bits.
abbrev pub is_digit : ℕ → Bool
is_digit c = leb 48 c && leb c 57

unfoldable pub parse_digits : ℕ → Text → Option ℕ
parse_digits n [] = some n
parse_digits n (c ∷ cs) =
    let next = n * 10 + (c - 48) in
    let rest = parse_digits next cs in if is_digit c && ltb next 65536 then rest else none

unfoldable pub parse_some : Text → Option ℕ
unfolding parse_digits
parse_some [] = none
parse_some (c ∷ cs) = parse_digits 0 (c ∷ cs)

unfoldable pub parse_u16 : Text → Option ℕ
unfolding parse_some
parse_u16 [] = none
parse_u16 (c ∷ cs) = if c == 43 then parse_some cs else parse_some (c ∷ cs)

-- `Display` of a number below `10 ^ (digits + 1)`.
unfoldable pub show_digits : ℕ → ℕ → Text
show_digits zero n = (48 + n) ∷ []
show_digits (suc d) n =
    let front = show_digits d (n / 10) in
    if ltb n 10 then (48 + n) ∷ [] else front ++ (48 + n % 10) ∷ []

unfoldable pub show_u16 : ℕ → Text
unfolding show_digits
show_u16 n = show_digits 4 n

unfoldable pub host_name : Text → Text
unfolding split_host
host_name host = (split_host host).0

abbrev pub parse_port : Option Text → Option ℕ
parse_port none = none
parse_port (some port) = parse_u16 port

unfoldable pub host_port : Text → Option ℕ
unfolding split_host
host_port host = parse_port (split_host host).1

-- `impl Host for String` and `impl Host for &'static str`.
abbrev pub text_host : Host Text
text_host = record { hostname = host_name; port = host_port }
