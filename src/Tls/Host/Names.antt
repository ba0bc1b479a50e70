-- ===== src/Tls/Host/Names.antt =====
-- What a hostname is, and a hostname with a port behind it (actix-tls/src/connect/host.rs, info.rs).
use actix_net.Prelude.{
  ℕ, zero, suc, ◌+◌, ◌/◌, ◌%◌, ◌<◌, ◌≡◌, refl, ap, ◌∙◌, sym, ltb, ◌==◌, true, false, [], ◌∷◌, ◌++◌,
  append_assoc, Option, none, some, arith, Bool-cases, inl, inr, ◌⊎◌,
}
use actix_net.Tls.Host.{
  Text, colon, open_bracket, close_bracket, split_once, split_colon, bracketed, at_bracket,
  starts_with, split_host, show_digits, show_u16, host_name, host_port, text_host, parse_port,
}
use actix_net.Tls.Host.Ports.{digits_bound, show_u16-parse, parse_u16-lt}
use actix_net.Tls.Info.{ConnectInfo, info_port, show_info, unwrap_or}
use actix_net.Tls.Host.Splits.{
  Lacks, cons_first-none, split_once-append_none, split_once-append, Parts, split_once-Parts,
}

-- What a hostname is: a text without a colon, or one in brackets.
IsName : Text → Type 0
IsName h =
    Lacks colon h
    ⊎ ((inner : Text) × (h ≡ inner ++ close_bracket ∷ [])
        × Lacks close_bracket inner
        × (starts_with open_bracket h ≡ true))

split_colon-IsName :
    (host : Text) (o : Option (Text × Text))
    → split_once colon host ≡ o
    → Parts colon host o
    → IsName (split_colon host o).0
unfolding IsName
split_colon-IsName host none e p = inl e
split_colon-IsName host (some (before, after)) e (l, q) = inl l

starts_with-append :
    (c : ℕ) (xs ys : Text) → starts_with c xs ≡ true → starts_with c (xs ++ ys) ≡ true
starts_with-append c [] ys e = absurd (cc e)
starts_with-append c (x ∷ xs) ys e = e

-- A text that begins with the opening bracket does so up to the closing one.
starts_with-first :
    (host before after : Text)
    → starts_with open_bracket host ≡ true
    → host ≡ before ++ close_bracket ∷ after
    → starts_with open_bracket (before ++ close_bracket ∷ []) ≡ true
starts_with-first host [] after s e = absurd (cc (rw e at s))
starts_with-first host (x ∷ before) after s e = rw e at s

at_bracket-IsName :
    (host : Text) (o : Option (Text × Text)) (other : Text × Option Text)
    → starts_with open_bracket host ≡ true
    → Parts close_bracket host o
    → IsName other.0
    → IsName (at_bracket o other).0
unfolding IsName
at_bracket-IsName host none other s p n = n
at_bracket-IsName host (some (before, [])) other s (l, e) n =
    inr (before, refl, l, starts_with-first host before [] s e)
at_bracket-IsName host (some (before, c ∷ port)) other s (l, e) n = elim (Bool-cases (c == colon)) [
  | inl here ↦ rw here (inr (before, refl, l, starts_with-first host before (c ∷ port) s e))
  | inr elsewhere ↦ rw elsewhere n
]

host_name-IsName : (host : Text) → IsName (host_name host)
unfolding host_name split_host
host_name-IsName host =
    let plain =
      split_colon-IsName host (split_once colon host) refl (split_once-Parts colon host) in
    elim (Bool-cases (starts_with open_bracket host)) [
      | inl s ↦
          rw (host_name, split_host, s)
            (at_bracket-IsName host (split_once close_bracket host)
              (split_colon host (split_once colon host)) s (split_once-Parts close_bracket host)
              plain)
      | inr s ↦ rw (host_name, split_host, s) plain
    ]

digit-Lacks : (c d : ℕ) → d < 10 → 57 < c → Lacks c ((48 + d) ∷ [])
unfolding split_once
digit-Lacks c d l m = let other : (48 + d == c) ≡ false = ground arith in rw other refl

show_digits-Lacks : (c k n : ℕ) → n < digits_bound k → 57 < c → Lacks c (show_digits k n)
unfolding show_digits
show_digits-Lacks c zero n l m = digit-Lacks c n l m
show_digits-Lacks c (suc k) n l m = elim (Bool-cases (ltb n 10)) [
  | inl one_digit ↦ rw one_digit (digit-Lacks c n (ground arith) m)
  | inr more ↦ rw more (
      split_once-append_none c (show_digits k (n / 10)) _
        (show_digits-Lacks c k (n / 10) (omega (arith, l)) m)
        (digit-Lacks c (n % 10) (omega arith) m))
]

Lacks-tail : (c : ℕ) (xs ys : Text) → Lacks c (xs ++ ys) → Lacks c ys
unfolding split_once
Lacks-tail c [] ys l = l
Lacks-tail c (x ∷ xs) ys l = elim (Bool-cases (x == c)) [
  | inl here ↦ absurd (cc (rw here at l))
  | inr other ↦ Lacks-tail c xs ys (cons_first-none x _ (rw other at l))
]

bracketed_lem :
    (before after port : Text)
    → Lacks colon after
    → bracketed before (after ++ colon ∷ port) (before ++ close_bracket ∷ after, some port)
      ≡ (before ++ close_bracket ∷ after, some port)
unfolding split_once
bracketed_lem before [] port l = refl
bracketed_lem before (c ∷ after) port l = elim (Bool-cases (c == colon)) [
  | inl here ↦ absurd (cc (rw here at l))
  | inr other ↦ rw other refl
]

-- Looking for a bracket changes nothing for a name without a colon.
at_bracket-plain :
    (h port : Text) (o : Option (Text × Text))
    → split_once close_bracket h ≡ o
    → Parts close_bracket h o
    → Lacks colon h
    → Lacks close_bracket port
    → at_bracket (split_once close_bracket (h ++ colon ∷ port)) (h, some port) ≡ (h, some port)
unfolding split_once
at_bracket-plain h port none e p l m =
    let whole : Lacks close_bracket (h ++ colon ∷ port) =
      split_once-append_none close_bracket h (colon ∷ port) e
        (split_once-append_none close_bracket (colon ∷ []) port refl m) in
    rw whole refl
at_bracket-plain h port (some (before, after)) e (b, q) l m =
    let cut : split_once close_bracket (h ++ colon ∷ port) ≡ some (before, after ++ colon ∷ port) =
      rw (q, append_assoc before (close_bracket ∷ after) (colon ∷ port))
        (split_once-append close_bracket before (after ++ colon ∷ port) b) in
    let l' : Lacks colon (close_bracket ∷ after) = Lacks-tail colon before _ (rw q at l) in
    rw (cut, q) (bracketed_lem before after port (Lacks-tail colon (close_bracket ∷ []) after l'))

IsName-split_host :
    (h port : Text)
    → IsName h
    → Lacks close_bracket port
    → split_host (h ++ colon ∷ port) ≡ (h, some port)
unfolding IsName split_host
IsName-split_host h port (inl l) m =
    let cut : split_once colon (h ++ colon ∷ port) ≡ some (h, port) =
      split_once-append colon h port l in
    elim (Bool-cases (starts_with open_bracket (h ++ colon ∷ port))) [
      | inl s ↦
          rw (split_host, s, cut)
            (at_bracket-plain h port _ refl (split_once-Parts close_bracket h) l m)
      | inr s ↦ rw (split_host, s, cut) refl
    ]
IsName-split_host h port (inr (inner, e, l, s)) m =
    let s' : starts_with open_bracket (h ++ colon ∷ port) ≡ true =
      starts_with-append open_bracket h (colon ∷ port) s in
    let cut : split_once close_bracket (h ++ colon ∷ port) ≡ some (inner, colon ∷ port) =
      rw (e, append_assoc inner (close_bracket ∷ []) (colon ∷ port))
        (split_once-append close_bracket inner (colon ∷ port) l) in
    rw (split_host, s', cut) (ap (λ t. (t, some port)) (sym e))

unwrapped-lt :
    (o : Option ℕ) (d : ℕ) → ((n : ℕ) → o ≡ some n → n < 65536) → d < 65536 → unwrap_or o d < 65536
unwrapped-lt none d h l = l
unwrapped-lt (some n) d h l = h n refl

parse_port-lt : (o : Option Text) (n : ℕ) → parse_port o ≡ some n → n < 65536
parse_port-lt none n e = absurd (cc e)
parse_port-lt (some port) n e = parse_u16-lt port n e

-- The text of a request, its hostname and its port, is read back as that hostname and that port,
-- whatever text the request is, if the port that was set fits into 16 bits.
pub show_info-split_host :
    (c : ConnectInfo Text)
    → c.port < 65536
    → (host_name (show_info text_host c) ≡ host_name c.request)
      × (host_port (show_info text_host c) ≡ some (info_port text_host c))
unfolding show_info host_name host_port show_u16 info_port
show_info-split_host c l =
    let port = info_port text_host c in
    let fits : port < 65536 =
      unwrapped-lt (host_port c.request) c.port (λ n e. parse_port-lt (split_host c.request).1 n e)
        l in
    let parts : split_host (host_name c.request ++ colon ∷ show_u16 port)
        ≡ (host_name c.request, some (show_u16 port)) =
      IsName-split_host (host_name c.request) (show_u16 port) (host_name-IsName c.request)
        (show_digits-Lacks close_bracket 4 port (omega arith) (omega arith)) in
    (ap (λ r. r.0) parts, ap (λ r. parse_port r.1) parts ∙ show_u16-parse port fits)
