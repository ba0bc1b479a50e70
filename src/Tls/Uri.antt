-- ===== src/Tls/Uri.antt =====
-- actix-tls/src/connect/uri.rs: the port of a URI, by its own port or by its scheme. What the http crates
-- read from a URI are parameters, and both of their versions have the same code.
use actix_net.Prelude.{
  ℕ, Bool, true, false, ◌&&◌, List, [], ◌∷◌, Option, none, some, ◌==◌, if◌then◌else◌,
}
use actix_net.Tls.Host.{Text, Host}

abbrev pub same_text : Text → Text → Bool
same_text [] [] = true
same_text [] (y ∷ ys) = false
same_text (x ∷ xs) [] = false
same_text (x ∷ xs) (y ∷ ys) = (x == y) && same_text xs ys

-- http, https, ws, wss, amqp, amqps, mqtt, mqtts, ftp, ftps, redis, mysql and postgres.
abbrev pub schemes : List (Text × ℕ)
schemes =
    (104 ∷ 116 ∷ 116 ∷ 112 ∷ [], 80)
    ∷ (104 ∷ 116 ∷ 116 ∷ 112 ∷ 115 ∷ [], 443)
    ∷ (119 ∷ 115 ∷ [], 80)
    ∷ (119 ∷ 115 ∷ 115 ∷ [], 443)
    ∷ (97 ∷ 109 ∷ 113 ∷ 112 ∷ [], 5672)
    ∷ (97 ∷ 109 ∷ 113 ∷ 112 ∷ 115 ∷ [], 5671)
    ∷ (109 ∷ 113 ∷ 116 ∷ 116 ∷ [], 1883)
    ∷ (109 ∷ 113 ∷ 116 ∷ 116 ∷ 115 ∷ [], 8883)
    ∷ (102 ∷ 116 ∷ 112 ∷ [], 21)
    ∷ (102 ∷ 116 ∷ 112 ∷ 115 ∷ [], 990)
    ∷ (114 ∷ 101 ∷ 100 ∷ 105 ∷ 115 ∷ [], 6379)
    ∷ (109 ∷ 121 ∷ 115 ∷ 113 ∷ 108 ∷ [], 3306)
    ∷ (112 ∷ 111 ∷ 115 ∷ 116 ∷ 103 ∷ 114 ∷ 101 ∷ 115 ∷ [], 5432)
    ∷ []

abbrev pub lookup : Text → List (Text × ℕ) → Option ℕ
lookup scheme [] = none
lookup scheme ((name, port) ∷ rest) =
    let other = lookup scheme rest in if same_text scheme name then some port else other

-- `scheme_to_port`.
unfoldable pub scheme_to_port : Option Text → Option ℕ
scheme_to_port none = none
scheme_to_port (some scheme) = lookup scheme schemes

module _ {U : Type 0} (host : U → Option Text) (port_u16 : U → Option ℕ)
    (scheme_str : U → Option Text) where
  abbrev pub or_empty : Option Text → Text
  or_empty none = []
  or_empty (some t) = t

  abbrev pub port_or : Option ℕ → Option Text → Option ℕ
  port_or (some port) scheme = some port
  port_or none scheme = scheme_to_port scheme

  -- `Host` for `http_0_2::Uri` and for `http_1::Uri`.
  unfoldable pub uri_host : Host U
  uri_host = record {
    hostname = λ u. or_empty (host u);
    port = λ u. port_or (port_u16 u) (scheme_str u);
  }
