-- ===== src/Server.antt =====
-- cmd/server/main.go: the address that the frontend's proxy calls. `parse_addr_port` is
-- `netip.ParseAddrPort`: the address in its standard form, and the port.
pub mod Start
pub mod Limits
use Prim.Native.Char.{Char, code}
use aelora.Prelude.{
  ℕ, String, ◌==◌, Bool, not, ◌&&◌, ◌||◌, Option, none, some, eqb, concat, has_prefix, trim_prefix,
  is_some, if◌then◌else◌,
}
use aelora.Prelude.Parse.{split2, itoa}
use aelora.Domain.{other, Result, ok, err}

abbrev later_split : Char → Bool → String → Option (String × String) → Option (String × String)
later_split c here s (some (a, b)) = some (String.◌∷◌ c a, b)
later_split c here s none = if here then some ("", s) else none

-- The texts before and behind the last `sep`.
split_last : Char → String → Option (String × String)
split_last sep String.[] = none
split_last sep (String.◌∷◌ c s) = later_split c (eqb (code c) (code sep)) s (split_last sep s)

is_bracket : Char → Bool
is_bracket c = eqb (code c) (code "[") || eqb (code c) (code "]")

trim_left : String → String
unfolding is_bracket
trim_left String.[] = ""
trim_left (String.◌∷◌ c s) = let rest = trim_left s in if is_bracket c then rest else String.◌∷◌ c s

trim_right : String → String
unfolding is_bracket
trim_right String.[] = ""
trim_right (String.◌∷◌ c s) =
    let rest = trim_right s in if (rest == "") && is_bracket c then "" else String.◌∷◌ c rest

-- The local host stands for an address that is empty or unspecified.
host_or_local : String → String
host_or_local host =
    if not (host == "") && not (host == "0.0.0.0") && not (host == "::") then host else "127.0.0.1"

-- The host and the port, by the last colon.
by_last_colon : String → Option (String × String) → Result (String × String)
unfolding trim_left trim_right host_or_local
by_last_colon http_addr none = err (other "invalid http addr")
by_last_colon http_addr (some (host, port)) =
    if (host == "") || (port == "")
    then err (other "invalid http addr")
    else ok (host_or_local (trim_left (trim_right host)), port)

by_parser : String → Option (String × ℕ) → Result (String × String)
unfolding by_last_colon split_last host_or_local
by_parser http_addr (some (host, port)) = ok (host_or_local host, itoa port)
by_parser http_addr none = by_last_colon http_addr (split_last ":" http_addr)

url : Result (String × String) → Result String
url (err e) = err e
url (ok (host, port)) =
    if port == ""
    then err (other "http addr missing port")
    else ok (concat (concat (concat "http://" host) ":") port)

unfoldable pub frontend_backend_url : (String → Option (String × ℕ)) → String → Result String
unfolding by_parser url
frontend_backend_url parse_addr_port http_addr =
    if has_prefix http_addr ":"
    then url (ok ("127.0.0.1", trim_prefix http_addr ":"))
    else if is_some (split2 ":" http_addr)
    then url (by_parser http_addr (parse_addr_port http_addr))
    else err (other "http addr must include port")

unfoldable pub must_frontend_backend_url : (String → Option (String × ℕ)) → String → String
unfolding frontend_backend_url
must_frontend_backend_url parse_addr_port http_addr =
    elim (frontend_backend_url parse_addr_port http_addr) [ ok url ↦ url | err e ↦ "" ]
