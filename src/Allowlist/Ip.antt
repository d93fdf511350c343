-- ===== src/Allowlist/Ip.antt =====
-- Which texts `ipaddress.ip_address` of the standard library accepts, as `_target` of
-- packages/nettwin_core/src/nettwin_core/allowlist.py asks it.
use mathlib.Core.Option
use net_twin.Prelude.{
  ℕ, ◌+◌, ◌≡◌, refl, String, Bool, true, false, not, ◌&&◌, ◌||◌, List, [], ◌∷◌, Option, none, some,
  leb, ltb, if◌then◌else◌,
}
use net_twin.Prelude.Text.{
  length, size, is_empty, all_chars, any_char, is_digit, isdigit, int, between, split, startswith,
}

-- One part of a dotted address: up to three digits, no leading zero, at most 255.
octet : String → Bool
octet s =
    isdigit s && leb (length s) 3 && leb (int s) 255 && (leb (length s) 1 || not (startswith s "0"))

all_of : (String → Bool) → List String → Bool
all_of p [] = true
all_of p (x ∷ xs) = p x && all_of p xs

unfoldable pub is_ipv4 : String → Bool
unfolding octet all_of int split
is_ipv4 s =
    let parts = split b'.' s in leb 4 (size parts) && leb (size parts) 4 && all_of octet parts

is_hex : ℕ → Bool
is_hex c = is_digit c || between b'a' b'f' c || between b'A' b'F' c

hextet : String → Bool
unfolding is_hex
hextet s = not (is_empty s) && all_chars is_hex s && leb (length s) 4

-- A dotted last part stands for two hextets.
expand_last : List String → List String
expand_last [] = []
expand_last (s ∷ []) =
    if any_char (between b'.' b'.') s
    then (if is_ipv4 s then "0" ∷ "0" ∷ [] else "x" ∷ "x" ∷ [])
    else s ∷ []
expand_last (s ∷ t ∷ r) = s ∷ expand_last (t ∷ r)

-- The parts before and behind the first empty part that is not the last one.
cut_empty : List String → Option (List String × List String)
cut_empty [] = none
cut_empty (s ∷ []) = none
cut_empty (s ∷ t ∷ r) =
    let rest = cut_empty (t ∷ r) in
    if is_empty s then some ([], t ∷ r) else Option.map (λ p. (s ∷ p.0, p.1)) rest

-- A `::` at an end of the text leaves one empty outer part there.
outer : List String → List String
outer [] = []
outer (s ∷ []) = if is_empty s then [] else s ∷ []
outer (s ∷ t ∷ r) = s ∷ t ∷ r

-- Eight hextets, or at most seven round one `::`.
hextets : String → List String → Bool
unfolding cut_empty outer all_of hextet
hextets first rest = elim (cut_empty rest) [
  | some p ↦
      let hi = outer (first ∷ p.0) in
      let lo = outer p.1 in all_of hextet hi && all_of hextet lo && ltb (size hi + size lo) 8
  | none ↦ between 8 8 (size (first ∷ rest)) && all_of hextet (first ∷ rest)
]

ipv6_parts : List String → Bool
unfolding hextets expand_last
ipv6_parts parts = between 3 9 (size parts) && with_first (expand_last parts)
  where
    with_first : List String → Bool
    with_first [] = false
    with_first (first ∷ rest) = between 3 9 (size (first ∷ rest)) && hextets first rest

-- `a%scope`: a scope is not empty and holds no `%`.
scoped : List String → Bool
unfolding ipv6_parts split
scoped [] = false
scoped (a ∷ []) = ipv6_parts (split b':' a)
scoped (a ∷ s ∷ []) = not (is_empty s) && ipv6_parts (split b':' a)
scoped _ = false

unfoldable pub is_ip : String → Bool
unfolding is_ipv4 scoped
is_ip s = is_ipv4 s || (not (any_char (between b'/' b'/') s) && scoped (split b'%' s))

addresses :
    (is_ip "10.0.40.10"
      && is_ip "::1"
      && is_ip "fe80::1%eth0"
      && is_ip "::ffff:10.0.0.1"
      && is_ip "1:2:3:4:5:6:7:8"
      && is_ip "::")
    ≡ true
unfolding is_ip
addresses = refl

not_addresses :
    (is_ip "10.0.40"
      || is_ip "10.0.040.1"
      || is_ip "256.0.0.1"
      || is_ip "1::2::3"
      || is_ip "1:2"
      || is_ip ":1:2:3:4:5:6:7"
      || is_ip "r1"
      || is_ip ""
      || is_ip ":::")
    ≡ false
unfolding is_ip
not_addresses = refl
