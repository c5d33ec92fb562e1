-- ===== src/IpAddress.antt =====
-- common/ip_address.go: addresses as texts and as numbers. An `int` of the source is its pattern of
-- 64 bits, a number below 2 ^ 64; what the code panics on is a panic.
use Prim.Native.Nat.{bit_or}
use wfc_server_private.Prelude.{
  ℕ, suc, ◌+◌, ◌-◌, ◌*◌, ◌%◌, ◌^◌, ◌≡◌, refl, Bool, false, ◌&&◌, ◌||◌, Option, none, some, List, [],
  ◌∷◌, ltb, leb, ◌==◌, if◌then◌else◌, Bytes, str,
}
use wfc_server_private.Prelude.Outcome.{Outcome, ok, panicked, ◌>>=◌}

push : ℕ → List Bytes → List Bytes
push c [] = (c ∷ []) ∷ []
push c (w ∷ ws) = (c ∷ w) ∷ ws

-- strings.Split(s, sep) with a separator of one byte
unfoldable pub split : ℕ → Bytes → List Bytes
unfolding push
split sep [] = [] ∷ []
split sep (c ∷ s) = let rest = split sep s in if c == sep then [] ∷ rest else push c rest

-- the digits of strconv.Atoi, none at another byte
unfoldable pub digits_value : ℕ → Bytes → Option ℕ
digits_value acc [] = some acc
digits_value acc (c ∷ s) =
    let rest = digits_value (acc * 10 + (c - 48)) s in if leb 48 c && leb c 57 then rest else none

-- at least one digit
unsigned_value : Bytes → Option ℕ
unsigned_value [] = none
unsigned_value (c ∷ s) = digits_value 0 (c ∷ s)

in_range : ℕ → ℕ → ℕ → Option ℕ
in_range bound pattern n = if leb n bound then some pattern else none

positive : Option ℕ → Option ℕ
positive none = none
positive (some n) = in_range (2 ^ 63 - 1) n n

negative : Option ℕ → Option ℕ
negative none = none
negative (some n) = in_range (2 ^ 63) ((2 ^ 64 - n) % 2 ^ 64) n

-- strconv.Atoi, to the pattern of its result; none is its error
unfoldable pub atoi : Bytes → Option ℕ
unfolding unsigned_value positive negative in_range digits_value
atoi [] = none
atoi (c ∷ s) =
    if c == b'+'
    then positive (unsigned_value s)
    else if c == b'-'
    then negative (unsigned_value s)
    else positive (unsigned_value (c ∷ s))

-- `val, err := strconv.Atoi(s); if err != nil { panic(err) }`
unfoldable pub must_atoi : Bytes → Outcome ℕ
unfolding atoi
must_atoi s = elim (atoi s) [ none ↦ panicked | some n ↦ ok n ]

head_or : Bytes → List Bytes → Bytes
head_or d [] = d
head_or d (w ∷ ws) = w

-- `ipSplit[1]`
second : List Bytes → Outcome Bytes
second (w ∷ p ∷ ws) = ok p
second _ = panicked

contains : ℕ → Bytes → Bool
contains c [] = false
contains c (d ∷ s) = d == c || contains c s

-- the text before the first colon
unfoldable pub host : Bytes → Bytes
unfolding contains split head_or
host ip = if contains b':' ip then head_or ip (split b':' ip) else ip

unfoldable pub port_of : Bytes → Outcome ℕ
unfolding contains split second must_atoi
port_of ip = if contains b':' ip then (do p ← second (split b':' ip); must_atoi p) else ok 0

-- `intIP |= val << (24 - i*8)` for the octets from the `i`-th on; a negative shift is a panic
unfoldable pub or_octets : ℕ → ℕ → List Bytes → Outcome ℕ
unfolding must_atoi
or_octets i acc [] = ok acc
or_octets i acc (s ∷ ss) = do
  val ← must_atoi s
  if ltb 3 i then panicked else or_octets (suc i) (bit_or acc (val * 2 ^ (24 - i * 8) % 2 ^ 64)) ss

-- IPFormatToInt: the pattern of the int32, and the port
unfoldable pub ip_format_to_int : Bytes → Outcome (ℕ × ℕ)
unfolding host port_of or_octets split
ip_format_to_int ip = do
  port ← port_of ip
  n ← or_octets 0 0 (split b'.' (host ip))
  ok (n % 2 ^ 32, port % 2 ^ 16)

-- the loop of IPFormatBytes
unfoldable pub octets : List Bytes → Outcome Bytes
unfolding must_atoi
octets [] = ok []
octets (s ∷ ss) = do val ← must_atoi s; rest ← octets ss; ok (val % 256 ∷ rest)

unfoldable pub ip_format_bytes : Bytes → Outcome Bytes
unfolding host split octets
ip_format_bytes ip = octets (split b'.' (host ip))

loopback : ip_format_to_int (str "127.0.0.1:29900") ≡ ok (0x7F000001, 29900)
unfolding ip_format_to_int
loopback = refl

too_many : ip_format_to_int (str "1.2.3.4.5") ≡ panicked
unfolding ip_format_to_int
too_many = refl

bytes_of : ip_format_bytes (str "10.0.255.1:80") ≡ ok (10 ∷ 0 ∷ 255 ∷ 1 ∷ [])
unfolding ip_format_bytes
bytes_of = refl
