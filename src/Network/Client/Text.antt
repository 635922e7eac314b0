-- ===== src/Network/Client/Text.antt =====
-- network/AP_Client.cpp: its string helpers, over the bytes of a `std::string`.
use mod_i_found_your_sword.Prelude.{
  ℕ, ◌==◌, leb, Bool, true, false, not, ◌&&◌, ◌||◌, [], ◌∷◌, ◌++◌, map, if◌then◌else◌, length,
  codes, beq, drop, bytes-eq,
}
use mod_i_found_your_sword.Network.Client.Json.{Bytes}

-- `std::isxdigit` in the C locale.
unfoldable pub is_xdigit : ℕ → Bool
is_xdigit c = leb b'0' c && leb c b'9' || leb b'a' c && leb c b'f' || leb b'A' c && leb c b'F'

unfoldable pub all_of : (ℕ → Bool) → Bytes → Bool
all_of p [] = true
all_of p (c ∷ cs) = p c && all_of p cs

unfoldable pub is_valid_checksum : Bytes → Bool
unfolding is_xdigit all_of
is_valid_checksum checksum =
    if length checksum == 0 || not (leb (length checksum) 64)
    then false
    else all_of is_xdigit checksum

-- The path, with the separator of the platform.
unfoldable pub data_package_cache_path : Bytes → Bytes → Bytes
data_package_cache_path separator checksum =
    codes "ap_datapackage_cache" ++ (separator ++ (checksum ++ codes ".json"))

unfoldable pub is_printable : ℕ → Bool
is_printable c = leb 0x20 c && not (c == 0x7F)

unfoldable pub strip_unprintable : Bytes → Bytes
unfolding is_printable
strip_unprintable [] = []
strip_unprintable (c ∷ text) =
    let rest = strip_unprintable text in if is_printable c then c ∷ rest else rest

unfoldable pub deansify : Bytes → Bytes
deansify = map (λ c. if c == 0x1B then b' ' else c)

abbrev pub esc : Bytes → Bytes
esc code = 0x1B ∷ b'[' ∷ code

unfoldable pub color_to_ansi : Bytes → Bytes
color_to_ansi color =
    if beq color (codes "red")
    then esc (codes "31m")
    else if beq color (codes "green")
    then esc (codes "32m")
    else if beq color (codes "yellow")
    then esc (codes "33m")
    else if beq color (codes "blue")
    then esc (codes "34m")
    else if beq color (codes "magenta")
    then esc (codes "35m")
    else if beq color (codes "cyan")
    then esc (codes "36m")
    else if beq color (codes "plum")
    then esc (codes "38:5:219m")
    else if beq color (codes "slateblue")
    then esc (codes "38:5:62m")
    else if beq color (codes "salmon")
    then esc (codes "38:5:210m")
    else if beq color (codes "gray")
    then esc (codes "90m")
    else if beq color (codes "grey")
    then esc (codes "90m")
    else esc (codes "0m")

abbrev starts_with : Bytes → Bytes → Bool
starts_with [] text = true
starts_with (p ∷ ps) [] = false
starts_with (p ∷ ps) (c ∷ cs) = p == c && starts_with ps cs

-- What the constructor makes of the configured host: the host, and whether TLS is tried first.
unfoldable pub parse_host : Bytes → Bytes × Bool
parse_host host =
    if starts_with (codes "wss://") host
    then (drop 6 host, true)
    else if starts_with (codes "ws://") host
    then (drop 5 host, false)
    else (host, true)
