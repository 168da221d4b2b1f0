-- ===== src/Uri/Url.antt =====
-- source/uri/url.hpp and url.cpp. The regular expression search and `sscanf` are parameters.
use torr.Prelude.{
  ℕ, zero, suc, ◌+◌, ◌-◌, ◌*◌, ◌/◌, ◌%◌, ◌^◌, ◌<◌, Bool, true, false, List, [], ◌∷◌, ◌++◌, Option,
  none, some, Result, ok, err, if◌then◌else◌, length, take, get_or, bytes, bytes_eq, ltb, leb, ◌==◌,
  ◌&&◌, ◌||◌, not, All, ◌≡◌, ◌≢◌, refl, ap, arith,
}
use torr.Bencode.Number.{is_digit, digits_value}

-- `protocol_type`
pub data ProtocolType : Type 0 where
  https http udp tcp wss : ProtocolType

-- The messages of the errors, and the exception of `std::stoi`.
pub data UrlError : Type 0 where
  unsupported_protocol undetermined_port malformed undetermined_host search_failed : UrlError
  stoi_out_of_range : UrlError

pub record Url : Type 0 where
  pub protocol : ProtocolType
  pub host : List ℕ
  pub path : List ℕ
  pub query : List ℕ
  pub port : ℕ

-- `determine_protocol`
unfoldable pub determine_protocol : List ℕ → Result UrlError ProtocolType
determine_protocol s =
    if bytes_eq s (bytes "https")
    then ok https
    else if bytes_eq s (bytes "http")
    then ok http
    else if bytes_eq s (bytes "tcp")
    then ok tcp
    else if bytes_eq s (bytes "udp")
    then ok udp
    else if bytes_eq s (bytes "wss")
    then ok wss
    else err unsupported_protocol

-- `strspn` over the digits reaches the end.
abbrev pub all_digits : List ℕ → Bool
all_digits [] = true
all_digits (c ∷ cs) = is_digit c && all_digits cs

abbrev default_port : ProtocolType → Result UrlError ℕ
default_port https = ok 443
default_port http = ok 80
default_port _ = err undetermined_port

-- `std::stoi` of digits.
abbrev pub stoi : List ℕ → Result UrlError ℕ
stoi cs = let v = digits_value 0 cs in if ltb v (2 ^ 31) then ok v else err stoi_out_of_range

-- `determine_port`
unfoldable pub determine_port : List ℕ → ProtocolType → Result UrlError ℕ
determine_port s p = if not (all_digits s) || length s == 0 then default_port p else stoi s

abbrev protocol_or_http : Result UrlError ProtocolType → ProtocolType
protocol_or_http (ok p) = p
protocol_or_http (err e) = http

-- `decode`, where `scan` is `sscanf` of `%x` and `indeterminate` what `as_hex` holds where nothing
-- is scanned; so many characters are to be skipped.
module _ (scan : List ℕ → Option ℕ) (indeterminate : ℕ) where
  abbrev pub as_hex : List ℕ → ℕ
  as_hex s = elim (scan s) [ none ↦ indeterminate | some v ↦ v ]

  unfoldable pub decode_from : ℕ → List ℕ → List ℕ
  decode_from skip [] = []
  decode_from (suc skip) (c ∷ cs) = decode_from skip cs
  decode_from zero (c ∷ cs) =
      let kept = decode_from zero cs in
      let skipped = decode_from 2 cs in
      let v = as_hex (take 2 cs) in
      if c == b'%' && (v == 0x3A || v == 0x2F) then v ∷ skipped else c ∷ kept

  abbrev pub decode : List ℕ → List ℕ
  decode s = decode_from 0 s

  module _ (search : List ℕ → Option (List (List ℕ))) where
    -- `from_string` behind the tests of the host.
    unfoldable pub set_parts : Url → List (List ℕ) → Option UrlError × Url
    set_parts u groups =
        let protocol = protocol_or_http (determine_protocol (get_or groups 2 [])) in
        let next = record u { host = get_or groups 3 []; protocol = protocol } in
        elim (determine_port (get_or groups 5 []) protocol) [
          | err e ↦ (some e, next)
          | ok p ↦ (
            none,
            record next {
              port = p;
              path = get_or groups 6 [] ++ get_or groups 8 [];
              query = get_or groups 9 [];
            },
          )
        ]

    -- `from_string`, with the error, if any, and the url that it leaves.
    unfoldable pub from_string : Url → List ℕ → Option UrlError × Url
    from_string u s = elim (search (decode s)) [
      | none ↦ (some search_failed, u)
      | some groups ↦
          if leb (length groups) 8
          then (some malformed, u)
          else if length (get_or groups 3 []) == 0
          then (some undetermined_host, record u { host = [] })
          else set_parts u groups
    ]

-- A url without a percent sign is its own decoding, whatever `sscanf` does.
pub decode-plain :
    (scan : List ℕ → Option ℕ) (indeterminate : ℕ) (s : List ℕ)
    → All (λ (c : ℕ). c ≢ b'%') s
    → decode scan indeterminate s ≡ s
unfolding decode_from
decode-plain scan indeterminate [] h = refl
decode-plain scan indeterminate (c ∷ cs) (h, hs) =
    let other : (c == b'%') ≡ false = ground arith in
    rw other (ap (◌∷◌ c) (decode-plain scan indeterminate cs hs))

-- `%02x`
abbrev pub hex_digit : ℕ → ℕ
hex_digit n = if ltb n 10 then b'0' + n else b'a' + (n - 10)

unfoldable pub bytes_as_url_escaped_string : List ℕ → List ℕ
bytes_as_url_escaped_string [] = []
bytes_as_url_escaped_string (e ∷ es) =
    b'%' ∷ hex_digit (e / 16) ∷ hex_digit (e % 16) ∷ bytes_as_url_escaped_string es

-- The reading of percent-encoding that is independent of the program: a percent sign and two digits
-- are a byte.
unfoldable pub hex_value : ℕ → ℕ
hex_value c = if ltb c b'a' then c - b'0' else c - b'a' + 10

unfoldable pub unescape : List ℕ → List ℕ
unescape (c ∷ h ∷ l ∷ rest) =
    let tail = unescape rest in if c == b'%' then (hex_value h * 16 + hex_value l) ∷ tail else []
unescape _ = []

abbrev pub IsByte : ℕ → Type 0
IsByte n = n < 256

hex_value-hex_digit : (n : ℕ) → n < 16 → hex_value (hex_digit n) ≡ n
unfolding hex_value
hex_value-hex_digit n h = ground arith

-- Every byte string is read back from its escaped form, which has three characters for each byte.
pub unescape-bytes_as_url_escaped_string :
    (bs : List ℕ)
    → All IsByte bs
    → (unescape (bytes_as_url_escaped_string bs) ≡ bs)
      × (length (bytes_as_url_escaped_string bs) ≡ 3 * length bs)
unfolding unescape bytes_as_url_escaped_string
unescape-bytes_as_url_escaped_string [] h = (refl, omega arith)
unescape-bytes_as_url_escaped_string (b ∷ bs) (h, hs) =
    let (e, l) = unescape-bytes_as_url_escaped_string bs hs in
    (
      rw (hex_value-hex_digit (b / 16) (omega arith)) (
          rw (hex_value-hex_digit (b % 16) (omega arith))
            (rw e (ap (λ (x : ℕ). x ∷ bs) (omega arith)))),
      omega (arith, l),
    )
