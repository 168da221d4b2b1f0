-- ===== src/Uri/Runs.antt =====
-- Tests of source/uri/url.cpp, and its theorems at concrete inputs.
use torr.Prelude.{
  replicate, get_or, ap, ◌≢◌, ℕ, List, [], ◌∷◌, Option, none, ok, err, bytes, bytes_eq, ◌≡◌, refl,
  length, ◌*◌, arith,
}
use torr.Bencode.Number.{is_digit, digits_value}
use torr.Bencode.Access.{no_bracket}
use torr.Uri.Magnet.{
  Magnet, access_fault, read_parameters, read_parameter, read_words, new_magnet, hex_to_bytes,
  nibble, hex_byte, urn_to_file_hash, from_string,
}
use torr.Uri.Magnet.Hashes.{hex, urn_to_file_hash-hex, from_string_without_source}
use torr.Uri.Url.{
  hex_digit, udp, http, determine_port, determine_protocol, bytes_as_url_escaped_string, unescape,
  unescape-bytes_as_url_escaped_string,
}

abbrev no_response : List ℕ → Option (List ℕ)
no_response s = none

abbrev scanned_nothing : List ℕ → Option ℕ
scanned_nothing s = none

port_of_udp : determine_port (bytes "6969") udp ≡ ok 6969
unfolding determine_port is_digit digits_value
port_of_udp = refl

default_port_of_http : determine_port [] http ≡ ok 80
unfolding determine_port
default_port_of_http = refl

protocol_of_udp : determine_protocol (bytes "udp") ≡ ok udp
unfolding determine_protocol bytes_eq
protocol_of_udp = refl

escaped : bytes_as_url_escaped_string (0 ∷ 171 ∷ []) ≡ bytes "%00%ab"
unfolding bytes_as_url_escaped_string
escaped = refl

unescape-bytes_as_url_escaped_string_example :
    (unescape (bytes_as_url_escaped_string (0 ∷ 171 ∷ [])) ≡ 0 ∷ 171 ∷ [])
    × (length (bytes_as_url_escaped_string (0 ∷ 171 ∷ [])) ≡ 3 * 2)
unescape-bytes_as_url_escaped_string_example =
    unescape-bytes_as_url_escaped_string (0 ∷ 171 ∷ []) (omega arith)

abbrev hash : List ℕ
hash = 171 ∷ replicate 19 9

urn_to_file_hash-hex_example :
    urn_to_file_hash (bytes "urn" ∷ bytes "btih" ∷ hex hash ∷ []) (new_magnet 0)
    ≡ ok (record (new_magnet 0) { file_hash = hash })
urn_to_file_hash-hex_example =
    urn_to_file_hash-hex hash (new_magnet 0) (omega arith) (omega arith) refl

-- Upper-case digits are not decoded.
upper_case : hex_to_bytes (bytes "AB") ≡ 235 ∷ []
unfolding hex_to_bytes nibble hex_byte
upper_case = refl

-- A uri with a tracker and a hash, and no source of the information.
abbrev unsourced : List ℕ → List (List ℕ × List ℕ)
unsourced uri = (bytes "tr", bytes "udp://t:80") ∷ (bytes "xt", bytes "urn:btih:") ∷ []

abbrev words : List ℕ → List (List ℕ)
words s = bytes "urn" ∷ bytes "btih" ∷ hex hash ∷ []

abbrev read : Magnet
read = record (new_magnet 0) { trackers = bytes "udp://t:80" ∷ []; file_hash = hash }

not_tr : bytes "tr" ≢ bytes "xs"
not_tr e = let first : 116 ≡ 120 = ap (λ (l : List ℕ). get_or l 0 0) e in omega (arith, first)

not_xt : bytes "xt" ≢ bytes "xs"
not_xt e = let second : 116 ≡ 115 = ap (λ (l : List ℕ). get_or l 1 0) e in omega (arith, second)

parameters_read : read_parameters words no_response (unsourced []) (new_magnet 0) ≡ ok read
unfolding read_parameters read_parameter urn_to_file_hash read_words hex hex_to_bytes nibble
    hex_byte hex_digit bytes_eq
parameters_read = refl

from_string_without_source_example :
    from_string words no_response unsourced (bytes "magnet:?tr=udp://t:80") (new_magnet 0)
    ≡ err (access_fault no_bracket)
unfolding bytes_eq
from_string_without_source_example =
    from_string_without_source words no_response unsourced (bytes "magnet:?tr=udp://t:80")
      (new_magnet 0) read refl (not_tr, (not_xt, tt)) refl parameters_read (omega arith)
      (omega arith)
