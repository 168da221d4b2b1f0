-- ===== src/Multiproc/Encoding.antt =====
-- source/multiproc/multiproc.cpp: the bytes of a message, written and read back.
use torr.Prelude.{ℕ, zero, suc, ◌*◌, ◌/◌, ◌^◌, ◌<◌, ◌≡◌, refl, ap, arith, length}
use torr.Multiproc.{native_bytes, native_value, MultiprocMessage, message_bytes, message_of}

length-native_bytes : (n v : ℕ) → length (native_bytes n v) ≡ n
unfolding native_bytes
length-native_bytes zero v = refl
length-native_bytes (suc n) v = ap suc (length-native_bytes n (v / 256))

-- The values of so many bytes.
abbrev pub bound : ℕ → ℕ
bound zero = 1
bound (suc n) = bound n * 256

native_value-native_bytes : (n v : ℕ) → v < bound n → native_value (native_bytes n v) ≡ v
unfolding native_bytes native_value
native_value-native_bytes zero v h = omega arith
native_value-native_bytes (suc n) v h =
    rw (native_value-native_bytes n (v / 256) (omega arith)) (omega arith)

-- A message that is written into the fifo is read back from its 24 bytes, whatever its padding holds.
pub message_of-message_bytes :
    (padding : ℕ × ℕ × ℕ × ℕ) (m : MultiprocMessage)
    → m.message_type < 2 ^ 32
    → m.payload_size < 2 ^ 64
    → m.field0 < 2 ^ 64
    → message_of (message_bytes padding m) ≡ m
unfolding message_of message_bytes native_bytes
message_of-message_bytes (a, b, c, d) m hk hp hf =
    rw (native_value-native_bytes 4 m.message_type (omega arith)) (
      rw (native_value-native_bytes 8 m.payload_size (omega arith))
        (rw (native_value-native_bytes 8 m.field0 (omega arith)) refl))

pub length-message_bytes :
    (padding : ℕ × ℕ × ℕ × ℕ) (m : MultiprocMessage) → length (message_bytes padding m) ≡ 24
unfolding message_bytes native_bytes
length-message_bytes (a, b, c, d) m = refl
