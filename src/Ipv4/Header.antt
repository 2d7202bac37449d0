-- ===== src/Ipv4/Header.antt =====
-- A packet that `IPv4` sends carries a header that `IPv4` accepts.
use kensv.Prelude.{
  ℕ, ◌+◌, ◌-◌, ◌/◌, ◌%◌, ◌^◌, ◌≤◌, ◌<◌, ◌≡◌, refl, ap, ◌∙◌, Bool, true, Option, none, some, List,
  [], ◌∷◌, ◌++◌, length, take, drop, All, ◌==◌, if◌then◌else◌, arith,
}
use kensv.Prelude.Maybe.{◌>>=◌, ◌>>◌, assert}
use kensv.NetworkUtil.{one_sum, le_bytes, htons}
use kensv.NetworkUtil.Checksum.{
  IsByte, word_sum, ones_complement, ones_complement_complete, one_sum_lem,
}
use kensv.Packet.{Packet, splice, get_size}
use kensv.Packet.Buffer.{write_data-fits, read_data-fits}
use kensv.Ipv4.{
  Output, read_bytes, read_byte, write_bytes, write_header, write_checksum, transmit, receive,
}

module _ {ℓ} {A : Type ℓ} where
  pub write_then :
      (offset : ℕ) (bytes : List ℕ) (p : Packet) (f : Packet → Option A)
      → offset + length bytes ≤ length p.buffer
      → (write_bytes offset bytes p >>= f) ≡ f (record p { buffer = splice offset bytes p.buffer })
  unfolding write_bytes
  write_then offset bytes p f h = rw (write_data-fits offset bytes p h)

  pub read_then :
      (offset len : ℕ) (p : Packet) (f : List ℕ → Option A)
      → offset + len ≤ length p.buffer
      → (read_bytes offset len p >>= f) ≡ f (take len (drop offset p.buffer))
  unfolding read_bytes
  read_then offset len p f h =
      let same : (len == len) ≡ true = ground arith in rw (read_data-fits offset len p h, same)

  pub byte_then :
      (offset : ℕ) (p : Packet) (b : ℕ) (rest : List ℕ) (f : ℕ → Option A)
      → offset + 1 ≤ length p.buffer
      → drop offset p.buffer ≡ b ∷ rest
      → (read_byte offset p >>= f) ≡ f b
  unfolding read_byte read_bytes
  byte_then offset p b rest f h e = rw (read_data-fits offset 1 p h, e)

  assert_then : (b : Bool) (k : Option A) → b ≡ true → (assert b >> k) ≡ k
  assert_then b k e = rw e

pub write_fits :
    (offset : ℕ) (bytes : List ℕ) (p : Packet)
    → offset + length bytes ≤ length p.buffer
    → write_bytes offset bytes p ≡ some (record p { buffer = splice offset bytes p.buffer })
unfolding write_bytes
write_fits offset bytes p h = rw (write_data-fits offset bytes p h)

-- The twenty bytes of the header, around the checksum and the two addresses.
abbrev pub header : ℕ → ℕ → ℕ → ℕ → ℕ → List ℕ → List ℕ
header proto id size c c' addresses =
    69
    ∷ 0
    ∷ (size / 2 ^ 8)
    ∷ (size % 2 ^ 8)
    ∷ (id / 2 ^ 8)
    ∷ (id % 2 ^ 8)
    ∷ 64
    ∷ 0
    ∷ 64
    ∷ proto
    ∷ c
    ∷ c'
    ∷ addresses

-- A buffer with an Ethernet header, the IPv4 header and the payload.
abbrev pub datagram : List ℕ → ℕ → ℕ → ℕ → ℕ → ℕ → List ℕ → List ℕ → List ℕ
datagram ethernet proto id size c c' addresses rest =
    ethernet ++ (header proto id size c c' addresses ++ rest)

write_header_lem :
    (proto id i : ℕ) (buffer : List ℕ)
    → 34 ≤ length buffer
    → write_header proto id (record { buffer = buffer; packet_id = i })
      ≡ some (record {
        buffer =
            datagram
              (take 14 buffer)
              proto
              id
              ((length buffer - 14) % 2 ^ 16)
              0
              0
              (take 8 (drop 26 buffer))
              (drop 34 buffer);
        packet_id = i;
      })
unfolding write_header get_size
write_header_lem proto id i
      (b0 ∷ b1 ∷ b2 ∷ b3 ∷ b4 ∷ b5 ∷ b6 ∷ b7 ∷ b8 ∷ b9 ∷ b10 ∷ b11 ∷ b12 ∷ b13 ∷ b14 ∷ b15 ∷ b16
        ∷ b17 ∷ b18 ∷ b19 ∷ b20 ∷ b21 ∷ b22 ∷ b23 ∷ b24 ∷ b25 ∷ b26 ∷ b27 ∷ b28 ∷ b29 ∷ b30 ∷ b31
        ∷ b32 ∷ b33 ∷ rest)
      h =
    write_then 14 _ _ _ (omega arith)
    ∙ write_then 15 _ _ _ (omega arith)
    ∙ assert_then _ _ (ground arith)
    ∙ write_then 16 _ _ _ (omega arith)
    ∙ write_then 17 _ _ _ (omega arith)
    ∙ write_then 18 _ _ _ (omega arith)
    ∙ write_then 19 _ _ _ (omega arith)
    ∙ write_then 20 _ _ _ (omega arith)
    ∙ write_then 21 _ _ _ (omega arith)
    ∙ write_then 22 _ _ _ (omega arith)
    ∙ write_then 23 _ _ _ (omega arith)
    ∙ write_then 24 _ _ _ (omega arith)
    ∙ write_fits 25 _ _ (omega arith)
write_header_lem proto id i _ h = absurd (omega arith)

-- The inverted sum, in the place of the checksum, completes the header's sum to 0xFFFF.
header_sum :
    (proto id size : ℕ) (a b c d e f g h : ℕ)
    → let addresses = a ∷ b ∷ c ∷ d ∷ e ∷ f ∷ g ∷ h ∷ [] in
      let sum = one_sum (header proto id size 0 0 addresses) in
      proto < 2 ^ 8
      → id < 2 ^ 16
      → size < 2 ^ 16
      → All IsByte addresses
      → one_sum (header proto id size ((0xFFFF - sum) / 2 ^ 8) ((0xFFFF - sum) % 2 ^ 8) addresses)
        ≡ 0xFFFF
unfolding word_sum
header_sum proto id size a b c d e f g h hp hi hs bytes =
    let addresses = a ∷ b ∷ c ∷ d ∷ e ∷ f ∷ g ∷ h ∷ [] in
    let plain : ℕ = word_sum true (header proto id size 0 0 addresses) in
    let sum : one_sum (header proto id size 0 0 addresses) ≡ ones_complement plain =
      one_sum_lem _ (omega arith) in
    let rest : ℕ = 65535 - ones_complement plain in
    let whole : word_sum true (header proto id size (rest / 2 ^ 8) (rest % 2 ^ 8) addresses)
        ≡ plain + rest =
      omega arith in
    rw sum (
      one_sum_lem (header proto id size (rest / 2 ^ 8) (rest % 2 ^ 8) addresses) (omega arith)
      ∙ ap ones_complement whole
      ∙ ones_complement_complete plain (omega arith))

le_bytes-htons : (x : ℕ) → x < 2 ^ 16 → le_bytes 2 (htons x) ≡ (x / 2 ^ 8) ∷ (x % 2 ^ 8) ∷ []
unfolding le_bytes htons
le_bytes-htons x h = ground arith

-- The length field, and the checksum that belongs to the other fields.
abbrev pub length_field : List ℕ → ℕ
length_field buffer = (length buffer - 14) % 2 ^ 16

abbrev pub checksum_for : ℕ → ℕ → ℕ → List ℕ → ℕ
checksum_for proto id size addresses = 0xFFFF - one_sum (header proto id size 0 0 addresses)

-- The buffer of a packet that is sent: the Ethernet header, the addresses and the payload are as
-- before.
abbrev pub sent_buffer : ℕ → ℕ → List ℕ → List ℕ
sent_buffer proto id buffer =
    let size = length_field buffer in
    let addresses = take 8 (drop 26 buffer) in
    let checksum = checksum_for proto id size addresses in
    datagram (take 14 buffer) proto id size (checksum / 2 ^ 8) (checksum % 2 ^ 8) addresses
      (drop 34 buffer)

write_checksum_lem :
    (proto id i size : ℕ) (buffer : List ℕ)
    → 34 ≤ length buffer
    → let addresses = take 8 (drop 26 buffer) in
      let checksum = checksum_for proto id size addresses in
      let around : ℕ → ℕ → Packet = λ c c'. record {
        buffer = datagram (take 14 buffer) proto id size c c' addresses (drop 34 buffer);
        packet_id = i;
      } in
      write_checksum (around 0 0) ≡ some (around (checksum / 2 ^ 8) (checksum % 2 ^ 8))
unfolding write_checksum
write_checksum_lem proto id i size
      (b0 ∷ b1 ∷ b2 ∷ b3 ∷ b4 ∷ b5 ∷ b6 ∷ b7 ∷ b8 ∷ b9 ∷ b10 ∷ b11 ∷ b12 ∷ b13 ∷ b14 ∷ b15 ∷ b16
        ∷ b17 ∷ b18 ∷ b19 ∷ b20 ∷ b21 ∷ b22 ∷ b23 ∷ b24 ∷ b25 ∷ b26 ∷ b27 ∷ b28 ∷ b29 ∷ b30 ∷ b31
        ∷ b32 ∷ b33 ∷ rest)
      h =
    read_then 14 20 _ _ (omega arith)
    ∙ rw
        (le_bytes-htons
          (checksum_for proto id size (b26 ∷ b27 ∷ b28 ∷ b29 ∷ b30 ∷ b31 ∷ b32 ∷ b33 ∷ []))
          (omega arith))
        (write_fits 24 _ _ (omega arith))
write_checksum_lem proto id i size _ h = absurd (omega arith)

-- A packet with room for the headers is always sent to Ethernet: its header fields are filled in
-- with the protocol, the identification, the length and the checksum, no other byte changes, and
-- the identification goes up by one modulo 2 ^ 16.
pub transmit_lem :
    (proto id : ℕ) (p : Packet)
    → 34 ≤ length p.buffer
    → transmit proto id p
      ≡ some (
        (id + 1) % 2 ^ 16,
        some ("Ethernet", record p { buffer = sent_buffer proto id p.buffer }),
      )
unfolding transmit
transmit_lem proto id p h = rw (
  write_header_lem proto id p.packet_id p.buffer h,
  write_checksum_lem proto id p.packet_id (length_field p.buffer) p.buffer h,
)

-- The module that a protocol number is for.
abbrev pub upper_module : ℕ → Packet → Output
upper_module protocol p =
    if protocol == 0x06
    then some ("TCP", p)
    else if protocol == 0x11
    then some ("UDP", p)
    else if protocol == 0x59
    then some ("OSPF", p)
    else none

-- A packet with the IPv4 ethertype whose header sums up to 0xFFFF goes to the module of its
-- protocol number.
pub receive_lem :
    (i b0 b1 b2 b3 b4 b5 b6 b7 b8 b9 b10 b11 proto id size c c' : ℕ) (addresses rest : List ℕ)
    → let ethernet =
        b0 ∷ b1 ∷ b2 ∷ b3 ∷ b4 ∷ b5 ∷ b6 ∷ b7 ∷ b8 ∷ b9 ∷ b10 ∷ b11 ∷ 0x08 ∷ 0x00 ∷ [] in
      let p : Packet = record {
        buffer = datagram ethernet proto id size c c' addresses rest;
        packet_id = i;
      } in
      length addresses ≡ 8
      → one_sum (header proto id size c c' addresses) ≡ 0xFFFF
      → receive p ≡ some (upper_module proto p)
unfolding receive
receive_lem i b0 b1 b2 b3 b4 b5 b6 b7 b8 b9 b10 b11 proto id size c c'
      (a1 ∷ a2 ∷ a3 ∷ a4 ∷ a5 ∷ a6 ∷ a7 ∷ a8 ∷ []) rest len sum =
    byte_then 12 _ 0x08 _ _ (omega arith) refl
    ∙ byte_then 13 _ 0x00 _ _ (omega arith) refl
    ∙ read_then 14 20 _ _ (omega arith)
    ∙ rw sum (byte_then 23 _ proto _ _ (omega arith) refl)
receive_lem i b0 b1 b2 b3 b4 b5 b6 b7 b8 b9 b10 b11 proto id size c c' _ rest len sum =
    absurd (omega arith)

-- The header of a packet that is sent sums up to 0xFFFF.
pub sent_sum :
    (proto id size : ℕ) (addresses : List ℕ)
    → proto < 2 ^ 8
    → id < 2 ^ 16
    → size < 2 ^ 16
    → length addresses ≡ 8
    → All IsByte addresses
    → let checksum = checksum_for proto id size addresses in
      one_sum (header proto id size (checksum / 2 ^ 8) (checksum % 2 ^ 8) addresses) ≡ 0xFFFF
sent_sum proto id size (a ∷ b ∷ c ∷ d ∷ e ∷ f ∷ g ∷ h ∷ []) hp hi hs len bytes =
    header_sum proto id size a b c d e f g h hp hi hs bytes
sent_sum proto id size _ hp hi hs len bytes = absurd (omega arith)
