-- ===== src/Pdu/Layout.antt =====
-- The header of a PDU under Decode, and slices of a body whose parts are known.
use stayrtr.Prelude.{
  ℕ, ◌+◌, ◌-◌, ◌≤◌, ◌≡◌, refl, ◌∙◌, arith, List, ◌++◌, some, length, put16, put32, be16-bytes,
  be32-bytes, mod-byte, le→leb, take-append, drop-append, length-append,
}
use stayrtr.Pdu.{Pdu}
use stayrtr.Pdu.Write.{header}
use stayrtr.Pdu.Decode.{ok, ◌>>=◌, read_bytes, slice, decode, decode_body}
use stayrtr.Pdu.Received.{Is8, Is16}

read_bytes-append : (n : ℕ) (xs ys : List ℕ) → length xs ≡ n → read_bytes n (xs ++ ys) ≡ ok (xs, ys)
unfolding read_bytes
read_bytes-append n xs ys h =
    ground (arith, h, length-append xs ys, take-append xs ys, drop-append xs ys)

-- The header is read back, and what remains is the switch on the body.
decode-header :
    (version id session len : ℕ) (body rest : List ℕ)
    → Is8 version
    → Is8 id
    → Is16 session
    → length body + 8 ≡ len
    → len ≤ 2048
    → decode (some (header version id session len ++ (body ++ rest)))
      ≡ (decode_body version id session body >>= λ pdu. ok (pdu, rest))
unfolding header put16 put32 decode
decode-header version id session len body rest hv hi hs hl hm =
    rw
      (
        be32-bytes len (omega arith),
        be16-bytes session hs,
        mod-byte version hv,
        mod-byte id hi,
        le→leb 8 len (omega arith),
        le→leb len 2048 hm,
        read_bytes-append (len - 8) body rest (omega arith),
      )
      refl

pub decode-layout :
    (version id session len : ℕ) (body rest : List ℕ) (p : Pdu)
    → decode_body version id session body ≡ ok p
    → Is8 version
    → Is8 id
    → Is16 session
    → length body + 8 ≡ len
    → len ≤ 2048
    → decode (some (header version id session len ++ (body ++ rest))) ≡ ok (p, rest)
decode-layout version id session len body rest p e hv hi hs hl hm =
    decode-header version id session len body rest hv hi hs hl hm ∙ rw e

-- A slice is the part between what stands before it and behind it.
pub slice_middle :
    (b front mid back : List ℕ) (lo hi : ℕ)
    → b ≡ front ++ (mid ++ back)
    → length front ≡ lo
    → lo + length mid ≡ hi
    → slice b lo hi ≡ ok mid
unfolding slice
slice_middle b front mid back lo hi e hlo hhi =
    rw (e, ← hlo)
      (ground (
        arith,
        hlo,
        hhi,
        length-append front (mid ++ back),
        length-append mid back,
        drop-append front (mid ++ back),
        take-append mid back,
      ))
