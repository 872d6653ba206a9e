-- ===== src/Relay/Rtp/Bounds.antt =====
-- A datagram's headers are read inside it, and its payload lies in it.
use support_proxy.Base.{
  ℕ, ◌+◌, ◌*◌, ◌%◌, ◌≤◌, ◌<◌, ◌≡◌, refl, Bool, true, false, not, ◌||◌, List, Option, none, some,
  ltb, ◌==◌, if◌then◌else◌, length, bit_and, has_bits, arith, ltb→lt,
}
use support_proxy.Base.Returns.{Returns, returns, Returns-then, Returns-test}
use support_proxy.Rtmp.Amf.Total.{get_elem?-Returns}
use support_proxy.Relay.Rtp.{extended, inside, rtp_payload_offset}

-- The payload is not empty, behind the fixed header.
abbrev pub InPayload : List ℕ → Option ℕ → Type 0
InPayload buf none = Unit
InPayload buf (some off) = (12 ≤ off) × (off < length buf)

abbrev Behind : Option ℕ → Type 0
Behind none = Unit
Behind (some off) = 12 ≤ off

extended-Returns : (buf : List ℕ) (b0 off : ℕ) → 12 ≤ off → Returns Behind (extended buf b0 off)
unfolding extended
extended-Returns buf b0 off h =
    Returns-test (has_bits b0 0x10)
      (λ _.
        Returns-test (ltb (length buf) (off + 4)) (λ _. returns tt)
          (λ f. Returns-then (get_elem?-Returns buf (off + 2) (ground (arith, f))) (λ hi _.
            Returns-then (get_elem?-Returns buf (off + 3) (ground (arith, f)))
              (λ lo _. returns (omega (arith, h))))))
      (λ _. returns h)

inside_payload :
    (buf : List ℕ) (t : Bool) (off : ℕ)
    → 12 ≤ off
    → (t ≡ true → off < length buf)
    → InPayload buf (if t then some off else none)
inside_payload buf true off h f = (h, f refl)
inside_payload buf false off h f = tt

inside-InPayload : (buf : List ℕ) (o : Option ℕ) → Behind o → InPayload buf (inside buf o)
unfolding inside
inside-InPayload buf none h = tt
inside-InPayload buf (some off) h =
    inside_payload buf (ltb off (length buf)) off h (ltb→lt off (length buf))

-- On any datagram rtp_payload_offset returns and reads no byte out of bounds, and a payload that it
-- finds begins behind the fixed header and inside the datagram.
pub rtp_payload_offset-InPayload : (buf : List ℕ) → Returns (InPayload buf) (rtp_payload_offset buf)
unfolding rtp_payload_offset
rtp_payload_offset-InPayload buf =
    Returns-test (ltb (length buf) 13) (λ _. returns tt)
      (λ f. Returns-then (get_elem?-Returns buf 0 (ground (arith, f))) (λ b0 _.
        Returns-then (get_elem?-Returns buf 1 (ground (arith, f))) (λ b1 _.
          Returns-test (not (bit_and b0 0xC0 == 0x80) || (ltb (b1 % 128) 96 || ltb 127 (b1 % 128)))
            (λ _. returns tt)
            (λ _.
              Returns-then (extended-Returns buf b0 (12 + 4 * bit_and b0 0x0F) (omega arith))
                (λ o h. returns (inside-InPayload buf o h))))))
