-- ===== src/Binlog/Tick/Rightful.antt =====
-- The messages of a tick, and what the books allow of them.
use support_proxy.Base.{
  ℕ, zero, suc, ◌+◌, ◌≤◌, ◌<◌, ◌≡◌, refl, false, List, [], ◌∷◌, ◌++◌, arith, inl, inr,
  if◌then◌else◌, All, Bool-cases,
}
use support_proxy.Binlog.{Nack}
use support_proxy.Binlog.Seen.{seqno_seen}
use support_proxy.Binlog.Gaps.Walk.{Missing}
use support_proxy.Binlog.Block.Invariant.{Seen}
use support_proxy.Binlog.Tick.{
  Status, start_packet, stop_packet, ack, nack, Link, drain_acks, is_throttled, send_nacks,
}

-- A status that the books allow: an ACK of a block that was seen, a NACK of one that is missing.
abbrev pub Rightful : List ℕ → ℕ → Status → Type 0
Rightful bitmap high start_packet = Unit {0}
Rightful bitmap high stop_packet = Unit {0}
Rightful bitmap high (ack s) = Seen bitmap s
Rightful bitmap high (nack s) = (seqno_seen bitmap s ≡ false) × (s < high)

pub append-All :
    (bitmap : List ℕ) (high : ℕ) (xs ys : List Status)
    → All (Rightful bitmap high) xs
    → All (Rightful bitmap high) ys
    → All (Rightful bitmap high) (xs ++ ys)
append-All bitmap high [] ys a b = b
append-All bitmap high (x ∷ xs) ys (h, a) b = (h, append-All bitmap high xs ys a b)

pub drain_acks-Rightful :
    (bitmap : List ℕ) (high : ℕ) (acks : List ℕ)
    → All (Seen bitmap) acks
    → All (Rightful bitmap high) (drain_acks acks)
unfolding drain_acks
drain_acks-Rightful bitmap high [] a = tt
drain_acks-Rightful bitmap high (s ∷ acks) (h, a) = (h, drain_acks-Rightful bitmap high acks a)

-- The NACKs that went out whole.
abbrev pub nacks_out : Link → List Status → ℕ
nacks_out link [] = 0
nacks_out link (nack s ∷ rest) = let n = nacks_out link rest in if link (nack s) then n + 1 else n
nacks_out link (ack s ∷ rest) = nacks_out link rest
nacks_out link (start_packet ∷ rest) = nacks_out link rest
nacks_out link (stop_packet ∷ rest) = nacks_out link rest

module _ (bitmap : List ℕ) (high now : ℕ) (link : Link) where
  abbrev pub NacksOk : ℕ → List Nack × List Status → Type 0
  NacksOk budget r =
      All (Missing bitmap high) r.0 × All (Rightful bitmap high) r.1 × (nacks_out link r.1 ≤ budget)

  pub send_nacks_lem :
      (budget : ℕ) (ns : List Nack)
      → All (Missing bitmap high) ns
      → NacksOk budget (send_nacks budget now link ns)
  unfolding send_nacks
  send_nacks_lem zero ns ms = (ms, tt, omega arith)
  send_nacks_lem (suc budget) [] ms = (tt, tt, omega arith)
  send_nacks_lem (suc budget) (n ∷ ns) (m, ms) =
      let (k, r, c) = send_nacks_lem (suc budget) ns ms in
      let (k', r', c') = send_nacks_lem budget ns ms in
      elim (Bool-cases (is_throttled now n)) [
        | inl e ↦ rw (e, send_nacks) ((m, k), r, c)
        | inr e ↦ elim (Bool-cases (link (nack n.seqno))) [
          | inl went ↦
              rw (e, send_nacks, went, send_nacks) ((m, k'), (m, r'), ground (arith, went, c'))
          | inr lost ↦
              rw (e, send_nacks, lost, send_nacks) ((m, k), (m, r), ground (arith, lost, c))
        ]
      ]

pub nacks_out-append :
    (link : Link) (xs ys : List Status)
    → nacks_out link (xs ++ ys) ≡ nacks_out link xs + nacks_out link ys
nacks_out-append link [] ys = omega arith
nacks_out-append link (start_packet ∷ xs) ys = nacks_out-append link xs ys
nacks_out-append link (stop_packet ∷ xs) ys = nacks_out-append link xs ys
nacks_out-append link (ack s ∷ xs) ys = nacks_out-append link xs ys
nacks_out-append link (nack s ∷ xs) ys = ground (arith, nacks_out-append link xs ys)

pub nacks_out-drain_acks : (link : Link) (acks : List ℕ) → nacks_out link (drain_acks acks) ≡ 0
unfolding drain_acks
nacks_out-drain_acks link [] = refl
nacks_out-drain_acks link (s ∷ acks) = nacks_out-drain_acks link acks
