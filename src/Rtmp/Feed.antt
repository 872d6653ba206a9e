-- ===== src/Rtmp/Feed.antt =====
-- The handshake, and the loop over what is buffered.
use support_proxy.Base.{
  ℕ, zero, suc, ◌+◌, ◌-◌, ◌%◌, ◌^◌, Bool, true, false, not, ◌&&◌, ◌||◌, List, [], ◌∷◌, ◌++◌, none,
  some, ◌>>=◌, ltb, ◌==◌, if◌then◌else◌, length, get_elem?, replicate, codes,
}
use support_proxy.Rtmp.{
  RtmpState, want_c0c1, want_c2, chunks, dead, RtmpSession, compact, rtmp_prepublish_max_bytes,
  rtmp_prepublish_max_s,
}
use support_proxy.Rtmp.Out.{bytes_at}
use support_proxy.Rtmp.Command.{Step, done, failed}
use support_proxy.Rtmp.Message.{parse_chunks}

-- uint8_t of the indices from `i` on.
unfoldable pub filler : ℕ → ℕ → List ℕ
filler i zero = []
filler i (suc n) = (i % 256) ∷ filler (i + 1) n

-- The server's half: the version, the filler, and the peer's block.
unfoldable pub server_hello : List ℕ → List ℕ
unfolding filler
server_hello c1 = 3 ∷ replicate 8 0 ++ (filler 8 1528 ++ c1)

unfoldable pub do_handshake : RtmpSession → RtmpState → Step
unfolding server_hello
do_handshake s want_c0c1 = if ltb (length s.input - s.in_pos) 1537 then some (false, s) else (do
  version ← get_elem? s.input s.in_pos
  if not (version == 3) then failed s (codes "unsupported RTMP version") else (do
    c1 ← bytes_at s.input (s.in_pos + 1) 1536
    done (record s {
      to_peer = s.to_peer ++ server_hello c1;
      in_pos = s.in_pos + 1537;
      state = want_c2;
    })))
do_handshake s st =
    if ltb (length s.input - s.in_pos) 1536
    then some (false, s)
    else done (record s { in_pos = s.in_pos + 1536; state = chunks })

abbrev pub alive : RtmpSession → Bool
alive s = elim (s.state) [ dead ↦ false | want_c0c1 ↦ true | want_c2 ↦ true | chunks ↦ true ]

unfoldable pub parse_step : RtmpSession → RtmpState → Step
unfolding do_handshake
parse_step s want_c0c1 = do_handshake s want_c0c1
parse_step s want_c2 = do_handshake s want_c2
parse_step s chunks = parse_chunks s
parse_step s dead = some (false, s)

-- A step that answers false ends the loop without compact().
unfoldable pub run_parser : ℕ → RtmpSession → Step
unfolding parse_step
run_parser zero s = none
run_parser (suc fuel) s = do
  r ← parse_step s s.state
  let again = run_parser fuel r.1
  if not r.0
      then some (alive r.1, r.1)
      else if (r.1).publish_pending || (r.1).in_pos == s.in_pos
      then done (compact r.1)
      else again

abbrev pub parser_fuel : RtmpSession → ℕ
parser_fuel s = length s.input - s.in_pos + 1

unfoldable pub late : RtmpSession → Bool
late s =
    not s.publishing
    && (ltb rtmp_prepublish_max_bytes s.total_in || ltb rtmp_prepublish_max_s (s.now - s.started))

-- The counters behind a read of `n` bytes.
abbrev pub counted_in : RtmpSession → ℕ → ℕ → RtmpSession
counted_in s n now = record s {
  started = if s.started == 0 then now else s.started;
  now = now;
  total_in = (s.total_in + n) % 2 ^ 64;
}

abbrev pub buffered : RtmpSession → List ℕ → ℕ → RtmpSession
buffered s buf now = record (counted_in s (length buf) now) { input = s.input ++ buf }

unfoldable pub feed : RtmpSession → List ℕ → ℕ → Step
unfolding run_parser late
feed s buf now =
    if not (alive s)
    then some (false, s)
    else if late (counted_in s (length buf) now)
    then failed (counted_in s (length buf) now) (codes "did not publish in time")
    else run_parser (parser_fuel (buffered s buf now)) (buffered s buf now)

unfoldable pub resume : RtmpSession → Step
unfolding run_parser
resume s = if not (alive s) then some (false, s) else run_parser (parser_fuel s) s
