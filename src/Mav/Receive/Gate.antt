-- ===== src/Mav/Receive/Gate.antt =====
-- Only signed messages pass a link with a key id.
use support_proxy.Base.{ℕ, ◌≡◌, refl, true, false, List, [], ◌∷◌, Option, none, some, arith, ◌==◌}
use support_proxy.Mav.{Message, MavLink}
use support_proxy.Mav.Receive.{
  SigningStatus, Heard, Received, Verdict, refuse, on_bad_signature, on_good_signature, judge,
  after_byte, verdict, on_message, on_byte, receive_loop, parse_message,
}

-- What a message that passed the tests has.
record Passed (setup_signing : ℕ) (m : MavLink) (msg : Message) (v : Verdict) : Type 0 where
  loaded : m.key_loaded ≡ true
  signed : msg.signed ≡ true
  clean : m.got_bad_signature ≡ false
  kept : (msg.msgid == setup_signing) ≡ false
  marked : (Verdict.judged v).got_signed_packet ≡ true

on_bad_signature_no :
    (m : MavLink) (now : ℕ) (status : SigningStatus)
    → Verdict.passed (on_bad_signature m now status) ≡ false
unfolding on_bad_signature refuse
on_bad_signature_no m now status = ground arith

judge-Passed :
    (setup_signing : ℕ) (m : MavLink) (now : ℕ) (msg : Message) (status : SigningStatus)
    → Verdict.passed (judge setup_signing m now msg status) ≡ true
    → Passed setup_signing m msg (judge setup_signing m now msg status)
unfolding judge refuse on_good_signature
judge-Passed setup_signing m now msg status e = ground (arith, e, on_bad_signature_no m now status)

verdict-Passed :
    (setup_signing : ℕ) (m : MavLink) (now : ℕ) (msg : Message) (status : SigningStatus)
    (o : Option ℕ) (id : ℕ)
    → o ≡ some id
    → Verdict.passed (verdict setup_signing m now msg status o) ≡ true
    → Passed setup_signing m msg (verdict setup_signing m now msg status o)
unfolding verdict
verdict-Passed setup_signing m now msg status none id k a = cc
verdict-Passed setup_signing m now msg status (some i) id k a =
    judge-Passed setup_signing m now msg status a

module _ {Lib : Type 0} (parse : Lib → MavLink → ℕ → Lib × Heard) (setup_signing : ℕ)
    (Valid : List ℕ → Message → Type 0) where
  -- The message that was taken is signed with the link's key, and is not SETUP_SIGNING; the link
  -- counts as authenticated.
  pub record Trusted (secret : List ℕ) (r : Received Lib) : Type 0 where
    pub message : Message
    pub is_msg : Received.msg r ≡ some message
    pub valid : Valid secret message
    pub signed : message.signed ≡ true
    pub not_setup : (message.msgid == setup_signing) ≡ false
    pub authenticated : (Received.link r).got_signed_packet ≡ true

  -- The parser reports a message without a valid signature on a channel that has signing.
  abbrev pub Reports : Type 0
  Reports =
      (lib : Lib) (m : MavLink) (c : ℕ) (msg : Message)
      → m.wired ≡ true
      → Heard.message (parse lib m c).1 ≡ some msg
      → Heard.unsigned (parse lib m c).1 ≡ false
      → Valid m.secret msg

  module _ (reports : Reports) where
    on_message-Trusted :
        (lib lib' : Lib) (m : MavLink) (c now : ℕ) (rest : List ℕ) (msg : Message)
        (status : SigningStatus) (id : ℕ)
        → m.key_id ≡ some id
        → (m.key_loaded ≡ true → m.wired ≡ true)
        → Heard.message (parse lib m c).1 ≡ some msg
        → let r =
            on_message parse setup_signing lib'
              (after_byte m (parse lib m c).1)
              now
              rest
              msg
              status in
          r.accepted ≡ true → Trusted m.secret r
    unfolding on_message after_byte verdict
    on_message-Trusted lib lib' m c now rest msg status id k w e a =
        let m' = after_byte m (parse lib m c).1 in
        let p = verdict-Passed setup_signing m' now msg status m.key_id id k a in
        record {
          message = msg;
          is_msg = refl;
          valid = reports lib m c msg (w p.loaded) e (ground (arith, p.clean, w p.loaded));
          signed = p.signed;
          not_setup = p.kept;
          authenticated = p.marked;
        }

    on_byte-Trusted :
        (lib lib' : Lib) (m : MavLink) (c now : ℕ) (rest : List ℕ) (status : SigningStatus) (id : ℕ)
        → m.key_id ≡ some id
        → (m.key_loaded ≡ true → m.wired ≡ true)
        → (o : Option Message) (later : Received Lib) → Heard.message (parse lib m c).1 ≡ o
        → (later.accepted ≡ true → Trusted m.secret later)
        → let r =
            on_byte parse setup_signing lib'
              (after_byte m (parse lib m c).1)
              now
              rest
              status
              o
              later in
          r.accepted ≡ true → Trusted m.secret r
    unfolding on_byte
    on_byte-Trusted lib lib' m c now rest status id k w none later e l a = l a
    on_byte-Trusted lib lib' m c now rest status id k w (some msg) later e l a =
        on_message-Trusted lib lib' m c now rest msg status id k w e a

    receive_loop-Trusted :
        (lib : Lib) (m : MavLink) (now : ℕ) (buf : List ℕ) (id : ℕ)
        → m.key_id ≡ some id
        → (m.key_loaded ≡ true → m.wired ≡ true)
        → Received.accepted (receive_loop parse setup_signing lib m now buf) ≡ true
        → Trusted m.secret (receive_loop parse setup_signing lib m now buf)
    unfolding receive_loop after_byte
    receive_loop-Trusted lib m now [] id k w a = cc
    receive_loop-Trusted lib m now (c ∷ rest) id k w a =
        let p = parse lib m c in
        let h : Heard = p.1 in
        let m' = after_byte m h in
        let later = receive_loop parse setup_signing p.0 m' now rest in
        on_byte-Trusted lib p.0 m c now rest h.status id k w h.message later refl
          (receive_loop-Trusted p.0 m' now rest id k w) a

    -- A link with a key id takes a message only if it is signed with the link's key, as the
    -- parser tells, and is not SETUP_SIGNING; the link then counts as authenticated. The link's
    -- channel has its signing whenever its key is loaded.
    pub parse_message-Trusted :
        (lib : Lib) (m : MavLink) (now : ℕ) (buf : List ℕ) (id : ℕ)
        → m.key_id ≡ some id
        → (m.key_loaded ≡ true → m.wired ≡ true)
        → Received.accepted (parse_message parse setup_signing lib m now buf) ≡ true
        → Trusted m.secret (parse_message parse setup_signing lib m now buf)
    unfolding parse_message
    parse_message-Trusted lib m now buf id k w a =
        receive_loop-Trusted lib (record m { got_bad_signature = false }) now buf id k w a
