-- ===== src/Mav/Send/Gate.antt =====
-- What goes out on a link, and why nothing does.
use support_proxy.Base.{
  ℕ, ◌+◌, ◌<◌, ◌≡◌, ◌⊎◌, inl, inr, refl, sym, ap, ◌∙◌, Bool, true, false, not, ◌&&◌, List, ◌++◌,
  Option, none, some, arith, ltb, ◌==◌, is_none, length, replicate, if◌then◌else◌,
}
use support_proxy.Mav.{Message, MavLink}
use support_proxy.Mav.Signing.{update_signing_timestamp}
use support_proxy.Mav.Send.{
  FinalizeCall, MavlinkLibrary, Wire, Outcome, quiet, finalize_call, finalize_and_send,
  sign_and_send, send_on, send_message,
}

-- What mavlink_finalize_message_buffer is documented to do on a channel that writes MAVLink 2: the
-- addresses and the sequence number are those of the call, the zeros at the end of the payload are
-- cut off, a target it is given is kept, and the message is signed, with the key, just where the
-- channel's status has signing.
pub record IsFinalized (SignedWith : List ℕ → Message → Type 0) (c : FinalizeCall) (o : Message)
    : Type 0 where
  pub same_id : o.msgid ≡ (c.message).msgid
  pub addressed : (o.sysid ≡ c.sysid) × (o.compid ≡ c.compid)
  pub numbered : o.seq ≡ c.tx_seq
  pub trimmed :
      length (c.message).payload ≡ c.len
      → (k : ℕ) × (o.payload ++ replicate k 0 ≡ (c.message).payload)
  pub targeted : (t : ℕ) → c.target ≡ some t → o.target_sysid ≡ t
  pub plain : c.signing ≡ none → o.signed ≡ false
  pub signs :
      (key : List ℕ) (t : ℕ) → c.signing ≡ some (key, t) → (o.signed ≡ true) × SignedWith key o

not_zero : (n : ℕ) → (n == 0) ≡ false → 0 < n
not_zero n e = ground (arith, e)

when {ℓ} : {A : Type ℓ} (t : Bool) (a : A) → t ≡ true → (if t then some a else none) ≡ some a
when true a e = refl
when false a e = absurd (ground (arith, e))

unless {ℓ} : {A : Type ℓ} (t : Bool) (a : A) → t ≡ false → (if t then some a else none) ≡ none
unless true a e = absurd (ground (arith, e))
unless false a e = refl

taken_whole :
    (sent : Option ℕ) (n : ℕ) → elim sent [ none ↦ false | some k ↦ k == n ] ≡ true → sent ≡ some n
taken_whole none n e = absurd (ground (arith, e))
taken_whole (some k) n e = ap (λ (v : ℕ). some v) (ground (arith, e))

-- The part of a link that the MAVLink library signs with.
record SameSigning (m m' : MavLink) : Type 0 where
  same_wired : m'.wired ≡ m.wired
  same_secret : m'.secret ≡ m.secret

either_SameSigning :
    (t : Bool) (m : MavLink) (p q : MavLink × List ℕ)
    → SameSigning m p.0
    → SameSigning m q.0
    → SameSigning m (if t then p else q).0
either_SameSigning true m p q f g = f
either_SameSigning false m p q f g = g

update_signing_timestamp-SameSigning :
    (m : MavLink) (others : List ℕ) (now : ℕ)
    → SameSigning m (update_signing_timestamp m others now).0
unfolding update_signing_timestamp
update_signing_timestamp-SameSigning m others now =
    either_SameSigning (ltb now (m.last_signing_save + 10000)) m _ _
      (record { same_wired = refl; same_secret = refl })
      (record { same_wired = refl; same_secret = refl })

module _ (lib : MavlinkLibrary) (SignedWith : List ℕ → Message → Type 0) (m : MavLink)
    (msg : Message) (w : Wire) where
  -- `o` may go out for `msg`.
  pub record Released (o : Message) : Type 0 where
    pub same_id : o.msgid ≡ msg.msgid
    pub same_address : (o.sysid ≡ msg.sysid) × (o.compid ≡ msg.compid)
    pub same_seq : o.seq ≡ msg.seq
    pub same_payload : (k : ℕ) × (o.payload ++ replicate k 0 ≡ msg.payload)
    pub same_target : msg.target32 ≡ true → o.target_sysid ≡ msg.target_sysid
    pub signs_out : m.wired ≡ true → (o.signed ≡ true) × SignedWith m.secret o
    pub plain_out : m.wired ≡ false → o.signed ≡ false
    pub opened : is_none m.key_id ≡ false → m.got_signed_packet ≡ false → msg.msgid ≡ lib.heartbeat

  -- The bytes `buf` are handed to the socket, which has taken them all if the answer is true.
  pub record Handed (ok : Bool) (buf : List ℕ) : Type 0 where
    pub o : Message
    pub packed : buf ≡ lib.to_send_buffer o
    pub released : Released o
    pub taken : ok ≡ true → w.sent ≡ some (length buf)

  -- Why nothing is handed to the socket, and what is answered for it.
  pub data Kept : Bool → Type 0 where
    dead_socket : m.is_tcp ≡ true → w.dead ≡ true → Kept false
    congested : m.is_tcp ≡ true → w.writable < 400 → Kept true
    held_back :
        is_none m.key_id ≡ false
        → m.got_signed_packet ≡ false
        → ¬ (msg.msgid ≡ lib.heartbeat)
        → Kept true
    unknown : lib.min_len msg.msgid ≡ 0 → lib.max_len msg.msgid ≡ 0 → Kept false
    no_status : w.has_status ≡ false → Kept false
    library_refuses :
        (c : FinalizeCall)
        → (c.message).msgid ≡ msg.msgid
        → (c.message).payload ≡ msg.payload
        → (c.sysid ≡ msg.sysid) × (c.compid ≡ msg.compid) × (c.tx_seq ≡ msg.seq)
        → ((lib.finalize c).finalized_len ≡ 0)
          ⊎ (length (lib.to_send_buffer (lib.finalize c).message) ≡ 0)
        → Kept false

  abbrev pub SendsOut : Bool → Option (List ℕ) → Type 0
  SendsOut ok none = Kept ok
  SendsOut ok (some buf) = Handed ok buf

  abbrev pub Sends : Outcome → Type 0
  Sends r = SendsOut r.ok r.out

  either_Sends :
      (t : Bool) (x y : Outcome)
      → (t ≡ true → Sends x)
      → (t ≡ false → Sends y)
      → Sends (if t then x else y)
  either_Sends true x y k l = k refl
  either_Sends false x y k l = l refl

  finalized-Released :
      (m' : MavLink) (msg2 o : Message)
      → SameSigning m m'
      → msg2.msgid ≡ msg.msgid
      → msg2.payload ≡ msg.payload
      → (is_none m.key_id ≡ false → m.got_signed_packet ≡ false → msg.msgid ≡ lib.heartbeat)
      → IsFinalized SignedWith (finalize_call lib m' msg msg2) o
      → Released o
  unfolding finalize_call
  finalized-Released m' msg2 o s id payload gate f =
      let (k, zeros) = f.trimmed (ap (λ (l : List ℕ). length l) payload) in
      record {
        same_id = f.same_id ∙ id;
        same_address = f.addressed;
        same_seq = f.numbered;
        same_payload = (k, zeros ∙ payload);
        same_target = λ t. f.targeted msg.target_sysid (when msg.target32 _ t);
        signs_out = λ e.
            let (on, by) = f.signs m'.secret m'.timestamp (when m'.wired _ (s.same_wired ∙ e)) in
            (on, rw s.same_secret at by);
        plain_out = λ e. f.plain (unless m'.wired _ (s.same_wired ∙ e));
        opened = gate;
      }

  module _
      (laws : (c : FinalizeCall)
        → 0 < (lib.finalize c).finalized_len
        → IsFinalized SignedWith c (lib.finalize c).message) where
    finalize_and_send-Sends :
        (m' : MavLink) (others : List ℕ) (msg2 : Message)
        → SameSigning m m'
        → msg2.msgid ≡ msg.msgid
        → msg2.payload ≡ msg.payload
        → (is_none m.key_id ≡ false → m.got_signed_packet ≡ false → msg.msgid ≡ lib.heartbeat)
        → Sends (finalize_and_send lib m' others msg msg2 w)
    unfolding finalize_call finalize_and_send quiet
    finalize_and_send-Sends m' others msg2 s id payload gate =
        let c = finalize_call lib m' msg msg2 in
        let f = lib.finalize c in
        let buf = lib.to_send_buffer f.message in
        either_Sends (lib.min_len msg2.msgid == 0 && lib.max_len msg2.msgid == 0) _ _
          (λ e.
            unknown (sym (ap lib.min_len id) ∙ ground (arith, e))
              (sym (ap lib.max_len id) ∙ ground (arith, e)))
          (λ e.
            either_Sends (not w.has_status) _ _ (λ e. no_status (ground (arith, e)))
              (λ e.
                either_Sends (f.finalized_len == 0) _ _
                  (λ e. library_refuses c id payload (refl, refl, refl) (inl (ground (arith, e))))
                  (λ some_len.
                    either_Sends (length buf == 0) _ _
                      (λ e.
                        library_refuses c id payload (refl, refl, refl) (inr (ground (arith, e))))
                      (λ e. record {
                        o = f.message;
                        packed = refl;
                        released =
                            finalized-Released m' msg2 f.message s id payload gate
                              (laws c (not_zero f.finalized_len some_len));
                        taken = taken_whole w.sent (length buf);
                      }))))

    either_named :
        (t : Bool)
        → SameSigning m
            (if t then record m { last_sysid = msg.sysid; last_compid = msg.compid } else m)
    either_named true = record { same_wired = refl; same_secret = refl }
    either_named false = record { same_wired = refl; same_secret = refl }

    through : {m' m'' : MavLink} → SameSigning m m' → SameSigning m' m'' → SameSigning m m''
    through s t = record {
      same_wired = t.same_wired ∙ s.same_wired;
      same_secret = t.same_secret ∙ s.same_secret;
    }

    sign_and_send-Sends :
        (others : List ℕ) (now : ℕ)
        → is_none m.key_id ≡ false
        → Sends (sign_and_send lib m others now msg w)
    unfolding sign_and_send quiet
    sign_and_send-Sends others now k =
        let s = either_named (msg.msgid == lib.heartbeat) in
        let updated = through s (update_signing_timestamp-SameSigning _ others now) in
        either_Sends (not m.got_signed_packet && not (msg.msgid == lib.heartbeat)) _ _
          (λ e. held_back k (ground (arith, e)) (λ h. ground (arith, e, h)))
          (λ e.
            either_Sends m.key_loaded _ _
              (λ l. finalize_and_send-Sends _ _ _ updated refl refl (λ n u. ground (arith, e, u)))
              (λ l. finalize_and_send-Sends _ _ _ s refl refl (λ n u. ground (arith, e, u))))

    -- Where finalize works as documented, unless it refuses the message: what send_message hands to
    -- the socket is a message with the id, the sender, the sequence number, the payload and, if it
    -- has one, the wide target of the message that was given, its payload less zeros at its end. It
    -- is signed with the link's key if the channel is wired to it, and else it is not signed. A link
    -- with a key id lets only the heartbeat through until a signed packet has come. Nothing is handed
    -- over only for a dead or congested TCP socket, a message that is held back so, one of an unknown
    -- id, a channel without a status, or one that the library refuses; the answer is true for a
    -- congested socket and for a message held back, false for the others, and with bytes handed over
    -- true only if the socket has taken them all.
    pub send_message-Sends :
        (others : List ℕ) (now : ℕ) → Sends (send_message lib m others now msg w)
    unfolding send_message send_on quiet
    send_message-Sends others now =
        either_Sends (m.is_tcp && w.dead) _ _
          (λ e. dead_socket (ground (arith, e)) (ground (arith, e)))
          (λ e.
            either_Sends (m.is_tcp && ltb w.writable 400) _ _
              (λ c. congested (ground (arith, c)) (ground (arith, c)))
              (λ c.
                either_Sends (is_none m.key_id) _ _
                  (λ n.
                    finalize_and_send-Sends m others _
                      (record { same_wired = refl; same_secret = refl }) refl refl
                      (λ k. absurd (ground (arith, n, k))))
                  (λ n. sign_and_send-Sends others now n)))
