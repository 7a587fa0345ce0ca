-- ===== src/Message/Parse/Fields.antt =====
-- Where `Message::parse` of msg.cpp finds what `Message::build` wrote in the header.
use libpmc.Base.{
  ℕ, ◌+◌, ◌*◌, ◌/◌, ◌%◌, ◌^◌, ◌<◌, ◌≡◌, refl, List, [], ◌∷◌, ◌++◌, length, take, drop,
  if◌then◌else◌, arith,
}
use libpmc.Wire.{net, cpu}
use libpmc.Types.{PortIdentity}
use libpmc.Types.Codecs.{ValidPort, port_octets}
use libpmc.Ids.{Action, action_value}
use libpmc.Message.{Message}
use libpmc.Message.Build.{header_octets}
use libpmc.Message.Parse.{octet_at, word_at, port_at}

-- Eight octets, one by one.
record Eight (xs : List ℕ) : Type 0 where
  pub o1 : ℕ
  pub o2 : ℕ
  pub o3 : ℕ
  pub o4 : ℕ
  pub o5 : ℕ
  pub o6 : ℕ
  pub o7 : ℕ
  pub o8 : ℕ
  pub all : xs ≡ o1 ∷ o2 ∷ o3 ∷ o4 ∷ o5 ∷ o6 ∷ o7 ∷ o8 ∷ []

eight : (xs : List ℕ) → length xs ≡ 8 → Eight xs
eight (a ∷ b ∷ c ∷ d ∷ e ∷ f ∷ g ∷ h ∷ []) p = record {
  o1 = a;
  o2 = b;
  o3 = c;
  o4 = d;
  o5 = e;
  o6 = f;
  o7 = g;
  o8 = h;
  all = refl;
}
eight (a ∷ b ∷ c ∷ d ∷ e ∷ f ∷ g ∷ h ∷ i ∷ rest) p = absurd (omega arith)
eight [] p = absurd (omega arith)
eight (a ∷ []) p = absurd (omega arith)
eight (a ∷ b ∷ []) p = absurd (omega arith)
eight (a ∷ b ∷ c ∷ []) p = absurd (omega arith)
eight (a ∷ b ∷ c ∷ d ∷ []) p = absurd (omega arith)
eight (a ∷ b ∷ c ∷ d ∷ e ∷ []) p = absurd (omega arith)
eight (a ∷ b ∷ c ∷ d ∷ e ∷ f ∷ []) p = absurd (omega arith)
eight (a ∷ b ∷ c ∷ d ∷ e ∷ f ∷ g ∷ []) p = absurd (omega arith)

one : (b : ℕ) → cpu (b ∷ []) ≡ b
unfolding cpu
one b = omega arith

two : (v : ℕ) → v < 65536 → cpu (v / 256 ^ 1 % 256 ∷ v / 256 ^ 0 % 256 ∷ []) ≡ v
unfolding cpu
two v h = omega arith

port_ext :
    (p : PortIdentity) {clock : List ℕ} {number : ℕ}
    → clock ≡ p.clock_identity
    → number ≡ p.port_number
    → Path PortIdentity (record { clock_identity = clock; port_number = number }) p
port_ext p e f = rw (e, f)

-- A management message whose TLV has the type 1.
module _ (m : Message) (total sequence length_field value : ℕ) (field : List ℕ) where
  abbrev pub sent_octets : List ℕ
  sent_octets =
      header_octets m total sequence ++ (net 2 1 ++ (net 2 length_field ++ (net 2 value ++ field)))

  pub octet-type : octet_at sent_octets 0 ≡ (0xd + m.prms.transport_specific * 16) % 256
  unfolding header_octets
  octet-type = one _

  pub octet-version : octet_at sent_octets 1 ≡ 2
  unfolding header_octets
  octet-version = one _

  pub octet-domain : octet_at sent_octets 4 ≡ m.prms.domain_number
  unfolding header_octets net
  octet-domain = one _

  pub octet-minor : octet_at sent_octets 5 ≡ 0
  unfolding header_octets net
  octet-minor = one _

  pub octet-flags : octet_at sent_octets 6 ≡ (if m.prms.is_unicast then 4 else 0)
  unfolding header_octets net
  octet-flags = one _

  module _ (self : ValidPort m.prms.self_id) (target : ValidPort m.prms.target) where
    pub port-peer : port_at sent_octets 20 ≡ m.prms.self_id
    unfolding header_octets net
    port-peer =
        port_ext m.prms.self_id (rw (eight _ self.identity).all)
          (rw (eight _ self.identity).all (two _ self.number))

    pub port-target : port_at sent_octets 34 ≡ m.prms.target
    unfolding header_octets net
    port-target =
        port_ext m.prms.target (rw ((eight _ self.identity).all, (eight _ target.identity).all))
          (rw ((eight _ self.identity).all, (eight _ target.identity).all) (two _ target.number))

    pub word-sequence : sequence < 65536 → word_at sent_octets 30 ≡ sequence
    unfolding header_octets net
    word-sequence h = rw (eight _ self.identity).all (two sequence h)

    pub octet-control : octet_at sent_octets 32 ≡ 4
    unfolding header_octets net
    octet-control = rw (eight _ self.identity).all (one 4)

    pub octet-interval : octet_at sent_octets 33 ≡ 0x7f
    unfolding header_octets net
    octet-interval = rw (eight _ self.identity).all (one 0x7f)

    pub octet-action : octet_at sent_octets 46 ≡ action_value m.send_action
    unfolding header_octets net
    octet-action = rw ((eight _ self.identity).all, (eight _ target.identity).all) (one _)

    pub word-type : word_at sent_octets 48 ≡ 1
    unfolding header_octets net
    word-type =
        rw ((eight _ self.identity).all, (eight _ target.identity).all) (two 1 (omega arith))

    pub word-length : length_field < 65536 → word_at sent_octets 50 ≡ length_field
    unfolding header_octets net
    word-length h =
        rw ((eight _ self.identity).all, (eight _ target.identity).all) (two length_field h)

    pub word-value : value < 65536 → word_at sent_octets 52 ≡ value
    unfolding header_octets net
    word-value h = rw ((eight _ self.identity).all, (eight _ target.identity).all) (two value h)

    pub drop-field : drop 54 sent_octets ≡ field
    unfolding header_octets net
    drop-field = rw ((eight _ self.identity).all, (eight _ target.identity).all)

    pub length-sent_octets : length sent_octets ≡ 54 + length field
    unfolding header_octets net
    length-sent_octets =
        rw ((eight _ self.identity).all, (eight _ target.identity).all) (omega arith)

-- A message as the clock that takes it answers: from another port, to another port and with another
-- action, and all other octets as they are.
abbrev pub answered : PortIdentity → PortIdentity → ℕ → List ℕ → List ℕ
answered from to action octets =
    take 20 octets
    ++ (port_octets from
        ++ (take 4 (drop 30 octets)
            ++ (port_octets to ++ (take 2 (drop 44 octets) ++ action ∷ drop 47 octets))))

-- The message that a build would make of such an answer.
abbrev pub answer_to : Message → PortIdentity → PortIdentity → Action → Message
answer_to m from to reply = record m {
  send_action = reply;
  prms = record m.prms { self_id = from; target = to };
}

pub answered-sent_octets :
    (m : Message) (from to : PortIdentity) (reply : Action) (total sequence length_field value : ℕ)
    (field : List ℕ)
    → ValidPort m.prms.self_id
    → ValidPort m.prms.target
    → ValidPort from
    → ValidPort to
    → answered from to (action_value reply) (sent_octets m total sequence length_field value field)
      ≡ sent_octets (answer_to m from to reply) total sequence length_field value field
unfolding header_octets net
answered-sent_octets m from to reply total sequence length_field value field self target vf vt =
    rw
      (
        (eight _ self.identity).all,
        (eight _ target.identity).all,
        (eight _ vf.identity).all,
        (eight _ vt.identity).all,
      )
      refl
