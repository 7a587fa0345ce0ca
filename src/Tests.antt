-- ===== src/Tests.antt =====
-- The theorems on messages at concrete inputs: a SET, a RESPONSE and a GET of priority1 and of
-- traceability properties, and a reply for a port that is enabled.
pub mod Tlvs
pub mod Configs
pub mod Binaries
pub mod Sockets
pub mod Messages
use libpmc.Base.{
  ℕ, ◌+◌, ◌-◌, ◌≤◌, ◌≡◌, refl, Bool, true, false, Option, none, some, List, [], ◌∷◌, ◌++◌,
  replicate, length, drop, arith,
}
use libpmc.Wire.{ParseError, too_small, net, cpu, pure, ok}
use libpmc.Types.{PortIdentity, PtpText, fresh_text}
use libpmc.Types.Codecs.{ValidPort}
use libpmc.Ids.{
  MngId, Action, get, set, response, linuxptp, is_get, is_empty, mng_all_vals, find_tlv_id, blocked,
  check_reply_action, allowed_action, action_value,
}
use libpmc.Mng.{MngTlv, kind, call_tlv_data}
use libpmc.Mng.Codecs.{ValidTlv, tlv_octets, sent_tlv}
use libpmc.Message.{
  Message, MsgParams, set_action, set_action_data, mng_msg_base_size, get_msg_planed_len,
}
use libpmc.Message.Actions.{IsReady, set_action-IsReady, set_action_data-IsReady}
use libpmc.Message.Signaling.{is_in, parse_sig, parse_message}
use libpmc.Message.Signaling.Whole.{parse_message-DatalessReply}
use libpmc.Message.Signaling.Returns.{IsFiltered, Returns, parse_sig-Returns}
use libpmc.Message.Build.{Built, built, refused, build}
use libpmc.Message.Build.Layout.{
  message_octets, build-message_octets, build-too_small, field_octets,
}
use libpmc.Message.Build.Planned.{build-planned, build-below_planned}
use libpmc.Message.Build.Get.{get_octets, build-get}
use libpmc.Message.Parse.{Parsed, returned, crashed, parse, word_at}
use libpmc.Message.Parse.Safety.{DatalessReply, parse-DatalessReply}
use libpmc.Message.Parse.Fields.{answered, answer_to}
use libpmc.Message.Parse.Reply.{parse-build, after_reply}

abbrev a_port : PortIdentity
a_port = record { clock_identity = replicate 8 7; port_number = 1 }

abbrev sample : Action → MngId → Option MngTlv → Message
sample action id d = record {
  send_action = action;
  msg_len = 0;
  data_send = d;
  sequence = 0;
  is_unicast = true;
  reply_action = 2;
  sdo_id = 0;
  type = 0;
  mng_type = 0;
  domain_number = 0;
  version_ptp = 0;
  minor_version_ptp = 0;
  data_get = none;
  sig_tlvs = [];
  sig_moves = λ n. true;
  tlv_id = id;
  prms = record {
    transport_specific = 0;
    domain_number = 24;
    boundary_hops = 1;
    is_unicast = true;
    implement_specific = linuxptp;
    target = a_port;
    self_id = a_port;
    use_zero_get = false;
    rcv_signaling = false;
    filter_signaling = true;
    allow_sig_tlvs = [];
  };
  peer = a_port;
  target = a_port;
  error_id = 0;
  error_display = fresh_text;
}

abbrev priority : MngTlv
priority = MngTlv.priority1 128

abbrev setter : Message
setter = sample set MngId.priority1 (some priority)

priority-ValidTlv : ValidTlv priority
priority-ValidTlv = omega arith

a_port-ValidPort : ValidPort a_port
a_port-ValidPort = record { identity = refl; number = omega arith }

abbrev a_buffer : List ℕ
a_buffer = replicate 56 0

build-message_octets_example :
    build setter (some a_buffer) 5
    ≡ built (message_octets setter priority a_buffer 5) (record setter { msg_len = 56 })
unfolding is_get kind net
build-message_octets_example =
    build-message_octets setter priority a_buffer 5 refl refl refl priority-ValidTlv (omega arith)

build-too_small_example : build setter (some (replicate 55 0)) 5 ≡ refused too_small
unfolding is_get kind net
build-too_small_example =
    build-too_small setter priority (replicate 55 0) 5 refl refl refl priority-ValidTlv
      (omega arith)

planned_56 : get_msg_planed_len setter ≡ some 56
unfolding get_msg_planed_len is_get mng_all_vals
planned_56 = refl

build-planned_example :
    (out : List ℕ) × (k : Message) × (build setter (some a_buffer) 5 ≡ built out k)
    × (k.msg_len ≡ 56)
unfolding is_get kind allowed_action mng_all_vals
build-planned_example =
    build-planned setter priority refl refl refl priority-ValidTlv linuxptp a_buffer 5 56 refl
      planned_56 (omega arith)

build-below_planned_example : build setter (some (replicate 55 0)) 5 ≡ refused too_small
unfolding is_get kind allowed_action mng_all_vals
build-below_planned_example =
    build-below_planned setter priority refl refl refl priority-ValidTlv linuxptp (replicate 55 0) 5
      56 refl planned_56 (omega arith)

abbrev getter : Message
getter = sample get MngId.priority1 none

planned_get : get_msg_planed_len getter ≡ some 56
unfolding get_msg_planed_len is_get mng_all_vals
planned_get = refl

build-get_example :
    build getter (some a_buffer) 6
    ≡ built (get_octets getter a_buffer 2 6) (record getter { msg_len = 56 })
unfolding is_get
build-get_example = build-get getter a_buffer refl 56 6 planned_get (omega arith)

set_built :
    build setter (some a_buffer) 5
    ≡ built (message_octets setter priority a_buffer 5) (record setter { msg_len = 56 })
unfolding is_get kind net
set_built =
    build-message_octets setter priority a_buffer 5 refl refl refl priority-ValidTlv (omega arith)

-- The SET is answered by a RESPONSE.
parse-build_example :
    parse getter
      (answered a_port a_port (action_value response) (message_octets setter priority a_buffer 5))
    ≡ returned none (after_reply getter (answer_to setter a_port a_port response) priority 5)
unfolding is_get kind blocked mng_all_vals check_reply_action net
parse-build_example =
    parse-build setter getter priority a_port a_port response a_buffer
      (message_octets setter priority a_buffer 5) 5 (record setter { msg_len = 56 }) refl refl refl
      priority-ValidTlv a_port-ValidPort a_port-ValidPort a_port-ValidPort a_port-ValidPort
      (omega arith) (omega arith) (omega arith) (omega arith) refl refl set_built

-- An ACKNOWLEDGE of ENABLE_PORT with two octets of data.
abbrev enabled : List ℕ
enabled =
    0xd
    ∷ 2
    ∷ 0
    ∷ 56
    ∷ (replicate 28 0
        ++ (4 ∷ 0x7f ∷ (replicate 12 0 ++ (4 ∷ 0 ∷ 0 ∷ 1 ∷ 0 ∷ 4 ∷ 0x20 ∷ 0x0d ∷ 0 ∷ 0 ∷ []))))

enabled_crash : parse getter enabled ≡ crashed
unfolding parse cpu find_tlv_id check_reply_action mng_all_vals call_tlv_data pure
enabled_crash = refl

parse-DatalessReply_example : DatalessReply getter enabled
parse-DatalessReply_example = parse-DatalessReply getter enabled enabled_crash

getter-IsReady : IsReady getter
unfolding allowed_action mng_all_vals is_get is_empty
getter-IsReady = record { is_allowed = refl; data_sent = refl }

set_action-IsReady_example : IsReady (set_action Action.command MngId.enable_port getter).1
set_action-IsReady_example =
    set_action-IsReady Action.command MngId.enable_port getter getter-IsReady

set_action_data-IsReady_example : IsReady (set_action_data set MngId.priority1 priority getter).1
set_action_data-IsReady_example =
    set_action_data-IsReady set MngId.priority1 priority getter getter-IsReady

-- A message that lets L1_SYNC through, and such a TLV.
abbrev syncer : Message
syncer = record getter { prms = record getter.prms { allow_sig_tlvs = 0x8001 ∷ [] } }

syncer-IsFiltered : IsFiltered syncer
unfolding is_in
syncer-IsFiltered = record { filters = refl; no_management = refl; no_metrics = refl }

parse_sig-Returns_example : Returns (parse_sig syncer (0x80 ∷ 0x01 ∷ 0 ∷ 2 ∷ 0x0f ∷ 0x07 ∷ []))
parse_sig-Returns_example =
    parse_sig-Returns syncer (0x80 ∷ 0x01 ∷ 0 ∷ 2 ∷ 0x0f ∷ 0x07 ∷ []) syncer-IsFiltered

enabled_crash_whole : parse_message syncer enabled ≡ crashed
unfolding parse_message parse cpu find_tlv_id check_reply_action mng_all_vals call_tlv_data pure
enabled_crash_whole = refl

parse_message-DatalessReply_example : DatalessReply syncer enabled
parse_message-DatalessReply_example =
    parse_message-DatalessReply syncer enabled syncer-IsFiltered enabled_crash_whole
