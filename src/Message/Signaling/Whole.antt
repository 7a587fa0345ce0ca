-- ===== src/Message/Signaling/Whole.antt =====
-- `Message::parse` of msg.cpp with `parseSig` in it, on any buffer.
use libpmc.Base.{ℕ, ◌≡◌, refl, subst, sym, List, Option, true, false}
use libpmc.Wire.{ParseError}
use libpmc.Message.{Message, MsgParams}
use libpmc.Message.Parse.{Parsed, returned, signaling, crashed, parse}
use libpmc.Message.Parse.Safety.{DatalessReply, parse-DatalessReply}
use libpmc.Message.Parse.Handed.{HasParams, parse-HasParams}
use libpmc.Message.Signaling.{is_in, with_sig, parse_message}
use libpmc.Message.Signaling.Returns.{IsFiltered, parse_sig-Returns}

never_both : {p : Parsed} {e : Option ParseError} {m : Message} → p ≡ returned e m → p ≡ crashed → ⊥
never_both h k = cc

same-IsFiltered : (m k : Message) → k.prms ≡ m.prms → IsFiltered m → IsFiltered k
same-IsFiltered m k e h = record {
  filters = subst (λ (p : MsgParams). p.filter_signaling ≡ true) (sym e) h.filters;
  no_management =
      subst (λ (p : MsgParams). is_in 1 p.allow_sig_tlvs ≡ false) (sym e) h.no_management;
  no_metrics =
      subst (λ (p : MsgParams). is_in 0x4001 p.allow_sig_tlvs ≡ false) (sym e) h.no_metrics;
}

with_sig-crash :
    (m : Message) (p : Parsed)
    → IsFiltered m
    → HasParams m.prms p
    → with_sig p ≡ crashed
    → p ≡ crashed
unfolding with_sig
with_sig-crash m (returned e k) h same c = absurd cc
with_sig-crash m (signaling k octets) h same c =
    absurd (never_both (parse_sig-Returns k octets (same-IsFiltered m k same h)).result c)
with_sig-crash m crashed h same c = refl

-- Whatever the octets of the buffer are, when the filter is on and lets neither MANAGEMENT nor
-- ENHANCED_ACCURACY_METRICS through, a parse, of a signaling message or a management message, that uses
-- an unset pointer or leaves the buffer was given a management TLV with data for an id that has no data
-- field.
pub parse_message-DatalessReply :
    (m : Message) (buf : List ℕ)
    → IsFiltered m
    → parse_message m buf ≡ crashed
    → DatalessReply m buf
unfolding parse_message
parse_message-DatalessReply m buf h c =
    parse-DatalessReply m buf (with_sig-crash m (parse m buf) h (parse-HasParams m buf) c)
