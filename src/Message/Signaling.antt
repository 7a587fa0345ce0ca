-- ===== src/Message/Signaling.antt =====
-- `Message::parseSig` of msg.cpp: the loop over the TLVs of a signaling message.
pub mod Returns
pub mod Whole
pub mod Stores
use libpmc.Base.{
  ℕ, zero, suc, ◌+◌, ◌-◌, ◌%◌, ◌≤◌, ◌<◌, ◌≡◌, refl, subst, ap, ◌∙◌, sym, Bool, true, false, not,
  ◌&&◌, ◌||◌, Option, none, some, List, [], ◌∷◌, ◌++◌, length, take, drop, ltb, ◌==◌, if◌then◌else◌,
  Bool-cases, inl, inr, not_ltb→le, le→not_ltb, ==_iff, length-drop, arith,
}
use libpmc.Wire.{Cursor, Outcome, ok, fail, fault, ParseError, sig, too_small, cpu}
use libpmc.Wire.Safety.{After, Safe, Moved}
use libpmc.Ids.{MngId, find_tlv_id, is_linuxptp}
use libpmc.Mng.{MngTlv, call_tlv_data}
use libpmc.Sig.{SigTlv, management, sig_tlv}
use libpmc.Sig.Safety.{Safe-sig_tlv}
use libpmc.Message.{Message, SigRecord, copied}
use libpmc.Message.Parse.{Parsed, returned, signaling, crashed, parse, word_at}

-- allowSigTlvs.count(tlvType) != 0
unfoldable pub is_in : ℕ → List ℕ → Bool
is_in t [] = false
is_in t (x ∷ xs) = t == x || is_in t xs

-- The cursor on a TLV's octets, in a buffer that goes on behind them.
abbrev pub sig_cursor : List ℕ → ℕ → Cursor
sig_cursor octets n = record { build = false; passed = []; rest = octets; left = n; moved = 0 }

-- m_cur after the octets that the function of the TLV left.
abbrev past_left : Cursor → List ℕ
past_left c = drop c.left c.rest

copies : List SigRecord → List SigRecord
unfolding copied
copies [] = []
copies (x ∷ l) = copied x ∷ copies l

-- m_sigTlvs.insert at the end and the assignment of the structure. When the vector grows, it makes the
-- records it holds anew from the old ones; whether it grows, for the count of records that it holds, is
-- up to the vector: sig_moves.
keep : Message → ℕ → Option SigTlv → Message
unfolding copies
keep m t none = m
keep m t (some tlv) =
    let held = if m.sig_moves (length m.sig_tlvs) then copies m.sig_tlvs else m.sig_tlvs in
    record m { sig_tlvs = held ++ ((t, some tlv) ∷ []) }

-- The loop goes on at `again` with the octets at m_cur and the count left of all.
module _ (again : Message → List ℕ → ℕ → Parsed) (m : Message) (left : ℕ) where
  sig_done : ℕ → Outcome (Option SigTlv) → Parsed
  unfolding keep
  sig_done t (ok tlv c) = again (keep m t tlv) (past_left c) left
  sig_done t (fail e) = returned (some e) m
  sig_done t fault = crashed

  mng_done : MngId → Outcome (Option MngTlv) → Parsed
  unfolding keep
  mng_done id (ok none c) = crashed
  mng_done id (ok (some d) c) = again (keep m 1 (some (management id d))) (past_left c) left
  mng_done id (fail e) = returned (some e) m
  mng_done id fault = crashed

  -- A management TLV whose id was looked up; an unknown or empty one is ignored.
  mng_found : Option MngId → List ℕ → ℕ → Parsed
  unfolding mng_done
  mng_found none octets n = again m (drop n octets) left
  mng_found (some id) octets n =
      if n == 0
      then again m octets left
      else mng_done id (call_tlv_data id none (sig_cursor octets n))

  mng_part : List ℕ → ℕ → Parsed
  unfolding mng_found
  mng_part octets n =
      if ltb n 2
      then returned (some too_small) m
      else if ltb (length octets) 2
      then crashed
      else mng_found (find_tlv_id (word_at octets 0) m.prms.implement_specific) (drop 2 octets)
          (n - 2)

  -- A TLV of type `t` with the octets of its value.
  one_tlv : ℕ → List ℕ → ℕ → Parsed
  unfolding mng_part sig_done is_in
  one_tlv t octets n =
      if m.prms.filter_signaling && not (is_in t m.prms.allow_sig_tlvs)
      then again m (drop n octets) left
      else if t == 1
      then mng_part octets n
      else sig_done t (sig_tlv (is_linuxptp m.prms.implement_specific) t (sig_cursor octets n))

sig_step : (Message → List ℕ → ℕ → Parsed) → Message → List ℕ → ℕ → Parsed
unfolding one_tlv
sig_step again m octets left =
    if ltb left 4
    then returned (some sig) m
    else if ltb (length octets) 4
    then crashed
    else if ltb (left - 4) (word_at octets 2)
    then returned (some too_small) m
    else one_tlv again m (left - 4 - word_at octets 2) (word_at octets 0) (drop 4 octets)
        (word_at octets 2)

-- Out of fuel does not return; the fuel is more than the octets left.
sig_loop : ℕ → Message → List ℕ → ℕ → Parsed
unfolding sig_step
sig_loop zero m octets left = crashed
sig_loop (suc fuel) m octets left = sig_step (sig_loop fuel) m octets left

-- MNG_PARSE_ERROR_e Message::parseSig(), on the octets behind the header
unfoldable pub parse_sig : Message → List ℕ → Parsed
unfolding sig_loop
parse_sig m octets =
    sig_loop (suc (length octets)) (record m { sig_tlvs = [] }) octets (length octets)

-- What `parse` returns once a signaling message is handed to `parseSig`.
with_sig : Parsed → Parsed
with_sig (signaling m octets) = parse_sig m octets
with_sig (returned e m) = returned e m
with_sig crashed = crashed

-- `Message::parse` with the call of `parseSig` in it
unfoldable pub parse_message : Message → List ℕ → Parsed
unfolding with_sig
parse_message m buf = with_sig (parse m buf)
