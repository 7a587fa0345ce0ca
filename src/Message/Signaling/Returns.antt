-- ===== src/Message/Signaling/Returns.antt =====
-- `Message::parseSig` of msg.cpp returns, whatever the octets, when its filter keeps out the TLVs whose
-- parse is not safe.
use libpmc.Base.{
  ℕ, zero, suc, ◌+◌, ◌-◌, ◌≤◌, ◌<◌, ◌≡◌, refl, ap, Bool, true, false, not, ◌&&◌, Option, none, some,
  List, [], length, drop, ltb, ◌==◌, if◌then◌else◌, Bool-cases, inl, inr, not_ltb→le, ==_iff,
  length-drop, arith,
}
use libpmc.Wire.{Cursor, Outcome, ok, fail, fault, ParseError, sig, too_small}
use libpmc.Wire.Safety.{After, Safe}
use libpmc.Ids.{is_linuxptp}
use libpmc.Sig.{SigTlv, sig_tlv}
use libpmc.Sig.Safety.{Safe-sig_tlv}
use libpmc.Message.{Message}
use libpmc.Message.Parse.{Parsed, returned, word_at}
use libpmc.Message.Signaling.{
  is_in, keep, sig_done, one_tlv, sig_step, sig_loop, parse_sig, sig_cursor, past_left,
}

-- The filter is on, and lets neither MANAGEMENT nor ENHANCED_ACCURACY_METRICS through.
pub record IsFiltered (m : Message) : Type 0 where
  pub filters : m.prms.filter_signaling ≡ true
  pub no_management : is_in 1 m.prms.allow_sig_tlvs ≡ false
  pub no_metrics : is_in 0x4001 m.prms.allow_sig_tlvs ≡ false

-- A result of `parseSig`: all TLVs are read, or an error.
pub record Returns (p : Parsed) : Type 0 where
  pub error : ParseError
  pub after : Message
  pub result : p ≡ returned (some error) after

keep-IsFiltered :
    (m : Message) (t : ℕ) (tlv : Option SigTlv) → IsFiltered m → IsFiltered (keep m t tlv)
unfolding keep
keep-IsFiltered m t none h = h
keep-IsFiltered m t (some tlv) h = record {
  filters = h.filters;
  no_management = h.no_management;
  no_metrics = h.no_metrics;
}

-- What the loop does with fewer octets left.
abbrev Goes : (Message → List ℕ → ℕ → Parsed) → ℕ → Type 0
Goes again left =
    (m : Message) (octets : List ℕ)
    → IsFiltered m
    → left ≤ length octets
    → Returns (again m octets left)

Returns-then : (b : Bool) (p q : Parsed) → b ≡ true → Returns p → Returns (if b then p else q)
Returns-then b p q e r = rw e r

Returns-else : (b : Bool) (p q : Parsed) → b ≡ false → Returns q → Returns (if b then p else q)
Returns-else b p q e r = rw e r

past_room : (d : Cursor) (left : ℕ) → left + d.left ≤ length d.rest → left ≤ length (past_left d)
past_room d left h = omega (arith, length-drop d.left d.rest)

sig_done-Returns :
    (again : Message → List ℕ → ℕ → Parsed) (m : Message) (left t : ℕ) (c : Cursor)
    (o : Outcome (Option SigTlv))
    → Goes again left
    → IsFiltered m
    → left + c.left ≤ length c.rest
    → After c o
    → Returns (sig_done again m left t o)
unfolding sig_done
sig_done-Returns again m left t c (ok tlv d) go h room a =
    go (keep m t tlv) (past_left d) (keep-IsFiltered m t tlv h)
      (past_room d left (omega (arith, room, a.behind)))
sig_done-Returns again m left t c (fail e) go h room a = record {
  error = e;
  after = m;
  result = refl;
}
sig_done-Returns again m left t c fault go h room a = absurd a

other_type :
    (t x : ℕ) (allowed : List ℕ)
    → is_in t allowed ≡ true
    → is_in x allowed ≡ false
    → (t == x) ≡ false
other_type t x allowed h k = elim (Bool-cases (t == x)) [
  | inl same ↦ absurd (ground (arith, ap (λ y. is_in y allowed) ((==_iff t x).0 same)))
  | inr e ↦ e
]

module _ (again : Message → List ℕ → ℕ → Parsed) (m : Message) (left : ℕ) (go : Goes again left)
    (h : IsFiltered m) where
  -- A TLV that the filter lets through is neither of the two.
  one_tlv-Returns :
      (t : ℕ) (octets : List ℕ) (n : ℕ)
      → left + n ≤ length octets
      → Returns (one_tlv again m left t octets n)
  unfolding one_tlv
  one_tlv-Returns t octets n room = elim (Bool-cases (is_in t m.prms.allow_sig_tlvs)) [
    | inl allowed ↦
        let safe : Safe (sig_tlv (is_linuxptp m.prms.implement_specific) t) =
          Safe-sig_tlv _ t (other_type t 0x4001 m.prms.allow_sig_tlvs allowed h.no_metrics) in
        Returns-else (m.prms.filter_signaling && not (is_in t m.prms.allow_sig_tlvs)) _ _
          (rw (h.filters, allowed))
          (Returns-else (t == 1) _ _ (other_type t 1 m.prms.allow_sig_tlvs allowed h.no_management)
            (sig_done-Returns again m left t (sig_cursor octets n) _ go h room
              (safe.at (sig_cursor octets n) refl (omega (arith, room)))))
    | inr skipped ↦
        Returns-then (m.prms.filter_signaling && not (is_in t m.prms.allow_sig_tlvs)) _ _
          (rw (h.filters, skipped))
          (go m (drop n octets) h (omega (arith, room, length-drop n octets)))
  ]

too_few : (left n : ℕ) → ltb left 4 ≡ false → left ≤ n → ltb n 4 ≡ false
too_few left n h k = ground arith

sig_loop-Returns : (fuel left : ℕ) → left < fuel → Goes (sig_loop fuel) left
unfolding sig_loop sig_step
sig_loop-Returns zero left less m octets h room = absurd (omega arith)
sig_loop-Returns (suc fuel) left less m octets h room = elim (Bool-cases (ltb left 4)) [
  | inl done ↦ rw done (record { error = sig; after = m; result = refl })
  | inr more ↦ elim (Bool-cases (ltb (left - 4) (word_at octets 2))) [
    | inl short ↦
        rw (more, too_few left (length octets) more room, short)
          (record { error = too_small; after = m; result = refl })
    | inr fits ↦
        let n = word_at octets 2 in
        rw (more, too_few left (length octets) more room, fits)
          (one_tlv-Returns (sig_loop fuel) m (left - 4 - n)
            (sig_loop-Returns fuel (left - 4 - n) (omega (arith, less, not_ltb→le _ _ more))) h
            (word_at octets 0) (drop 4 octets) n
            (omega (arith, room, not_ltb→le _ _ fits, not_ltb→le _ _ more, length-drop 4 octets)))
  ]
]

-- With the filter on and neither MANAGEMENT nor ENHANCED_ACCURACY_METRICS among the allowed TLVs, a
-- parse of a signaling message ends with MNG_PARSE_ERROR_SIG or an error, whatever its octets are:
-- the loop ends, and nothing beyond the buffer is read.
pub parse_sig-Returns :
    (m : Message) (octets : List ℕ) → IsFiltered m → Returns (parse_sig m octets)
unfolding parse_sig
parse_sig-Returns m octets h =
    sig_loop-Returns (suc (length octets)) (length octets) (omega arith)
      (record m { sig_tlvs = [] }) octets
      (record { filters = h.filters; no_management = h.no_management; no_metrics = h.no_metrics })
      (omega arith)
