-- ===== src/Message/Getters.antt =====
-- The getters on the TLVs of a signaling message, and useConfig: msg.cpp.
pub mod Casts
use libpmc.Base.{
  ℕ, zero, suc, ◌≤◌, ◌<◌, ◌≡◌, ◌↔◌, some_inj, refl, sym, ap, ◌∙◌, subst, Bool, true, false, ◌&&◌,
  List, [], ◌∷◌, Option, none, some, ◌==◌, ltb, length, get_elem?, if◌then◌else◌, if_rule, if_no,
  if_yes, arith, Bool-cases, inl, inr, leb→le, le→not_ltb, lt→ltb, ◌≢◌,
}
use libpmc.Ids.{MngId, null_ptp_management}
use libpmc.Mng.{MngTlv}
use libpmc.Sig.{SigTlv, management}
use libpmc.Config.{done}
use libpmc.Config.File.{ConfigFile, get, read_loop, new_config, transport_specific, domain_number}
use libpmc.Config.Limits.{get-InLimits}
use libpmc.Message.{Message, SigRecord, copied}

-- m_type == Signaling
abbrev pub is_signaling : Message → Bool
is_signaling m = m.type == 0xc

-- The calls of a callback until one returns true; a callback's result for each TLV is an argument. The
-- loop's variable is a copy of the record, which has no structure.
unfoldable pub any_tlv : (ℕ → Option SigTlv → Bool) → List SigRecord → Bool
unfolding copied
any_tlv callback [] = false
any_tlv callback (x ∷ rest) =
    let tlv = copied x in if callback tlv.0 tlv.1 then true else any_tlv callback rest

unfoldable pub travers_sig_tlvs : (Message → ℕ → Option SigTlv → Bool) → Message → Bool
unfolding any_tlv
travers_sig_tlvs callback m = if is_signaling m then any_tlv (callback m) m.sig_tlvs else false

unfoldable pub get_sig_tlvs_count : Message → ℕ
get_sig_tlvs_count m = if is_signaling m then length m.sig_tlvs else 0

-- The TLV at a position, where the source's guard lets it be read.
unfoldable pub sig_at : ℕ → Message → Option SigRecord
sig_at position m =
    if is_signaling m && ltb position (length m.sig_tlvs)
    then get_elem? m.sig_tlvs position
    else none

unfoldable pub tlv_of : Option SigRecord → Option SigTlv
tlv_of none = none
tlv_of (some (t, tlv)) = tlv

unfoldable pub get_sig_tlv : ℕ → Message → Option SigTlv
unfolding sig_at tlv_of
get_sig_tlv position m = tlv_of (sig_at position m)

unfoldable pub type_of : Option SigRecord → ℕ
type_of none = 0
type_of (some (t, tlv)) = t

unfoldable pub get_sig_tlv_type : ℕ → Message → ℕ
unfolding sig_at type_of
get_sig_tlv_type position m = type_of (sig_at position m)

-- The cast to MANAGEMENT_t of a TLV whose type is MANAGEMENT: right for a management TLV, outside of the
-- language's rules for any other, and a null pointer, which the getters then read through, for a record
-- that lost its structure.
pub data Cast {ℓ} (A : Type ℓ) : Type ℓ where
  no_tlv : Cast A
  bad_cast : Cast A
  null_tlv : Cast A
  cast : A → Cast A

management_of : Option SigTlv → Cast (MngId × MngTlv)
management_of none = null_tlv
management_of (some (management id d)) = cast (id, d)
management_of (some other) = bad_cast

sig_mng_part : Option SigRecord → Cast (MngId × MngTlv)
unfolding management_of
sig_mng_part none = no_tlv
sig_mng_part (some (t, tlv)) = if t == 1 then management_of tlv else no_tlv

type_or_null : Cast (MngId × MngTlv) → Cast MngId
type_or_null no_tlv = cast null_ptp_management
type_or_null bad_cast = bad_cast
type_or_null null_tlv = null_tlv
type_or_null (cast p) = cast p.0

tlv_or_null : Cast (MngId × MngTlv) → Cast (Option MngTlv)
tlv_or_null no_tlv = cast none
tlv_or_null bad_cast = bad_cast
tlv_or_null null_tlv = null_tlv
tlv_or_null (cast p) = cast (some p.1)

unfoldable pub get_sig_mng_tlv_type : ℕ → Message → Cast MngId
unfolding type_or_null sig_mng_part sig_at
get_sig_mng_tlv_type position m = type_or_null (sig_mng_part (sig_at position m))

unfoldable pub get_sig_mng_tlv : ℕ → Message → Cast (Option MngTlv)
unfolding tlv_or_null sig_mng_part sig_at
get_sig_mng_tlv position m = tlv_or_null (sig_mng_part (sig_at position m))

unfoldable pub configured : Message → Option ℕ → Option ℕ → Option (Bool × Message)
configured m none d = none
configured m (some t) d = if ltb 0xf t then some (false, m) else elim d [
  | none ↦ none
  | some n ↦
      some (true, record m { prms = record m.prms { transport_specific = t; domain_number = n } })
]

-- useConfig; none when it reads an entry of the configuration that was never written. The domain number
-- is asked for with no section.
unfoldable pub use_config : ConfigFile → List ℕ → Message → Option (Bool × Message)
unfolding configured
use_config cfg section m = configured m (transport_specific section cfg) (domain_number [] cfg)

get_elem?-lt : {A : Type 0} (l : List A) (i : ℕ) (a : A) → get_elem? l i ≡ some a → i < length l
get_elem?-lt [] i a e = cc
get_elem?-lt (x ∷ l) zero a e = omega arith
get_elem?-lt (x ∷ l) (suc i) a e = omega (arith, get_elem?-lt l i a e)

-- A position at which the callback returns true without a structure.
abbrev Hit : (ℕ → Option SigTlv → Bool) → List SigRecord → Type 0
Hit callback l = (i : ℕ) × (x : SigRecord) × (get_elem? l i ≡ some x) × (callback x.0 none ≡ true)

any_tlv-Hit :
    (callback : ℕ → Option SigTlv → Bool) (l : List SigRecord)
    → any_tlv callback l ≡ true
    → Hit callback l
unfolding any_tlv copied
any_tlv-Hit callback [] e = cc
any_tlv-Hit callback ((t, tlv) ∷ l) e = elim (Bool-cases (callback t none)) [
  | inl hit ↦ (zero, (t, tlv), refl, hit)
  | inr miss ↦ let (i, x, at, hit) = any_tlv-Hit callback l (ground arith) in (suc i, x, at, hit)
]

Hit-any_tlv :
    (callback : ℕ → Option SigTlv → Bool) (l : List SigRecord) (i : ℕ) (x : SigRecord)
    → get_elem? l i ≡ some x
    → callback x.0 none ≡ true
    → any_tlv callback l ≡ true
unfolding any_tlv copied
Hit-any_tlv callback [] i x at hit = cc
Hit-any_tlv callback ((t, tlv) ∷ l) zero x at hit =
    let this : callback t none ≡ true = rw (ap (λ p. p.0) (some_inj at)) hit in
    if_yes (callback t none) _ _ this
Hit-any_tlv callback ((t, tlv) ∷ l) (suc i) x at hit =
    if_rule (λ b. b ≡ true) (callback t none) (λ e. refl) (λ e. Hit-any_tlv callback l i x at hit)

true≢false : ◌≢◌ {A = Bool} true false
true≢false e = cc

sig_at-get_elem? :
    (i : ℕ) (m : Message)
    → is_signaling m ≡ true
    → i < length m.sig_tlvs
    → sig_at i m ≡ get_elem? m.sig_tlvs i
unfolding sig_at
sig_at-get_elem? i m on inside =
    if_yes (is_signaling m && ltb i (length m.sig_tlvs)) _ _
      (ap (λ b. b && ltb i (length m.sig_tlvs)) on ∙ lt→ltb i (length m.sig_tlvs) inside)

-- Below the length there is an element.
element : (l : List SigRecord) (i : ℕ) → i < length l → (x : SigRecord) × (get_elem? l i ≡ some x)
element [] i h = absurd (omega arith)
element (x ∷ l) zero h = (x, refl)
element (x ∷ l) (suc i) h = element l i (omega arith)

type_at :
    (m : Message) (i : ℕ) (x : SigRecord)
    → is_signaling m ≡ true
    → get_elem? m.sig_tlvs i ≡ some x
    → get_sig_tlv_type i m ≡ x.0
unfolding get_sig_tlv_type type_of
type_at m i x on at = ap type_of (sig_at-get_elem? i m on (get_elem?-lt m.sig_tlvs i x at) ∙ at)

-- traversSigTlvs returns true exactly when the message is a signaling message and its callback returns
-- true for some position below getSigTlvsCount, given the type that getSigTlvType returns for that
-- position and, whatever getSigTlv returns for it, a null pointer in place of the TLV.
pub travers_sig_tlvs_lem :
    (callback : Message → ℕ → Option SigTlv → Bool) (m : Message)
    → (travers_sig_tlvs callback m ≡ true) ↔ (
        (is_signaling m ≡ true)
        × ((i : ℕ) × (i < get_sig_tlvs_count m) × (callback m (get_sig_tlv_type i m) none ≡ true)))
unfolding travers_sig_tlvs get_sig_tlvs_count
travers_sig_tlvs_lem callback m = (
  λ e. elim (Bool-cases (is_signaling m)) [
    | inr other ↦ absurd (true≢false (sym e ∙ if_no (is_signaling m) _ _ other))
    | inl on ↦
        let (i, x, at, hit) =
          any_tlv-Hit (callback m) m.sig_tlvs (sym (if_yes (is_signaling m) _ _ on) ∙ e) in
        (
          on,
          (
            i,
            subst (λ n. i < n) (sym (if_yes (is_signaling m) _ _ on))
                (get_elem?-lt m.sig_tlvs i x at),
            subst (λ k. callback m k none ≡ true) (sym (type_at m i x on at)) hit,
          ),
        )
  ],
  λ h.
      let (on, (i, below, hit)) = h in
      let inside : i < length m.sig_tlvs =
        subst (λ n. i < n) (if_yes (is_signaling m) _ _ on) below in
      let (x, at) = element m.sig_tlvs i inside in
      if_yes (is_signaling m) _ _ on
      ∙ Hit-any_tlv (callback m) m.sig_tlvs i x at
          (subst (λ k. callback m k none ≡ true) (type_at m i x on at) hit),
)

-- After the loop of read_cfg over any file, run on the configuration that the constructor makes, when
-- the loop ends without a scan beyond the end of a line: useConfig with any section name sets the
-- message's transportSpecific to that of the section, which is at most 15, and, unlike its comment in
-- msg.h, its domain number to that of no section, which is at most 239, changes nothing else and returns
-- true.
pub use_config_lem :
    (file : List ℕ) (c : ConfigFile) (ok : Bool)
    → read_loop file new_config ≡ done c ok
    → (section : List ℕ) (m : Message)
    → (t : ℕ) × (d : ℕ) × (get 0 section c ≡ some t)
      × (t ≤ 15)
      × (get 1 [] c ≡ some d)
      × (d ≤ 239)
      × (use_config c section m
          ≡ some (
            true,
            record m { prms = record m.prms { transport_specific = t; domain_number = d } },
          ))
unfolding use_config transport_specific domain_number
use_config_lem file c ok e section m =
    let (t, at_t, in_t) = get-InLimits file c ok e 0 section (omega arith) in
    let (d, at_d, in_d) = get-InLimits file c ok e 1 [] (omega arith) in
    let small : ltb 0xf t ≡ false = le→not_ltb 15 t (leb→le t 15 in_t) in
    (
      t,
      d,
      at_t,
      leb→le t 15 in_t,
      at_d,
      leb→le d 239 in_d,
      rw (at_t, at_d) (if_no (ltb 0xf t) _ _ small),
    )
