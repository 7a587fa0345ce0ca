-- ===== src/Message/Getters/Casts.antt =====
-- The casts of `getSigMngTlvType` and `getSigMngTlv` of msg.cpp to MANAGEMENT_t, on a message whose TLVs
-- `parseSig` stored.
use libpmc.Base.{
  ℕ, zero, suc, ◌≡◌, ◌==◌, true, false, refl, ◌&&◌, Option, none, some, List, [], ◌∷◌, All, length,
  ltb, get_elem?, if_rule,
}
use libpmc.Wire.{ParseError}
use libpmc.Ids.{MngId}
use libpmc.Mng.{MngTlv}
use libpmc.Sig.{SigTlv, management}
use libpmc.Message.{Message, MsgParams, SigRecord}
use libpmc.Message.Parse.{returned}
use libpmc.Message.Signaling.{parse_sig}
use libpmc.Message.Signaling.Stores.{
  MayStore, is_management, HasTlv, has_tlv, parse_sig-MayStore, parse_sig-HasTlv,
}
use libpmc.Message.Getters.{
  Cast, no_tlv, bad_cast, null_tlv, cast, sig_at, sig_mng_part, type_or_null, tlv_or_null,
  management_of, is_signaling, get_sig_mng_tlv, get_sig_mng_tlv_type,
}

-- A TLV that a getter finds, if any, may be stored.
abbrev Found : MsgParams → Option SigRecord → Type 0
Found p none = Unit {0}
Found p (some x) = MayStore p x

All-get_elem? :
    (p : MsgParams) (l : List SigRecord) (i : ℕ) → All (MayStore p) l → Found p (get_elem? l i)
All-get_elem? p [] i h = tt
All-get_elem? p (y ∷ l) zero h = h.0
All-get_elem? p (y ∷ l) (suc i) h = All-get_elem? p l i h.1

sig_at-Found :
    (p : MsgParams) (m : Message) (i : ℕ) → All (MayStore p) m.sig_tlvs → Found p (sig_at i m)
unfolding sig_at
sig_at-Found p m i h =
    if_rule (Found p) (is_signaling m && ltb i (length m.sig_tlvs))
      (λ e. All-get_elem? p m.sig_tlvs i h) (λ e. tt)

-- Not a cast to the wrong structure.
abbrev pub IsRight {ℓ} : {A : Type ℓ} → Cast A → Type 0
IsRight bad_cast = ⊥
IsRight other = Unit {0}

management-IsRight : (tlv : Option SigTlv) → is_management tlv ≡ true → IsRight (management_of tlv)
unfolding management_of
management-IsRight none h = tt
management-IsRight (some (management id d)) h = tt
management-IsRight (some other) h = cc

part-IsRight : (p : MsgParams) (x : Option SigRecord) → Found p x → IsRight (sig_mng_part x)
unfolding sig_mng_part
part-IsRight p none h = tt
part-IsRight p (some (t, tlv)) h =
    if_rule IsRight (t == 1) (λ one. management-IsRight tlv (h.0 one)) (λ e. tt)

type-IsRight : (x : Cast (MngId × MngTlv)) → IsRight x → IsRight (type_or_null x)
unfolding type_or_null
type-IsRight no_tlv h = tt
type-IsRight bad_cast h = absurd h
type-IsRight null_tlv h = tt
type-IsRight (cast y) h = tt

tlv-IsRight : (x : Cast (MngId × MngTlv)) → IsRight x → IsRight (tlv_or_null x)
unfolding tlv_or_null
tlv-IsRight no_tlv h = tt
tlv-IsRight bad_cast h = absurd h
tlv-IsRight null_tlv h = tt
tlv-IsRight (cast y) h = tt

-- Whatever the message, its parameters and the octets that `parseSig` returns on, all read or an error,
-- and wherever the vector of TLVs grows: every TLV stored has a type that the filter of the parameters
-- lets through, one of type MANAGEMENT has the structure of a management TLV or has lost its structure
-- to the growth, and at every position getSigMngTlvType and getSigMngTlv cast no TLV to a structure that
-- is not its own; they may read through a null pointer where the structure is lost.
pub parse_sig-casts :
    (m : Message) (octets : List ℕ) (e : Option ParseError) (n : Message)
    → parse_sig m octets ≡ returned e n
    → All (MayStore m.prms) n.sig_tlvs
      × ((i : ℕ) → IsRight (get_sig_mng_tlv_type i n) × IsRight (get_sig_mng_tlv i n))
unfolding get_sig_mng_tlv_type get_sig_mng_tlv
parse_sig-casts m octets e n r =
    let stored = parse_sig-MayStore m octets e n r in
    let right : (i : ℕ) → IsRight (sig_mng_part (sig_at i n)) =
      λ i. part-IsRight m.prms (sig_at i n) (sig_at-Found m.prms n i stored) in
    (
      stored,
      λ i. (
        type-IsRight (sig_mng_part (sig_at i n)) (right i),
        tlv-IsRight (sig_mng_part (sig_at i n)) (right i),
      ),
    )

-- A TLV that a getter finds, if any, has its structure.
abbrev FoundTlv : Option SigRecord → Type 0
FoundTlv none = Unit {0}
FoundTlv (some x) = HasTlv x

All-found : (l : List SigRecord) (i : ℕ) → All HasTlv l → FoundTlv (get_elem? l i)
All-found [] i h = tt
All-found (y ∷ l) zero h = h.0
All-found (y ∷ l) (suc i) h = All-found l i h.1

sig_at-FoundTlv : (m : Message) (i : ℕ) → All HasTlv m.sig_tlvs → FoundTlv (sig_at i m)
unfolding sig_at
sig_at-FoundTlv m i h =
    if_rule FoundTlv (is_signaling m && ltb i (length m.sig_tlvs)) (λ e. All-found m.sig_tlvs i h)
      (λ e. tt)

-- The getter returns: no cast to the wrong structure, and no read through a null pointer.
abbrev pub Reads {ℓ} : {A : Type ℓ} → Cast A → Type 0
Reads bad_cast = ⊥
Reads null_tlv = ⊥
Reads other = Unit {0}

management-Reads :
    (tlv : Option SigTlv)
    → is_management tlv ≡ true
    → has_tlv (1, tlv) ≡ true
    → Reads (management_of tlv)
unfolding management_of
management-Reads none h k = cc
management-Reads (some (management id d)) h k = tt
management-Reads (some other) h k = cc

part-Reads :
    (p : MsgParams) (x : Option SigRecord) → Found p x → FoundTlv x → Reads (sig_mng_part x)
unfolding sig_mng_part
part-Reads p none h k = tt
part-Reads p (some (t, none)) h k = cc
part-Reads p (some (t, some tlv)) h k =
    if_rule Reads (t == 1) (λ one. management-Reads (some tlv) (h.0 one) refl) (λ e. tt)

type-Reads : (x : Cast (MngId × MngTlv)) → Reads x → Reads (type_or_null x)
unfolding type_or_null
type-Reads no_tlv h = tt
type-Reads bad_cast h = absurd h
type-Reads null_tlv h = absurd h
type-Reads (cast y) h = tt

tlv-Reads : (x : Cast (MngId × MngTlv)) → Reads x → Reads (tlv_or_null x)
unfolding tlv_or_null
tlv-Reads no_tlv h = tt
tlv-Reads bad_cast h = absurd h
tlv-Reads null_tlv h = absurd h
tlv-Reads (cast y) h = tt

-- When the vector of TLVs never moves records that it holds, as one with room for all of them, then whatever the
-- message, its parameters and the octets that `parseSig` returns on, every TLV stored has its structure,
-- and at every position getSigMngTlvType and getSigMngTlv return, with no cast to a structure that is not
-- the TLV's own and no read through a null pointer.
pub parse_sig-Reads :
    (m : Message) (octets : List ℕ) (e : Option ParseError) (n : Message)
    → parse_sig m octets ≡ returned e n
    → ((k : ℕ) → m.sig_moves (suc k) ≡ false)
    → All HasTlv n.sig_tlvs
      × ((i : ℕ) → Reads (get_sig_mng_tlv_type i n) × Reads (get_sig_mng_tlv i n))
unfolding get_sig_mng_tlv_type get_sig_mng_tlv
parse_sig-Reads m octets e n r never =
    let kept = parse_sig-HasTlv m octets e n r never in
    let stored = parse_sig-MayStore m octets e n r in
    let reads : (i : ℕ) → Reads (sig_mng_part (sig_at i n)) = λ i.
      part-Reads m.prms (sig_at i n) (sig_at-Found m.prms n i stored) (sig_at-FoundTlv n i kept) in
    (
      kept,
      λ i. (
        type-Reads (sig_mng_part (sig_at i n)) (reads i),
        tlv-Reads (sig_mng_part (sig_at i n)) (reads i),
      ),
    )
