-- ===== src/Message/Signaling/Stores.antt =====
-- What `Message::parseSig` of msg.cpp stores: TLVs that the filter lets through, each with the structure
-- of its type, so the casts of the getters are right.
use libpmc.Base.{
  ℕ, zero, suc, ◌-◌, ◌≡◌, refl, some_inj, ap, subst, Bool, true, false, not, ◌&&◌, Option, none,
  some, List, [], ◌∷◌, ◌++◌, All, length, drop, ltb, ◌==◌, ==_iff, if_rule, if◌then◌else◌, ◌∙◌,
  arith,
}
use libpmc.Wire.{Outcome, ok, fail, fault, ParseError}
use libpmc.Ids.{MngId, find_tlv_id, is_linuxptp}
use libpmc.Mng.{MngTlv, call_tlv_data}
use libpmc.Sig.{SigTlv, management, sig_tlv}
use libpmc.Message.{Message, MsgParams, SigRecord, copied}
use libpmc.Message.Parse.{Parsed, returned, signaling, crashed, word_at}
use libpmc.Message.Signaling.{
  is_in, keep, copies, sig_done, mng_done, mng_found, mng_part, one_tlv, sig_step, sig_loop,
  parse_sig, sig_cursor, past_left,
}

-- The structure, if there still is one, is that of a management TLV.
abbrev pub is_management : Option SigTlv → Bool
is_management none = true
is_management (some (management id d)) = true
is_management (some other) = false

-- The filter of the parameters lets the type through.
abbrev pub passes : MsgParams → ℕ → Bool
passes p t = not (p.filter_signaling && not (is_in t p.allow_sig_tlvs))

-- A TLV that may be stored.
abbrev pub MayStore : MsgParams → SigRecord → Type 0
MayStore p (t, tlv) = ((t == 1) ≡ true → is_management tlv ≡ true) × (passes p t ≡ true)

-- The record has its structure.
abbrev pub has_tlv : SigRecord → Bool
has_tlv (t, none) = false
has_tlv (t, some tlv) = true

abbrev pub HasTlv : SigRecord → Type 0
HasTlv x = has_tlv x ≡ true

-- The parameters and the vector's ways stay; each record may be stored, and has its structure when the
-- vector never moves the records it holds.
record Holds (p : MsgParams) (g : ℕ → Bool) (m : Message) : Type 0 where
  params : m.prms ≡ p
  moves : m.sig_moves ≡ g
  stored : All (MayStore p) m.sig_tlvs
  kept : ((n : ℕ) → g (suc n) ≡ false) → All HasTlv m.sig_tlvs

abbrev Ends : MsgParams → (ℕ → Bool) → Parsed → Type 0
Ends p g (returned e m) = Holds p g m
Ends p g (signaling m octets) = Unit {0}
Ends p g crashed = Unit {0}

All-append :
    (P : SigRecord → Type 0) (l : List SigRecord) (x : SigRecord)
    → All P l
    → P x
    → All P (l ++ x ∷ [])
All-append P [] x h k = (k, tt)
All-append P (y ∷ l) x h k = (h.0, All-append P l x h.1 k)

copied-MayStore : (p : MsgParams) (x : SigRecord) → MayStore p x → MayStore p (copied x)
unfolding copied
copied-MayStore p (t, tlv) h = (λ e. refl, h.1)

All-copies : (p : MsgParams) (l : List SigRecord) → All (MayStore p) l → All (MayStore p) (copies l)
unfolding copies
All-copies p [] h = tt
All-copies p (x ∷ l) h = (copied-MayStore p x h.0, All-copies p l h.1)

-- An insert that moves no record, or finds none to move, keeps the structures.
stays :
    (moved : Bool) (l : List SigRecord)
    → ((k : ℕ) → length l ≡ suc k → moved ≡ false)
    → All HasTlv l
    → All HasTlv (if moved then copies l else l)
unfolding copies
stays false l still h = h
stays true [] still h = h
stays true (x ∷ l) still h = absurd (cc (still (length l) (omega arith)))

keep-Holds :
    (p : MsgParams) (g : ℕ → Bool) (m : Message) (t : ℕ) (tlv : Option SigTlv)
    → Holds p g m
    → ((s : SigTlv) → tlv ≡ some s → MayStore p (t, some s))
    → Holds p g (keep m t tlv)
unfolding keep
keep-Holds p g m t none h k = h
keep-Holds p g m t (some s) h k =
    let count = length m.sig_tlvs in
    record {
      params = h.params;
      moves = h.moves;
      stored =
          if_rule (λ l. All (MayStore p) (l ++ (t, some s) ∷ [])) (m.sig_moves count)
            {x = copies m.sig_tlvs} {y = m.sig_tlvs}
            (λ e.
              All-append (MayStore p) (copies m.sig_tlvs) (t, some s)
                (All-copies p m.sig_tlvs h.stored) (k s refl))
            (λ e. All-append (MayStore p) m.sig_tlvs (t, some s) h.stored (k s refl));
      kept = λ never.
          All-append HasTlv (if m.sig_moves count then copies m.sig_tlvs else m.sig_tlvs)
            (t, some s)
            (stays (m.sig_moves count) m.sig_tlvs
              (λ k e. ap m.sig_moves e ∙ ap (λ f. f (suc k)) h.moves ∙ never k) (h.kept never))
            refl;
    }

abbrev Goes : MsgParams → (ℕ → Bool) → (Message → List ℕ → ℕ → Parsed) → Type 0
Goes p g again =
    (m : Message) (octets : List ℕ) (left : ℕ) → Holds p g m → Ends p g (again m octets left)

module _ (p : MsgParams) (g : ℕ → Bool) (again : Message → List ℕ → ℕ → Parsed)
    (go : Goes p g again) (m : Message) (left : ℕ) (h : Holds p g m) where
  sig_done-Ends :
      (t : ℕ) (o : Outcome (Option SigTlv))
      → (t == 1) ≡ false
      → passes p t ≡ true
      → Ends p g (sig_done again m left t o)
  unfolding sig_done
  sig_done-Ends t (ok tlv c) other through =
      go (keep m t tlv) (past_left c) left
        (keep-Holds p g m t tlv h (λ s e. (λ one. absurd (ground arith), through)))
  sig_done-Ends t (fail e) other through = h
  sig_done-Ends t fault other through = tt

  mng_done-Ends :
      (id : MngId) (o : Outcome (Option MngTlv))
      → passes p 1 ≡ true
      → Ends p g (mng_done again m left id o)
  unfolding mng_done
  mng_done-Ends id (ok none c) through = tt
  mng_done-Ends id (ok (some d) c) through =
      go (keep m 1 (some (management id d))) (past_left c) left (
        keep-Holds p g m 1 (some (management id d)) h
          (λ s e. (λ one. subst (λ x. is_management (some x) ≡ true) (some_inj e) refl, through)))
  mng_done-Ends id (fail e) through = h
  mng_done-Ends id fault through = tt

  mng_found-Ends :
      (o : Option MngId) (octets : List ℕ) (n : ℕ)
      → passes p 1 ≡ true
      → Ends p g (mng_found again m left o octets n)
  unfolding mng_found
  mng_found-Ends none octets n through = go m (drop n octets) left h
  mng_found-Ends (some id) octets n through =
      if_rule (Ends p g) (n == 0) (λ e. go m octets left h)
        (λ e. mng_done-Ends id (call_tlv_data id none (sig_cursor octets n)) through)

  mng_part-Ends :
      (octets : List ℕ) (n : ℕ) → passes p 1 ≡ true → Ends p g (mng_part again m left octets n)
  unfolding mng_part
  mng_part-Ends octets n through =
      if_rule (Ends p g) (ltb n 2) (λ e. h)
        (λ e.
          if_rule (Ends p g) (ltb (length octets) 2) (λ f. tt)
            (λ f.
              mng_found-Ends (find_tlv_id (word_at octets 0) m.prms.implement_specific)
                (drop 2 octets) (n - 2) through))

  one_tlv-Ends : (t : ℕ) (octets : List ℕ) (n : ℕ) → Ends p g (one_tlv again m left t octets n)
  unfolding one_tlv
  one_tlv-Ends t octets n =
      if_rule (Ends p g) (m.prms.filter_signaling && not (is_in t m.prms.allow_sig_tlvs))
        (λ e. go m (drop n octets) left h)
        (λ e.
          let through : passes p t ≡ true = subst (λ q. passes q t ≡ true) h.params (ap not e) in
          if_rule (Ends p g) (t == 1)
            (λ one.
              mng_part-Ends octets n (subst (λ x. passes p x ≡ true) ((==_iff t 1).0 one) through))
            (λ other.
              sig_done-Ends t
                (sig_tlv (is_linuxptp m.prms.implement_specific) t (sig_cursor octets n)) other
                through))

sig_step-Ends :
    (p : MsgParams) (g : ℕ → Bool) (again : Message → List ℕ → ℕ → Parsed)
    → Goes p g again
    → Goes p g (sig_step again)
unfolding sig_step
sig_step-Ends p g again go m octets left h =
    if_rule (Ends p g) (ltb left 4) (λ e. h)
      (λ e.
        if_rule (Ends p g) (ltb (length octets) 4) (λ f. tt)
          (λ f.
            if_rule (Ends p g) (ltb (left - 4) (word_at octets 2)) (λ k. h)
              (λ k.
                one_tlv-Ends p g again go m (left - 4 - word_at octets 2) h (word_at octets 0)
                  (drop 4 octets) (word_at octets 2))))

sig_loop-Ends : (p : MsgParams) (g : ℕ → Bool) (fuel : ℕ) → Goes p g (sig_loop fuel)
unfolding sig_loop
sig_loop-Ends p g zero m octets left h = tt
sig_loop-Ends p g (suc fuel) m octets left h =
    sig_step-Ends p g (sig_loop fuel) (sig_loop-Ends p g fuel) m octets left h

parse_sig-Ends : (m : Message) (octets : List ℕ) → Ends m.prms m.sig_moves (parse_sig m octets)
unfolding parse_sig
parse_sig-Ends m octets =
    sig_loop-Ends m.prms m.sig_moves (suc (length octets)) (record m { sig_tlvs = [] }) octets
      (length octets) (record { params = refl; moves = refl; stored = tt; kept = λ never. tt })

pub parse_sig-MayStore :
    (m : Message) (octets : List ℕ) (e : Option ParseError) (n : Message)
    → parse_sig m octets ≡ returned e n
    → All (MayStore m.prms) n.sig_tlvs
parse_sig-MayStore m octets e n r =
    Holds.stored (subst (Ends m.prms m.sig_moves) r (parse_sig-Ends m octets))

pub parse_sig-HasTlv :
    (m : Message) (octets : List ℕ) (e : Option ParseError) (n : Message)
    → parse_sig m octets ≡ returned e n
    → ((k : ℕ) → m.sig_moves (suc k) ≡ false)
    → All HasTlv n.sig_tlvs
parse_sig-HasTlv m octets e n r =
    Holds.kept (subst (Ends m.prms m.sig_moves) r (parse_sig-Ends m octets))
