-- ===== src/Types/Safety.antt =====
-- The compound types and the loops are read within the data field.
use libpmc.Base.{
  ℕ, zero, suc, length, subst, sym, ◌+◌, ◌*◌, ◌^◌, ◌≤◌, ◌<◌, ◌≡◌, false, List, [], ◌∷◌, ◌++◌, leb,
  if◌then◌else◌, Bool-cases, inl, inr, arith,
}
use libpmc.Wire.{Cursor, Proc, ◌>>=◌, pure}
use libpmc.Wire.Safety.{
  Moved, After, Eats, Eats-less, Eats-octets, continue_below, continue-After, Safe, Safe-bind,
  Safe-pure, Safe-of-eq, value_safety, Safe-uint,
}
use libpmc.Types.{
  proc_u48, u48_value, Timestamp, proc_timestamp, proc_clock_identity, PortIdentity,
  proc_port_identity, PortAddress, proc_port_address, ClockQuality, proc_clock_quality, PtpText,
  proc_ptp_text, FaultRecord, fault_checked, proc_fault_record, AcceptableMaster,
  proc_acceptable_master, proc_flags, proc_reserved, proc_time_interval, TimeInterval,
  ClockIdentity, each, counted, countless, vector_f, vector_o,
}
use libpmc.Types.Codecs.{u48_moves, u48_direction, flags_direction}
use libpmc.Types.Records.{vector_direction}

Safe-u48_value : (v high low : ℕ) → Safe (u48_value v high low)
unfolding u48_value pure
Safe-u48_value v high low = record {
  at = λ c dir room. (Safe-pure (if c.build then v else low + high * 2 ^ 32)).at c dir room;
}

pub Safe-u48 : (v : ℕ) → Safe (proc_u48 v)
unfolding u48_moves
Safe-u48 v =
    Safe-of-eq {m = u48_moves v} (λ c dir. u48_direction false v c dir)
      (search (value_safety, Safe-u48_value))

pub Safe-timestamp : (d : Timestamp) → Safe (proc_timestamp d)
unfolding proc_timestamp
Safe-timestamp d = search (value_safety, Safe-u48)

pub Safe-flags : (mask flags : ℕ) → Safe (proc_flags mask flags)
Safe-flags mask flags =
    Safe-of-eq (λ c dir. flags_direction false mask flags c dir) (Safe-uint 1 flags)

pub Safe-reserved : Safe proc_reserved
unfolding proc_reserved
Safe-reserved = search value_safety

pub Safe-identity : (d : ClockIdentity) → Safe (proc_clock_identity d)
unfolding proc_clock_identity
Safe-identity d = search value_safety

pub Safe-interval : (d : TimeInterval) → Safe (proc_time_interval d)
unfolding proc_time_interval
Safe-interval d = search value_safety

pub Safe-port : (d : PortIdentity) → Safe (proc_port_identity d)
unfolding proc_port_identity
Safe-port d = search (value_safety, Safe-identity)

pub Safe-address : (d : PortAddress) → Safe (proc_port_address d)
unfolding proc_port_address
Safe-address d = search value_safety depth 8

pub Safe-quality : (d : ClockQuality) → Safe (proc_clock_quality d)
unfolding proc_clock_quality
Safe-quality d = search value_safety depth 8

pub Safe-text : (d : PtpText) → Safe (proc_ptp_text d)
unfolding proc_ptp_text
Safe-text d = search value_safety

pub Safe-master : (d : AcceptableMaster) → Safe (proc_acceptable_master d)
unfolding proc_acceptable_master
Safe-master d = search (value_safety, Safe-port)

Safe-checked : (d : FaultRecord) → Safe (fault_checked d)
unfolding fault_checked
Safe-checked d = search value_safety

pub Safe-fault : (d : FaultRecord) → Safe (proc_fault_record d)
unfolding proc_fault_record
Safe-fault d = search (value_safety, Safe-timestamp, Safe-text, Safe-checked) depth 12

module _ {A : Type 0} (p : A → Proc A) (fresh : A) where
  pub Safe-each : ((x : A) → Safe (p x)) → (xs : List A) → Safe (each p xs)
  unfolding each
  Safe-each s [] = Safe-pure []
  Safe-each s (x ∷ xs) = search (value_safety, s x, Safe-each s xs)

  Safe-counted : Safe (p fresh) → (n : ℕ) → Safe (counted p fresh n)
  unfolding counted
  Safe-counted s zero = Safe-pure []
  Safe-counted s (suc n) = search (value_safety, s, Safe-counted s n)

  -- The fuel of the loop does not run out while each record eats an octet.
  countless-After :
      (size fuel : ℕ) (c : Cursor)
      → Safe (p fresh)
      → Eats 1 (p fresh)
      → c.left < fuel
      → c.build ≡ false
      → c.left ≤ length c.rest
      → After c (countless p fresh size fuel c)
  unfolding countless ◌>>=◌
  countless-After size zero c s e h dir room = absurd (omega arith)
  countless-After size (suc fuel) c s e h dir room = elim (Bool-cases (leb size c.left)) [
    | inl more ↦ rw more (
        continue_below c (p fresh c) _ (s.at c dir room) (e.at c dir room) (λ y d m below.
          continue-After d (countless p fresh size fuel d) _
            (countless-After size fuel d s e (omega arith) m.parsing m.room)
            (λ ys. Safe-pure (y ∷ ys))))
    | inr done ↦ rw done ((Safe-pure []).at c dir room)
  ]

  pub Safe-vector_f : (cnt : ℕ) (vec : List A) → Safe (p fresh) → Safe (vector_f p fresh cnt vec)
  Safe-vector_f cnt vec s =
      Safe-of-eq (λ c dir. vector_direction p false fresh cnt vec c dir)
        (Safe-bind _ _ (Safe-counted s cnt) (λ recs. Safe-pure (vec ++ recs)))

  pub Safe-vector_o :
      (size : ℕ) (vec : List A)
      → Safe (p fresh)
      → Eats 1 (p fresh)
      → Safe (vector_o p fresh size vec)
  unfolding vector_o ◌>>=◌
  Safe-vector_o size vec s e = record {
    at = λ c dir room.
        subst
          (λ b. After c (
            (if b
                then each p vec
                else (do recs ← countless p fresh size (suc c.left); pure (vec ++ recs)))
              c))
          (sym dir)
          (continue-After c (countless p fresh size (suc c.left) c) _
            (countless-After size (suc c.left) c s e (omega arith) dir room)
            (λ recs. Safe-pure (vec ++ recs)));
  }

pub Eats-identity : (d : ClockIdentity) → Eats 1 (proc_clock_identity d)
unfolding proc_clock_identity
Eats-identity d = Eats-less 1 8 (omega arith) (Eats-octets 8 d)

pub ruleset type_safety = (
  value_safety, Safe-u48, Safe-timestamp, Safe-flags, Safe-reserved, Safe-identity, Safe-interval,
  Safe-port, Safe-address, Safe-quality, Safe-text, Safe-master, Safe-fault,
)
