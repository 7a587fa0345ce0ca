-- ===== src/Wire/Safety.antt =====
-- A parse touches only the octets of its data field, whatever they are.
use libpmc.Base.{
  ℕ, ◌+◌, ◌≤◌, ◌<◌, ◌≡◌, refl, subst, ap, ◌∙◌, sym, Bool, true, false, List, ◌++◌, length, take,
  drop, ltb, not_ltb→le, le→not_ltb, Bool-cases, inl, inr, if◌then◌else◌, append_assoc,
  take-append-drop, length-take, length-drop, arith,
}
use libpmc.Base.Int.{ℤ}
use libpmc.Wire.{
  Cursor, Outcome, ok, fail, fault, Proc, ParseError, continue, ◌>>=◌, pure, raise, pass, transfer,
  proc_uint, proc_int, proc_le64, proc_octets, proc_string, proc_binary,
}
use libpmc.Wire.Values.{binary_direction}

-- The cursor `d` is `c` moved forward over octets of the same buffer.
pub record Moved (c d : Cursor) : Type 0 where
  pub parsing : d.build ≡ false
  pub room : d.left ≤ length d.rest
  pub account : d.moved + d.left ≡ c.moved + c.left
  pub forward : c.moved ≤ d.moved
  pub behind : length d.rest + c.left ≡ length c.rest + d.left
  pub whole : d.passed ++ d.rest ≡ c.passed ++ c.rest

abbrev pub After {ℓ} : {A : Type ℓ} → Cursor → Outcome A → Type 0
After c (ok a d) = Moved c d
After c (fail e) = Unit
After c fault = ⊥

pub record Safe {ℓ} {A : Type ℓ} (m : Proc A) : Type ℓ where
  pub at : (c : Cursor) → c.build ≡ false → c.left ≤ length c.rest → After c (m c)

Moved-trans : {c d e : Cursor} → Moved c d → Moved d e → Moved c e
Moved-trans p q = record {
  parsing = q.parsing;
  room = q.room;
  account = q.account ∙ p.account;
  forward = omega (arith, p.forward, q.forward);
  behind = omega (arith, p.behind, q.behind);
  whole = q.whole ∙ p.whole;
}

After-trans {ℓ} : {A : Type ℓ} {c d : Cursor} (o : Outcome A) → Moved c d → After d o → After c o
After-trans (ok a e) p q = Moved-trans p q
After-trans (fail e) p q = tt
After-trans fault p q = q

module _ {ℓ κ} {A : Type ℓ} {B : Type κ} where
  pub continue-After :
      (c : Cursor) (o : Outcome A) (f : A → Proc B)
      → After c o
      → ((a : A) → Safe (f a))
      → After c (continue o f)
  continue-After c (ok a d) f p s = After-trans (f a d) p ((s a).at d p.parsing p.room)
  continue-After c (fail e) f p s = tt
  continue-After c fault f p s = p

  pub Safe-bind : (m : Proc A) (f : A → Proc B) → Safe m → ((a : A) → Safe (f a)) → Safe (m >>= f)
  unfolding ◌>>=◌
  Safe-bind m f s t = record { at = λ c dir room. continue-After c (m c) f (s.at c dir room) t }

module _ {ℓ} {A : Type ℓ} where
  pub Safe-pure : (a : A) → Safe (pure a)
  unfolding pure
  Safe-pure a = record {
    at = λ c dir room. record {
      parsing = dir;
      room = room;
      account = refl;
      forward = omega arith;
      behind = refl;
      whole = refl;
    };
  }

  pub Safe-raise : (e : ParseError) → Safe (raise {A = A} e)
  unfolding raise
  Safe-raise e = record { at = λ c dir room. tt }

pub Safe-if {ℓ} :
    {A : Type ℓ} (b : Bool) (m n : Proc A) → Safe m → Safe n → Safe (if b then m else n)
Safe-if true m n s t = s
Safe-if false m n s t = t

pass-Moved :
    (c : Cursor) (n : ℕ)
    → c.build ≡ false
    → c.left ≤ length c.rest
    → n ≤ c.left
    → Moved c (pass c (take n c.rest))
unfolding pass
pass-Moved c n dir room h =
    let e : length (take n c.rest) ≡ n = omega (arith, length-take n c.rest) in
    record {
      parsing = dir;
      room = omega (arith, length-drop (length (take n c.rest)) c.rest);
      account = omega arith;
      forward = omega arith;
      behind = omega (arith, length-drop (length (take n c.rest)) c.rest, h, room);
      whole =
          append_assoc c.passed (take n c.rest) (drop (length (take n c.rest)) c.rest)
          ∙ ap (λ k. c.passed ++ (take n c.rest ++ drop k c.rest)) e
          ∙ ap (λ l. c.passed ++ l) (take-append-drop n c.rest);
    }

module _ {ℓ} {A : Type ℓ} (n : ℕ) (out : List ℕ) (v : A) (from : List ℕ → A) where
  transfer-After :
      (c : Cursor) → c.build ≡ false → c.left ≤ length c.rest → After c (transfer n out v from c)
  unfolding transfer
  transfer-After c dir room = elim (Bool-cases (ltb c.left n)) [
    | inl short ↦ rw short tt
    | inr fits ↦
        let p : n ≤ c.left = not_ltb→le c.left n fits in
        rw (fits, le→not_ltb (length c.rest) n (omega arith))
          (subst
            (λ b.
              After c (
                if b
                then ok v (pass c out)
                else ok (from (take n c.rest)) (pass c (take n c.rest))))
            (sym dir) (pass-Moved c n dir room p))
  ]

  pub Safe-transfer : Safe (transfer n out v from)
  Safe-transfer = record { at = transfer-After }

-- The rest of the `proc` family of single values.
pub Safe-uint : (n v : ℕ) → Safe (proc_uint n v)
unfolding proc_uint
Safe-uint n v = Safe-transfer _ _ _ _

pub Safe-int : (n : ℕ) (z : ℤ) → Safe (proc_int n z)
unfolding proc_int
Safe-int n z = Safe-transfer _ _ _ _

pub Safe-le64 : (v : ℕ) → Safe (proc_le64 v)
unfolding proc_le64
Safe-le64 v = Safe-transfer _ _ _ _

pub Safe-octets : (n : ℕ) (bs : List ℕ) → Safe (proc_octets n bs)
unfolding proc_octets
Safe-octets n bs = Safe-transfer _ _ _ _

pub Safe-string : (s : List ℕ) (len : ℕ) → Safe (proc_string s len)
unfolding proc_string
Safe-string s len = record { at = λ c dir room. (Safe-transfer _ _ _ _).at c dir room }

-- A function that is another one on parse.
pub Safe-of-eq {ℓ} :
    {A : Type ℓ} {m n : Proc A} → ((c : Cursor) → c.build ≡ false → n c ≡ m c) → Safe m → Safe n
Safe-of-eq e s = record {
  at = λ c dir room. subst (λ o. After c o) (sym (e c dir)) (s.at c dir room);
}

pub Safe-binary : (bin : List ℕ) (len : ℕ) → Safe (proc_binary bin len)
Safe-binary bin len =
    Safe-of-eq (λ c dir. binary_direction false bin len c dir) (Safe-octets len bin)

pub ruleset value_safety = (
  Safe-pure, Safe-raise, Safe-bind, Safe-uint, Safe-int, Safe-le64, Safe-octets, Safe-string,
  Safe-binary, Safe-if,
)

-- A read that succeeds leaves at least `n` octets fewer.
abbrev pub Eaten {ℓ} : {A : Type ℓ} → ℕ → Cursor → Outcome A → Type 0
Eaten n c (ok a d) = d.left + n ≤ c.left
Eaten n c (fail e) = Unit
Eaten n c fault = Unit

pub record Eats {ℓ} {A : Type ℓ} (n : ℕ) (m : Proc A) : Type ℓ where
  pub at : (c : Cursor) → c.build ≡ false → c.left ≤ length c.rest → Eaten n c (m c)

later-Eaten {ℓ} :
    {B : Type ℓ} (n : ℕ) (c d : Cursor) (o : Outcome B)
    → d.left + n ≤ c.left
    → After d o
    → Eaten n c o
later-Eaten n c d (ok b e) h p = omega (arith, p.account, p.forward)
later-Eaten n c d (fail e) h p = tt
later-Eaten n c d fault h p = tt

-- The octets are eaten by the first part.
module _ {ℓ κ} {A : Type ℓ} {B : Type κ} where
  continue-Eaten :
      (n : ℕ) (c : Cursor) (o : Outcome A) (f : A → Proc B)
      → Eaten n c o
      → After c o
      → ((a : A) → Safe (f a))
      → Eaten n c (continue o f)
  continue-Eaten n c (ok a d) f h p s = later-Eaten n c d (f a d) h ((s a).at d p.parsing p.room)
  continue-Eaten n c (fail e) f h p s = tt
  continue-Eaten n c fault f h p s = tt

  pub Eats-bind :
      (n : ℕ) (m : Proc A) (f : A → Proc B)
      → Eats n m
      → Safe m
      → ((a : A) → Safe (f a))
      → Eats n (m >>= f)
  unfolding ◌>>=◌
  Eats-bind n m f e s t = record {
    at = λ c dir room. continue-Eaten n c (m c) f (e.at c dir room) (s.at c dir room) t;
  }

  -- A step that eats, and what follows it from a cursor with less left.
  pub continue_below :
      (c : Cursor) (o : Outcome A) (f : A → Proc B)
      → After c o
      → Eaten 1 c o
      → ((a : A) (d : Cursor) → Moved c d → d.left < c.left → After d (f a d))
      → After c (continue o f)
  continue_below c (ok a d) f p h k = After-trans (f a d) p (k a d p (omega arith))
  continue_below c (fail e) f p h k = tt
  continue_below c fault f p h k = p

module _ {ℓ} {A : Type ℓ} (n : ℕ) (out : List ℕ) (v : A) (from : List ℕ → A) where
  transfer-Eaten :
      (c : Cursor) → c.build ≡ false → c.left ≤ length c.rest → Eaten n c (transfer n out v from c)
  unfolding transfer
  transfer-Eaten c dir room = elim (Bool-cases (ltb c.left n)) [
    | inl short ↦ rw short tt
    | inr fits ↦
        let p : n ≤ c.left = not_ltb→le c.left n fits in
        rw (fits, le→not_ltb (length c.rest) n (omega arith))
          (subst
            (λ b.
              Eaten n c (
                if b
                then ok v (pass c out)
                else ok (from (take n c.rest)) (pass c (take n c.rest))))
            (sym dir) (unfold pass in omega (arith, length-take n c.rest)))
  ]

pub Eats-uint : (n v : ℕ) → Eats n (proc_uint n v)
unfolding proc_uint
Eats-uint n v = record { at = λ c dir room. transfer-Eaten _ _ _ _ c dir room }

pub Eats-octets : (n : ℕ) (bs : List ℕ) → Eats n (proc_octets n bs)
unfolding proc_octets
Eats-octets n bs = record { at = λ c dir room. transfer-Eaten _ _ _ _ c dir room }

Eaten-less {ℓ} :
    {A : Type ℓ} (k n : ℕ) (c : Cursor) (o : Outcome A) → k ≤ n → Eaten n c o → Eaten k c o
Eaten-less k n c (ok a d) h e = omega arith
Eaten-less k n c (fail x) h e = tt
Eaten-less k n c fault h e = tt

pub Eats-less {ℓ} : {A : Type ℓ} (k n : ℕ) {m : Proc A} → k ≤ n → Eats n m → Eats k m
Eats-less k n {m} h e = record { at = λ c dir room. Eaten-less k n c (m c) h (e.at c dir room) }
