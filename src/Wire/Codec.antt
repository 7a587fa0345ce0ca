-- ===== src/Wire/Codec.antt =====
-- What it means that a function of the `proc` family writes, or reads, given octets.
use native.Mathlib.Nat.{add_assoc}
use libpmc.Base.{
  ℕ, ◌+◌, ◌-◌, ◌≤◌, ◌≡◌, refl, subst, ◌∙◌, sym, Bool, true, false, inl, inr, List, [], ◌∷◌, ◌++◌,
  length, drop, take, ltb, leb, leb→le, not_leb→lt, lt→ltb, le→not_ltb, le→leb, if◌then◌else◌,
  Bool-cases, length-append, length-drop, drop-drop, append_assoc, append-nil, arith,
}
use libpmc.Wire.{Cursor, Outcome, ok, fail, too_small, Proc, continue, ◌>>=◌, pass, transfer, pure}

-- Two octet strings are the same as far as both go.
abbrev pub Agrees : List ℕ → List ℕ → Type 0
Agrees [] ys = Unit
Agrees (x ∷ xs) [] = Unit
Agrees (x ∷ xs) (y ∷ ys) = (x ≡ y) × Agrees xs ys

-- The result `a` after exactly `octets`, or the error of a data field that is too short for them.
abbrev pub within {ℓ} : {A : Type ℓ} → Cursor → List ℕ → A → Outcome A
within c octets a = if leb (length octets) c.left then ok a (pass c octets) else fail too_small

-- In the direction `b` (true: build) the function `m` moves over `octets` and returns `a`. On parse
-- the octets are those at the cursor, as far as the buffer goes.
pub record Runs {ℓ} {A : Type ℓ} (b : Bool) (m : Proc A) (octets : List ℕ) (a : A) : Type ℓ where
  pub at :
      (c : Cursor)
      → c.build ≡ b
      → c.left ≤ length c.rest
      → (b ≡ false → Agrees octets c.rest)
      → m c ≡ within c octets a

pub Agrees-append :
    (xs ys rest : List ℕ)
    → Agrees (xs ++ ys) rest
    → Agrees xs rest × (length xs ≤ length rest → Agrees ys (drop (length xs) rest))
Agrees-append [] ys rest h = (tt, λ _. h)
Agrees-append (x ∷ xs) ys [] h = (tt, λ p. absurd (omega arith))
Agrees-append (x ∷ xs) ys (r ∷ rest) h =
    let ih : Agrees xs rest × (length xs ≤ length rest → Agrees ys (drop (length xs) rest)) =
      Agrees-append xs ys rest h.1 in
    ((h.0, ih.0), λ p. ih.1 (omega arith))

Agrees-take :
    (xs rest : List ℕ) → length xs ≤ length rest → Agrees xs rest → take (length xs) rest ≡ xs
Agrees-take [] rest p h = refl
Agrees-take (x ∷ xs) [] p h = absurd (omega arith)
Agrees-take (x ∷ xs) (r ∷ rest) p h = ground (arith, Agrees-take xs rest)

pub pass-room :
    (c : Cursor) (xs : List ℕ) → c.left ≤ length c.rest → (pass c xs).left ≤ length (pass c xs).rest
unfolding pass
pass-room c xs h = omega (arith, length-drop (length xs) c.rest)

left_after :
    (c : Cursor) (xs ys : List ℕ)
    → leb (length xs) c.left ≡ true
    → leb (length ys) (pass c xs).left ≡ leb (length (xs ++ ys)) c.left
unfolding pass
left_after c xs ys fits = ground (arith, length-append xs ys)

too_long :
    (c : Cursor) (xs ys : List ℕ)
    → leb (length xs) c.left ≡ false
    → leb (length (xs ++ ys)) c.left ≡ false
too_long c xs ys short = ground (arith, length-append xs ys)

sub_add : (n k l : ℕ) → n - (k + l) ≡ n - k - l
sub_add n k l = omega arith

pub pass-pass : (c : Cursor) (xs ys : List ℕ) → pass (pass c xs) ys ≡ pass c (xs ++ ys)
unfolding pass
pass-pass c xs ys = rw (
  append_assoc,
  drop-drop (length xs) (length ys) c.rest,
  length-append xs ys,
  sub_add,
  add_assoc,
)

-- The room that is left after a first part is room for the second.
pub within-pass {ℓ} :
    {B : Type ℓ} (c : Cursor) (xs ys : List ℕ) (y : B)
    → leb (length xs) c.left ≡ true
    → within (pass c xs) ys y ≡ within c (xs ++ ys) y
within-pass c xs ys y fits = rw (pass-pass, left_after c xs ys fits)

pub pass-nil : (c : Cursor) → pass c [] ≡ c
unfolding pass
pass-nil c = ground (arith, append-nil c.passed)

pub within-nil {ℓ} : {A : Type ℓ} (c : Cursor) (a : A) → within c [] a ≡ ok a c
unfolding pass
within-nil c a = ground (arith, append-nil c.passed)

continue-within {ℓ κ} :
    {A : Type ℓ} {B : Type κ} (c : Cursor) (xs : List ℕ) (x : A) (g : A → B)
    → continue (within c xs x) (λ a. ok (g a)) ≡ within c xs (g x)
continue-within c xs x g = elim (Bool-cases (leb (length xs) c.left)) [
  | inl fits ↦ rw fits
  | inr short ↦ rw short
]

module _ {ℓ κ} {A : Type ℓ} {B : Type κ} where
  pub Runs-bind :
      {b : Bool} {m : Proc A} (f : A → Proc B) {xs ys : List ℕ} {x : A} {y : B}
      → Runs b m xs x
      → Runs b (f x) ys y
      → Runs b (m >>= f) (xs ++ ys) y
  unfolding ◌>>=◌
  Runs-bind {b} {m} f {xs} {ys} {x} {y} r s = record {
    at = λ c dir room agree.
        rw (r.at c dir room (λ e. (Agrees-append xs ys c.rest (agree e)).0))
          (elim (Bool-cases (leb (length xs) c.left)) [
            | inl fits ↦ rw fits (
                s.at (pass c xs) (unfold pass in dir) (pass-room c xs room) (λ e.
                  unfold pass in
                  (Agrees-append xs ys c.rest (agree e)).1 (omega (arith, leb→le _ _ fits)))
                ∙ within-pass c xs ys y fits)
            | inr short ↦ rw (short, too_long c xs ys short)
          ]);
  }

  -- The last statement of a block returns a value made of the last result.
  pub Runs-map :
      {b : Bool} {m : Proc A} (g : A → B) {xs : List ℕ} {x : A}
      → Runs b m xs x
      → Runs b (m >>= λ a. pure (g a)) xs (g x)
  unfolding ◌>>=◌ pure
  Runs-map {b} {m} g {xs} {x} r = record {
    at = λ c dir room agree. rw (r.at c dir room agree) (continue-within c xs x g);
  }

-- The test of m_left comes before the access, so the access never faults.
pub tests_in_order {ℓ} :
    {A : Type ℓ} (x e f : A) (l r n : ℕ)
    → l ≤ r
    → (if ltb l n then e else if ltb r n then f else x) ≡ (if leb n l then x else e)
tests_in_order x e f l r n h = elim (Bool-cases (leb n l)) [
  | inl fits ↦
      let p : n ≤ l = leb→le n l fits in rw (fits, le→not_ltb l n p, le→not_ltb r n (omega arith))
  | inr short ↦ rw (short, lt→ltb l n (not_leb→lt n l short))
]

module _ {ℓ} {A : Type ℓ} where
  pub Runs-pure : {b : Bool} (a : A) → Runs b (pure a) [] a
  unfolding pure
  Runs-pure a = record { at = λ c dir room agree. sym (within-nil c a) }

  -- A build writes `out` and returns its argument.
  pub Runs-write :
      (n : ℕ) (out : List ℕ) (v : A) (from : List ℕ → A)
      → length out ≡ n
      → Runs true (transfer n out v from) out v
  unfolding transfer
  Runs-write n out v from e = record {
    at = λ c dir room agree.
        rw (← e, dir) (tests_in_order _ _ _ c.left (length c.rest) (length out) room);
  }

  -- A parse returns what `from` makes of the octets at the cursor.
  pub Runs-read :
      (n : ℕ) (out octets : List ℕ) (v a : A) (from : List ℕ → A)
      → length octets ≡ n
      → from octets ≡ a
      → Runs false (transfer n out v from) octets a
  unfolding transfer
  Runs-read n out octets v a from e r = record {
    at = λ c dir room agree.
        rw (← e, dir)
          (elim (Bool-cases (leb (length octets) c.left)) [
            | inl fits ↦
                rw (Agrees-take octets c.rest (omega (arith, leb→le _ _ fits)) (agree refl), r)
                  (tests_in_order _ _ _ c.left (length c.rest) (length octets) room)
            | inr short ↦ rw (short, lt→ltb c.left (length octets) (not_leb→lt _ _ short))
          ]);
  }

module _ {A B : Type 0} where
  -- A last step that moves over nothing.
  pub Runs-end :
      {b : Bool} {m : Proc A} (f : A → Proc B) {xs : List ℕ} {x : A} {y : B}
      → Runs b m xs x
      → Runs b (f x) [] y
      → Runs b (m >>= f) xs y
  Runs-end {b} {m} f {xs} {x} {y} r s =
      subst (λ l. Runs b (m >>= f) l y) (append-nil xs) (Runs-bind f r s)

module _ {A : Type 0} where
  pub Runs-of-eq :
      {b : Bool} {m n : Proc A} {xs : List ℕ} {x : A}
      → ((c : Cursor) → c.build ≡ b → n c ≡ m c)
      → Runs b m xs x
      → Runs b n xs x
  Runs-of-eq e r = record { at = λ c dir room agree. e c dir ∙ r.at c dir room agree }

-- The whole list's octets, element by element.
module _ {A : Type 0} (f : A → List ℕ) where
  abbrev pub concat : List A → List ℕ
  concat [] = []
  concat (x ∷ xs) = f x ++ concat xs

pub Runs-value {ℓ} :
    {A : Type ℓ} {b : Bool} {m : Proc A} {xs : List ℕ} {x y : A}
    → x ≡ y
    → Runs b m xs x
    → Runs b m xs y
Runs-value {b = b} {m = m} {xs = xs} e r = subst (λ z. Runs b m xs z) e r

-- A parse that takes a whole data field: `octets`, and at most one pad octet behind them.
pub record ReadsAll {ℓ} {A : Type ℓ} (m : Proc A) (octets : List ℕ) (a : A) : Type ℓ where
  pub at :
      (c : Cursor)
      → c.build ≡ false
      → c.left ≤ length c.rest
      → length octets ≤ c.left
      → c.left ≤ length octets + 1
      → Agrees octets c.rest
      → m c ≡ ok a (pass c octets)

pub within-fits {ℓ} :
    {A : Type ℓ} (c : Cursor) (octets : List ℕ) (a : A)
    → length octets ≤ c.left
    → within c octets a ≡ ok a (pass c octets)
within-fits c octets a h = rw (le→leb _ _ h)

pub ReadsAll-Runs {ℓ} :
    {A : Type ℓ} {m : Proc A} {octets : List ℕ} {a : A}
    → Runs false m octets a
    → ReadsAll m octets a
ReadsAll-Runs r = record {
  at = λ c dir room fits pad agree. r.at c dir room (λ _. agree) ∙ within-fits c _ _ fits;
}

pub ReadsAll-map {ℓ κ} :
    {A : Type ℓ} {B : Type κ} {m : Proc A} (g : A → B) {octets : List ℕ} {a : A}
    → ReadsAll m octets a
    → ReadsAll (m >>= λ x. pure (g x)) octets (g a)
unfolding ◌>>=◌ pure
ReadsAll-map g r = record { at = λ c dir room fits pad agree. rw (r.at c dir room fits pad agree) }
