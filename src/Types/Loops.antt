-- ===== src/Types/Loops.antt =====
-- The loop of `vector_o` reads all the records of its data field, and stops before a pad.
use libpmc.Base.{
  ℕ, zero, suc, ◌+◌, ◌≤◌, ◌<◌, ◌≡◌, ap, ◌∙◌, sym, false, List, [], ◌∷◌, ◌++◌, length, map, All,
  le→leb, lt→not_leb, length-append, if◌then◌else◌, arith,
}
use libpmc.Wire.{Cursor, Proc, ok, continue, ◌>>=◌, pure, pass}
use libpmc.Wire.Codec.{
  Runs, Agrees, Agrees-append, concat, pass-nil, pass-pass, pass-room, within-fits,
}
use libpmc.Types.{each, countless, vector_o}

module _ {A : Type 0} (p : A → Proc A) (octets : A → List ℕ) (sent : A → A) (Valid : A → Type 0)
    (fresh : A) (size : ℕ) (positive : 0 < size)
    (read : (x : A) → Valid x → Runs false (p fresh) (octets x) (sent x))
    (length-octets : (x : A) → Valid x → length (octets x) ≡ size) where
  pub countless-read :
      (xs : List A) (fuel : ℕ) (c : Cursor)
      → All Valid xs
      → length xs < fuel
      → c.build ≡ false
      → c.left ≤ length c.rest
      → length (concat octets xs) ≤ c.left
      → c.left < length (concat octets xs) + size
      → Agrees (concat octets xs) c.rest
      → countless p fresh size fuel c ≡ ok (map sent xs) (pass c (concat octets xs))
  unfolding countless pure ◌>>=◌ pass
  countless-read xs zero c v f dir room fits pad agree = absurd (omega arith)
  countless-read [] (suc fuel) c v f dir room fits pad agree =
      rw (lt→not_leb size c.left (omega arith)) (ap (ok []) (sym (pass-nil c)))
  countless-read (x ∷ xs) (suc fuel) c v f dir room fits pad agree =
      let e : length (octets x) ≡ size = length-octets x v.0 in
      let total : length (octets x ++ concat octets xs)
          ≡ length (octets x) + length (concat octets xs) =
        length-append (octets x) (concat octets xs) in
      let parts = Agrees-append (octets x) (concat octets xs) c.rest agree in
      rw (le→leb size c.left (omega arith)) (
        rw ((read x v.0).at c dir room (λ _. parts.0) ∙ within-fits c _ _ (omega arith)) (
          rw
            (countless-read xs fuel (pass c (octets x)) v.1 (omega arith) dir
              (pass-room c (octets x) room) (unfold pass in omega arith)
              (unfold pass in omega arith) (unfold pass in parts.1 (omega arith)))
            (ap (ok (sent x ∷ map sent xs)) (pass-pass c (octets x) (concat octets xs)))))

  count_le : (xs : List A) → All Valid xs → length xs ≤ length (concat octets xs)
  count_le [] v = omega arith
  count_le (x ∷ xs) v = omega (
    arith,
    count_le xs v.1,
    length-octets x v.0,
    length-append (octets x) (concat octets xs),
    positive,
  )

  -- One more octet of fuel than m_left is enough.
  pub vector_o-read :
      (xs : List A) (c : Cursor)
      → All Valid xs
      → c.build ≡ false
      → c.left ≤ length c.rest
      → length (concat octets xs) ≤ c.left
      → c.left < length (concat octets xs) + size
      → Agrees (concat octets xs) c.rest
      → vector_o p fresh size [] c ≡ ok (map sent xs) (pass c (concat octets xs))
  unfolding vector_o pure ◌>>=◌
  vector_o-read xs c v dir room fits pad agree =
      ap
        (λ b.
          (if b
              then each p []
              else (do recs ← countless p fresh size (suc c.left); pure ([] ++ recs)))
            c)
        dir
      ∙ ap (λ o. continue o (λ recs. pure ([] ++ recs)))
          (countless-read xs (suc c.left) c v (omega (arith, count_le xs v)) dir room fits pad
            agree)
