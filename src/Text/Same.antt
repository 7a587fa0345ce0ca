-- ===== src/Text/Same.antt =====
-- That `same` decides equality.
use libpmc.Base.{ℕ, ◌≡◌, refl, true, List, [], ◌∷◌, arith, ◌↔◌, subst}
use libpmc.Text.{same}

pub same_refl : (s : List ℕ) → same s s ≡ true
same_refl [] = refl
same_refl (c ∷ s) = ground (arith, same_refl s)

pub same-eq : (s t : List ℕ) → same s t ≡ true → s ≡ t
same-eq [] [] e = refl
same-eq [] (b ∷ t) e = cc
same-eq (a ∷ s) [] e = cc
same-eq (a ∷ s) (b ∷ t) e = ground (arith, same-eq s t)

pub same_iff : (s t : List ℕ) → (same s t ≡ true) ↔ (s ≡ t)
same_iff s t = (same-eq s t, λ e. subst (λ u. same s u ≡ true) e (same_refl s))
