-- ===== src/Wire/Octets.antt =====
-- The byte order of end.h: `cpu` undoes `net`.
use native.Mathlib.Nat.{div-add-mod, div-div-eq-div-mul, mod-eq_of_lt, pow-suc}
use libpmc.Base.{ℕ, zero, suc, ◌+◌, ◌*◌, ◌/◌, ◌%◌, ◌^◌, ◌<◌, ◌≡◌, refl, sym, ap, ◌∙◌, length, arith}
use libpmc.Wire.{net, cpu}

pub length-net : (n v : ℕ) → length (net n v) ≡ n
unfolding net
length-net zero v = refl
length-net (suc n) v = ap suc (length-net n v)

-- One more octet in front of a remainder.
top_octet : (v m : ℕ) → v / m % 256 * m + v % m ≡ v % (m * 256)
top_octet v m = omega (
  arith,
  div-add-mod v m,
  div-add-mod v (m * 256),
  ap (λ (t : ℕ). t * (m * 256)) (div-div-eq-div-mul v m 256),
  ap (λ (t : ℕ). t * m) (div-add-mod (v / m) 256),
)

cpu-net_mod : (n v : ℕ) → cpu (net n v) ≡ v % 256 ^ n
unfolding net cpu
cpu-net_mod zero v = omega arith
cpu-net_mod (suc n) v =
    rw (length-net n v, cpu-net_mod n v)
      (top_octet v (256 ^ n) ∙ ap (λ t. v % t) (sym (pow-suc 256 n)))

pub cpu-net : (n v : ℕ) → v < 256 ^ n → cpu (net n v) ≡ v
cpu-net n v h = cpu-net_mod n v ∙ mod-eq_of_lt h
