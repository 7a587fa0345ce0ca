-- ===== src/Config/Limits.antt =====
-- That the numbers of a configuration stay in their documented ranges, cfg.cpp's getters.
use libpmc.Base.{
  ℕ, ◌<◌, ◌≡◌, refl, subst, Bool, true, List, [], Option, none, some, ◌==◌, length, if_rule, arith,
}
use libpmc.Text.{fgets_lines}
use libpmc.Config.{Value, number, text, octets, Outcome, done, fault, global_section}
use libpmc.Config.Values.{WellTyped, allowed}
use libpmc.Config.File.{
  ConfigFile, Sections, config_of, read_loop, new_config, buf_size, get, default_sections,
}
use libpmc.Config.Journal.{Journal, newest, own, number_or, default_number}
use libpmc.Config.Stored.{default_sections-Stored}
use libpmc.Config.Refines.{Typed, Kept, Agree, read_lines-Agree}
use libpmc.Config.Getters.{newest-WellTyped, get-effective}

-- A number that is there and in its range.
abbrev InLimits : ℕ → Option ℕ → Type 0
InLimits idx o = (n : ℕ) × (o ≡ some n) × (allowed idx n ≡ true)

default-InLimits : (idx : ℕ) → idx < 6 → InLimits idx (some (default_number idx))
default-InLimits idx small = (default_number idx, refl, ground arith)

number_or-InLimits :
    (idx : ℕ) (d : Option ℕ) (o : Option Value)
    → idx < 6
    → InLimits idx d
    → ((v : Value) → o ≡ some v → WellTyped idx v)
    → InLimits idx (number_or d o)
number_or-InLimits idx d none small h ok = h
number_or-InLimits idx d (some (number n)) small h ok = (n, refl, (ok (number n) refl).1)
number_or-InLimits idx d (some (text t)) small h ok = h
number_or-InLimits idx d (some (octets b)) small h ok = h

own-WellTyped :
    (section : List ℕ) (idx : ℕ) (j : Journal)
    → Typed j
    → (v : Value) → own section idx j ≡ some v
    → WellTyped idx v
own-WellTyped section idx j typed v =
    if_rule (λ o. o ≡ some v → WellTyped idx v) (length section == 0) (λ empty e. cc)
      (λ named e. newest-WellTyped section idx j v typed e)

module _ (c : ConfigFile) (j : Journal) (h : Kept c.cfg_sec j) where
  kept-InLimits : (idx : ℕ) (section : List ℕ) → idx < 6 → InLimits idx (get idx section c)
  kept-InLimits idx section small = rw (get-effective c j h idx section small) (
      number_or-InLimits idx _ (own section idx j) small
        (number_or-InLimits idx _ (newest global_section idx j) small (default-InLimits idx small)
          (λ v e. newest-WellTyped global_section idx j v h.1 e))
        (own-WellTyped section idx j h.1))

config_of-Kept :
    (o : Outcome Sections) (p : Outcome Journal) (c : ConfigFile) (ok : Bool)
    → Agree o p
    → config_of o ≡ done c ok
    → (j : Journal) × Kept c.cfg_sec j
unfolding config_of
config_of-Kept fault p c ok h e = cc
config_of-Kept (done secs a) fault c ok h e = absurd h
config_of-Kept (done secs a) (done j b) c ok h e =
    let same_secs : secs ≡ c.cfg_sec = cc e in (j, subst (λ s. Kept s j) same_secs h.1)

read_loop-Kept :
    (file : List ℕ) (c : ConfigFile) (ok : Bool)
    → read_loop file new_config ≡ done c ok
    → (j : Journal) × Kept c.cfg_sec j
unfolding read_loop new_config
read_loop-Kept file c ok e =
    config_of-Kept _ _ c ok
      (read_lines-Agree (fgets_lines buf_size file) global_section default_sections []
        (default_sections-Stored, tt))
      e

-- After the loop of read_cfg over any file, run on the configuration that the constructor makes, when
-- the loop ends without a scan beyond the end of a line, with success or at a wrong line: each of the
-- six number getters returns for every section name a number that was written, never an entry that was
-- not, and the number is in its documented range: transportSpecific, udp6_scope and socket_priority up
-- to 15, domainNumber up to 239, udp_ttl from 1 to 255, network_transport one of '2', '4' and '6'.
pub get-InLimits :
    (file : List ℕ) (c : ConfigFile) (ok : Bool)
    → read_loop file new_config ≡ done c ok
    → (idx : ℕ) (section : List ℕ) → idx < 6
    → (n : ℕ) × (get idx section c ≡ some n) × (allowed idx n ≡ true)
get-InLimits file c ok e idx section small =
    let (j, kept) = read_loop-Kept file c ok e in kept-InLimits c j kept idx section small
