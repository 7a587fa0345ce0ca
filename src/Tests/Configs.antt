-- ===== src/Tests/Configs.antt =====
-- The configuration file at concrete inputs.
use libpmc.Base.{ℕ, ◌≤◌, ◌≡◌, refl, Bool, true, List, [], ◌∷◌, ◌++◌, map, some, arith}
use libpmc.Text.{codes, newline, fgets_lines, c_string, skip_spaces, strtol}
use libpmc.Config.{Outcome, done, fault, global_section, set_val}
use libpmc.Config.Values.{allowed}
use libpmc.Config.File.{
  ConfigFile, new_config, read_loop, get, find_section, put_section, buffer_line, buf_size,
}
use libpmc.Config.Journal.{entries}
use libpmc.Config.Getters.{Implements, read_loop-Implements}
use libpmc.Config.Limits.{get-InLimits}
use libpmc.Config.Lines.{fits, read_loop-done}
use libpmc.Message.Getters.{use_config, use_config_lem}
use libpmc.Tests.{getter}

abbrev line : List ℕ → List ℕ → List ℕ
line text rest = text ++ newline ∷ rest

abbrev sample_file : List ℕ
sample_file = line (codes "# ptp4l") (
    line (codes "[global]") (
      line (codes "domainNumber\t24") (
        line (codes "unknown_key 7") (
          line (codes "[ eth0 ]")
            (line (codes "domainNumber 0x10 ") (line (codes "uds_address /tmp/x") []))))))

abbrev short_file : List ℕ
short_file = line (codes "udp_ttl 7") []

-- The configuration that the loop leaves, and its result.
abbrev or_new : Outcome ConfigFile → ConfigFile
or_new fault = new_config
or_new (done c ok) = c

abbrev after : List ℕ → ConfigFile
after file = or_new (read_loop file new_config)

eth0_domain : get 1 (codes "eth0") (after sample_file) ≡ some 16
unfolding read_loop new_config get global_section set_val find_section put_section fgets_lines
    c_string skip_spaces strtol
eth0_domain = refl

eth1_domain : get 1 (codes "eth1") (after sample_file) ≡ some 24
unfolding read_loop new_config get global_section set_val find_section put_section fgets_lines
    c_string skip_spaces strtol
eth1_domain = refl

read_loop-Implements_example :
    Implements
      (read_loop sample_file new_config)
      (entries global_section [] (map buffer_line (fgets_lines buf_size sample_file)))
read_loop-Implements_example = read_loop-Implements sample_file

short_read : read_loop short_file new_config ≡ done (after short_file) true
unfolding read_loop new_config global_section set_val find_section put_section fgets_lines c_string
    skip_spaces strtol
short_read = refl

get-InLimits_example :
    (n : ℕ) × (get 3 (codes "eth0") (after short_file) ≡ some n) × (allowed 3 n ≡ true)
get-InLimits_example =
    get-InLimits short_file (after short_file) true short_read 3 (codes "eth0") (omega arith)

short_fits : fits buf_size buf_size short_file ≡ true
unfolding fits
short_fits = refl

read_loop-done_example :
    (c : ConfigFile) × (ok : Bool) × (read_loop short_file new_config ≡ done c ok)
read_loop-done_example = read_loop-done short_file new_config short_fits

use_config_example :
    (t : ℕ) × (d : ℕ) × (get 0 (codes "eth0") (after short_file) ≡ some t)
    × (t ≤ 15)
    × (get 1 [] (after short_file) ≡ some d)
    × (d ≤ 239)
    × (use_config (after short_file) (codes "eth0") getter
        ≡ some (
          true,
          record getter { prms = record getter.prms { transport_specific = t; domain_number = d } },
        ))
use_config_example =
    use_config_lem short_file (after short_file) true short_read (codes "eth0") getter
