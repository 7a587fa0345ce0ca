-- ===== src/Config/Map.antt =====
-- The map of sections of cfg.cpp as an association list: what find_section finds after put_section, and
-- what a setting leaves in a section.
use libpmc.Base.{ℕ, ◌≡◌, refl, List, [], ◌∷◌, some, if◌then◌else◌, arith}
use libpmc.Text.{same}
use libpmc.Text.Same.{same_iff}
use libpmc.Config.{ConfigSection}
use libpmc.Config.File.{Sections, find_section, put_section}

pub find_section-put_section :
    (name other : List ℕ) (s : ConfigSection) (secs : Sections)
    → find_section other (put_section name s secs)
      ≡ (if same name other then some s else find_section other secs)
unfolding find_section put_section
find_section-put_section name other s [] = refl
find_section-put_section name other s ((k, t) ∷ rest) = ground (
  arith,
  same_iff name other,
  same_iff k name,
  same_iff k other,
  find_section-put_section name other s rest,
)
