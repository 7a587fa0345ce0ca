-- ===== src/Config/Refines.antt =====
-- That reading a file implements what the file says: cfg.cpp's map, arrays and flags against the list of
-- assignments.
use libpmc.Base.{ℕ, ◌≡◌, refl, List, [], ◌∷◌, map, All}
use libpmc.Config.{
  Setting, overrun, unknown, wrong, assign, setting, set_val, apply_setting, Outcome, done, fault,
  and_then,
}
use libpmc.Config.Values.{WellTyped, Assigns, setting-WellTyped}
use libpmc.Config.File.{
  Sections, Line, section_named, no_bracket, nothing, key, section_of, stored, read_line,
  read_lines, buffer_line,
}
use libpmc.Config.Journal.{Journal, noted, entries}
use libpmc.Config.Stored.{Stored, assign-Stored, touch-Stored}

-- Every assignment of the list is of the kind of its index.
abbrev pub Typed : Journal → Type 0
Typed = All (λ e. WellTyped e.1 e.2)

abbrev pub Kept : Sections → Journal → Type 0
Kept secs j = Stored secs j × Typed j

-- The two ways of reading agree: both leave the defined behaviour, or both give the same result and the
-- sections hold the assignments.
abbrev pub Agree : Outcome Sections → Outcome Journal → Type 0
Agree fault fault = Unit {0}
Agree fault (done j b) = ⊥
Agree (done secs a) fault = ⊥
Agree (done secs a) (done j b) = (a ≡ b) × Kept secs j

-- The loop over the buffers that are left agrees, whatever has been read.
abbrev pub AgreeFrom : List (List ℕ) → Type 0
AgreeFrom bufs =
    (cur : List ℕ) (secs : Sections) (j : Journal)
    → Kept secs j
    → Agree (read_lines cur secs bufs) (entries cur j (map buffer_line bufs))

module _ (cur : List ℕ) (secs : Sections) (j : Journal) (bufs : List (List ℕ)) where
  abbrev rest_read : List ℕ × Sections → Outcome Sections
  rest_read p = read_lines p.0 p.1 bufs

  abbrev rest_noted : Journal → Outcome Journal
  rest_noted j' = entries cur j' (map buffer_line bufs)

  setting-Agree :
      (st : Setting)
      → Assigns WellTyped st
      → Kept secs j
      → AgreeFrom bufs
      → Agree
          (and_then (stored cur secs (apply_setting st (section_of cur secs))) rest_read (λ p. p.1))
          (and_then (noted cur j st) rest_noted (λ j'. j'))
  unfolding and_then stored apply_setting noted
  setting-Agree overrun ok h again = tt
  setting-Agree unknown ok h again = again cur _ j (touch-Stored cur secs j h.0, h.1)
  setting-Agree wrong ok h again = (refl, (touch-Stored cur secs j h.0, h.1))
  setting-Agree (assign idx v) ok h again =
      again cur _ ((cur, idx, v) ∷ j) (assign-Stored cur secs j idx v ok h.0, (ok, h.1))

  line-Agree :
      (l : Line)
      → Kept secs j
      → AgreeFrom bufs
      → Agree
          (and_then (read_line cur secs l) rest_read (λ p. p.1))
          (entries cur j (l ∷ map buffer_line bufs))
  unfolding read_line entries and_then
  line-Agree (section_named name) h again = again name secs j h
  line-Agree no_bracket h again = (refl, h)
  line-Agree nothing h again = again cur secs j h
  line-Agree (key line) h again =
      unfold set_val in setting-Agree (setting line) (setting-WellTyped line) h again

pub read_lines-Agree : (bufs : List (List ℕ)) → AgreeFrom bufs
unfolding read_lines
read_lines-Agree [] cur secs j h = unfold entries in (refl, h)
read_lines-Agree (buf ∷ bufs) cur secs j h =
    line-Agree cur secs j bufs (buffer_line buf) h (read_lines-Agree bufs)
