-- ===== src/MidiState/Notes.antt =====
-- MidiState.h: what a note-on leaves for the queries of its note, and of the others.
use sfizz.Base.{
  ℕ, ◌-◌, ◌≡◌, ◌<◌, arith, ◌==◌, if◌then◌else◌, get_or-set_self, get_or-set_ne, length-set,
}
use sfizz.Float.{FloatOps}
use sfizz.MidiState.{MidiState, note_on, get_note_duration, get_note_velocity, IsSized}

pub note_on-IsSized :
    (m : MidiState) (now note velocity : ℕ) → IsSized m → IsSized (note_on m now note velocity)
unfolding note_on
note_on-IsSized m now note velocity h = ground (
  arith,
  h.times,
  h.velocities,
  h.ccs,
  length-set m.note_on_times note now,
  length-set m.last_note_velocities note velocity,
)

-- After a note-on of one of the 128 notes, in a state whose arrays have an entry for each, the query of the velocity gives what it was played
-- with, and the query of its duration the time since; the queries of another note give what they
-- gave before.
pub get_note-note_on :
    {F : Type 0} ⦃o : FloatOps F⦄ (seconds : ℕ → F) (m : MidiState)
    (played now note velocity other : ℕ)
    → IsSized m
    → note < 128
    → let m' = note_on m played note velocity in
      (get_note_velocity m' other ≡ (if note == other then velocity else get_note_velocity m other))
      × (get_note_duration seconds m' now other ≡ (
          if note == other then seconds (now - played) else get_note_duration seconds m now other))
unfolding note_on get_note_velocity get_note_duration
get_note-note_on seconds m played now note velocity other h l = ground (
  arith,
  h.times,
  h.velocities,
  get_or-set_self m.note_on_times note played 0,
  get_or-set_ne m.note_on_times note other played 0,
  get_or-set_self m.last_note_velocities note velocity 0,
  get_or-set_ne m.last_note_velocities note other velocity 0,
)
