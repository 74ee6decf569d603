-- ===== src/Voice/Loading.antt =====
-- Voice.cpp: the loading of files in the background, and the tickets that it goes by.
use sfizz.Base.{ℕ, ◌≡◌, refl, false, List, some, arith, ◌==◌, if◌then◌else◌}
use sfizz.Float.{FloatOps}
use sfizz.Region.{Region, AudioBuffer}
use sfizz.Region.Gain.{Draws, can_use_preloaded_data}
use sfizz.Voice.Parts.{Voice, Trigger}
use sfizz.Voice.Events.{expect_file_data, set_file_data, reset, source}
use sfizz.Voice.Start.{start_voice}

module _ {F : Type 0} ⦃o : FloatOps F⦄ where
  start_voice-loading :
      (v : Voice F) (r : Region F) (ccs : List ℕ) (draws : Draws F) (duration : F) (t : Trigger)
      → let v' = start_voice v r ccs draws duration t in
        (v'.data_ready ≡ v.data_ready) × (v'.file_data ≡ v.file_data)
  unfolding start_voice
  start_voice-loading v r ccs draws duration t = (refl, refl)

  -- Where the preloaded samples do not suffice, a file that comes for the ticket of the voice is
  -- what the voice plays from then on, and one for another ticket changes nothing of it.
  pub set_file_data_lem :
      (v : Voice F) (r : Region F) (file : AudioBuffer F) (ticket : ℕ)
      → can_use_preloaded_data r ≡ false
      → source (set_file_data v file ticket) r
        ≡ (if ticket == v.ticket then some file else source v r)
  unfolding set_file_data source
  set_file_data_lem v r file ticket c = ground arith

  -- A file that is still being loaded when its voice is reset is taken by the idle voice, and
  -- starting the voice anew does not discard it. With a region whose preloaded samples do not
  -- suffice, under the new ticket, and before the new file has
  -- come, the voice plays the samples of the old one.
  pub stale_source :
      (v : Voice F) (r : Region F) (old : AudioBuffer F) (ccs : List ℕ) (draws : Draws F)
      (duration : F) (t : Trigger) (ticket : ℕ)
      → can_use_preloaded_data r ≡ false
      → let idle = set_file_data (reset v) old v.ticket in
        let started = expect_file_data (start_voice idle r ccs draws duration t) ticket in
        source started r ≡ some old
  unfolding source expect_file_data set_file_data reset
  stale_source v r old ccs draws duration t ticket c =
      let loading =
        start_voice-loading (set_file_data (reset v) old v.ticket) r ccs draws duration t in
      ground (arith, loading)
