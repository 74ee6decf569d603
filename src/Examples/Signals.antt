-- ===== src/Examples/Signals.antt =====
-- Envelopes, buffers and ranges on concrete numbers.
use sfizz.Base.{ℕ, ◌<◌, ◌≡◌, ◌↔◌, refl, true, false, List, [], ◌∷◌, ◌++◌, arith, length, replicate}
use sfizz.Base.Int.{ℤ, pos}
use sfizz.Float.{whole}
use sfizz.Range.{Range, nat_order}
use sfizz.HistoricalBuffer.{HistoricalBuffer, push}
use sfizz.HistoricalBuffer.Window.{window, tail, window-push}
use sfizz.Envelope.Adsr.{State, Adsr, is_smoothing}
use sfizz.Envelope.Adsr.Timeline.{after_calls, countdown, after_calls-sustain_iff}
use sfizz.Envelope.Adsr.Ending.{is_smoothing-after_calls}
use sfizz.Envelope.Adsr.Block.{get_block}
use sfizz.Envelope.Adsr.Block.Fitting.{is_smoothing-get_block}
use sfizz.Envelope.Linear.{LinearEnvelope}
use sfizz.Callback.{Audio, Control, Threads, start, check, Reach, here, next}
use sfizz.Callback.Exclusion.{
  start-IsTruthful, IsGuarded, start-IsGuarded, Reach-IsGuarded, Collide, Reach-Collide,
}

abbrev plucked : Adsr ℤ
plucked = record {
  state = State.delay;
  current_value = pos 0;
  step = pos 0;
  delay = pos 2;
  attack = pos 1;
  decay = pos 3;
  release = pos 2;
  hold = pos 0;
  start = pos 0;
  peak = pos 1;
  sustain = pos 1;
  release_delay = pos 0;
  should_release = false;
}

after_calls-sustain_iff_example :
    ((after_calls 7 plucked).state ≡ State.sustain) ↔ (countdown plucked < 7)
after_calls-sustain_iff_example = after_calls-sustain_iff 7 plucked refl refl (omega arith)

abbrev let_go : Adsr ℤ
let_go = record plucked { should_release = true; release_delay = pos 1 }

is_smoothing-after_calls_example : is_smoothing (after_calls 4 let_go) ≡ false
is_smoothing-after_calls_example = is_smoothing-after_calls 1 4 let_go refl refl (omega arith)

is_smoothing-get_block_example :
    (is_smoothing (get_block let_go (replicate 8 (pos 0))).1 ≡ false)
    × (length (get_block let_go (replicate 8 (pos 0))).0 ≡ 8)
is_smoothing-get_block_example =
    is_smoothing-get_block let_go (replicate 8 (pos 0)) 1 2 refl refl refl (omega arith)
      (refl, refl, refl, refl)

abbrev fader : LinearEnvelope ℤ
fader = record {
  function = λ x. x;
  events = (2, pos 8) ∷ (5, pos 2) ∷ [];
  max_capacity = 4;
  current_value = pos 0;
}

abbrev zeros : List ℤ
zeros = replicate 6 (pos 0)

abbrev ones : List ℤ
ones = replicate 6 (pos 1)

abbrev ring : HistoricalBuffer ℤ
ring = record { buffer = pos 4 ∷ pos 5 ∷ pos 3 ∷ []; size = 3; index = 2 }

window-push_example : window (push ring (pos 6)) ≡ tail (window ring) ++ pos 6 ∷ []
window-push_example = window-push ring (pos 6) (record { full = refl; within = omega arith })

abbrev left : List ℕ
left = 1 ∷ 2 ∷ []

abbrev right : List ℕ
right = 3 ∷ 4 ∷ []

abbrev keys : Range ℕ
keys = record { start = 36; end = 96 }

abbrev low : ℕ
low = 48

abbrev high : ℕ
high = 72

abbrev past_test : Threads
past_test = record start { audio = Audio.checked }

Reach-IsGuarded_example : IsGuarded past_test
Reach-IsGuarded_example = Reach-IsGuarded start-IsGuarded (next here (check refl refl))

abbrev in_clear : Threads
in_clear = record {
  can_enter = false;
  in_callback = false;
  audio = Audio.outside;
  control = Control.changing;
}

Reach-Collide_example : (t : Threads) × Reach start t × Collide t
Reach-Collide_example = Reach-Collide start start-IsTruthful refl refl
