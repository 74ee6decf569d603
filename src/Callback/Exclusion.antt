-- ===== src/Callback/Exclusion.antt =====
-- AtomicGuard.h: what the two flags exclude, and what they do not.
use sfizz.Base.{◌∙◌, ap, Bool, true, false, ◌≡◌, refl, arith}
use sfizz.Callback.{
  Audio, Control, Threads, start, Step, refuse, check, enter, leave, enter_inner, leave_inner,
  disable, wait, begin, enable, disable_inner, wait_inner, enable_inner, Reach, here, next,
}

abbrev is_rendering : Audio → Bool
is_rendering Audio.rendering = true
is_rendering _ = false

abbrev is_away : Control → Bool
is_away Control.away = true
is_away _ = false

-- Each flag says where its thread stands.
pub record IsTruthful (s : Threads) : Type 0 where
  pub flag : s.in_callback ≡ is_rendering s.audio
  pub door : s.can_enter ≡ is_away s.control

-- Each flag says so much: `inCallback` is not set outside the bodies of callbacks, and
-- `canEnterCallback` is not clear while the other thread is away.
pub record IsGuarded (s : Threads) : Type 0 where
  pub sets : s.in_callback ≡ true → s.audio ≡ Audio.rendering
  pub closes : s.control ≡ Control.away → s.can_enter ≡ true

Step-IsGuarded : {s t : Threads} → Step s t → IsGuarded s → IsGuarded t
Step-IsGuarded (refuse a c) h = h
Step-IsGuarded (check a c) h = record { sets = λ e. cc (h.sets e); closes = h.closes }
Step-IsGuarded (enter a) h = record { sets = λ e. refl; closes = h.closes }
Step-IsGuarded (leave a) h = record { sets = λ e. cc; closes = h.closes }
Step-IsGuarded (enter_inner a c) h = record { sets = λ e. a; closes = h.closes }
Step-IsGuarded (leave_inner a) h = record { sets = λ e. cc; closes = h.closes }
Step-IsGuarded (disable c) h = record { sets = h.sets; closes = λ e. cc }
Step-IsGuarded (wait c i) h = h
Step-IsGuarded (begin c i) h = record { sets = h.sets; closes = λ e. cc }
Step-IsGuarded (enable c) h = record { sets = h.sets; closes = λ e. refl }
Step-IsGuarded (disable_inner c) h = record { sets = h.sets; closes = λ e. cc }
Step-IsGuarded (wait_inner c i) h = h
Step-IsGuarded (enable_inner c) h = record { sets = h.sets; closes = λ e. refl }

-- In every state that the threads can reach from one where this holds, with nested guards and
-- nested disablers, `inCallback` is set only while a callback runs its body, and `canEnterCallback`
-- is clear only while the other thread waits or changes.
pub Reach-IsGuarded : {s t : Threads} → IsGuarded s → Reach s t → IsGuarded t
Reach-IsGuarded h here = h
Reach-IsGuarded h (next r st) = Step-IsGuarded st (Reach-IsGuarded h r)

pub start-IsGuarded : IsGuarded start
start-IsGuarded = record { sets = λ e. cc; closes = λ e. refl }

pub start-IsTruthful : IsTruthful start
start-IsTruthful = ground arith

-- Both threads in their bodies.
abbrev pub Collide : Threads → Type 0
Collide s = (s.audio ≡ Audio.rendering) × (s.control ≡ Control.changing)

-- No callback that begins while the other thread is in its body gets past its test of
-- `canEnterCallback`: where the flags are truthful, a step out of such a state does not take the
-- audio thread from outside.
pub changing_refuses :
    {s t : Threads}
    → IsTruthful s
    → s.control ≡ Control.changing
    → s.audio ≡ Audio.outside
    → Step s t
    → t.audio ≡ Audio.outside
changing_refuses h c a (refuse _ _) = a
changing_refuses h c a (check _ e) = ground (arith, h.door)
changing_refuses h c a (enter e) = cc
changing_refuses h c a (leave e) = cc
changing_refuses h c a (enter_inner e _) = cc
changing_refuses h c a (leave_inner e) = cc
changing_refuses h c a (disable _) = a
changing_refuses h c a (wait _ _) = a
changing_refuses h c a (begin _ _) = a
changing_refuses h c a (enable _) = a
changing_refuses h c a (disable_inner _) = a
changing_refuses h c a (wait_inner _ _) = a
changing_refuses h c a (enable_inner _) = a

abbrev raced : Threads
raced = record {
  can_enter = false;
  in_callback = true;
  audio = Audio.rendering;
  control = Control.changing;
}

-- The test of `canEnterCallback` and the setting of `inCallback` are two steps, and the other
-- thread fits between them: from any state with both threads outside their calls and truthful
-- flags, a state with both threads in their bodies is reached.
pub Reach-Collide :
    (s : Threads)
    → IsTruthful s
    → s.audio ≡ Audio.outside
    → s.control ≡ Control.away
    → (t : Threads) × Reach s t × Collide t
Reach-Collide s h a c = (
  raced,
  next
      (next (next (next here (check a (h.door ∙ ap is_away c))) (disable c))
        (begin refl (h.flag ∙ ap is_rendering a)))
      (enter refl),
  (refl, refl),
)
